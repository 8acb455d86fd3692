-- ===== src/OperationScope/Level.antt =====
-- modules/common/operation_scope.rs: the levels, by number.
use kagi.Base.{ℕ}

abbrev pub cell : ℕ
cell = 1

abbrev pub region : ℕ
region = 2

abbrev pub global : ℕ
global = 3
