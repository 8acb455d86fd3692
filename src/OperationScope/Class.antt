-- ===== src/OperationScope/Class.antt =====
-- modules/common/operation_scope.rs: the actor classes that hold scopes, by number.
use kagi.Base.{ℕ}

abbrev pub workload : ℕ
workload = 2

abbrev pub service : ℕ
service = 3

abbrev pub host : ℕ
host = 4

abbrev pub operator : ℕ
operator = 5
