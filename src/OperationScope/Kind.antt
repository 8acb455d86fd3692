-- ===== src/OperationScope/Kind.antt =====
-- modules/common/operation_scope.rs: the scope kinds, by number.
use kagi.Base.{ℕ}

abbrev pub dial : ℕ
dial = 1

abbrev pub chain : ℕ
chain = 3

abbrev pub prefix : ℕ
prefix = 5

abbrev pub failure_domain : ℕ
failure_domain = 6

abbrev pub dr_intent : ℕ
dr_intent = 7

abbrev pub fence : ℕ
fence = 8
