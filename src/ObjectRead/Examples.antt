-- ===== src/ObjectRead/Examples.antt =====
-- modules/common/object_read.rs with a store of one object of 4 octets, whose provider says `EAGAIN` a
-- number of times.
use kagi.Base.{ℕ, zero, suc, ◌≡◌, refl, inl, inr, false, none, [], arith}
use kagi.Base.Int.{ℤ, pos, negsuc}
use kagi.ObjectRead.{
  ObjectReads, Read, HeadView, start_read, step, head_stage, get_stage, range_stage,
}
use kagi.ObjectRead.Recording.{run, recording, is_held}
use kagi.ObjectRead.Handles.{IsTidy, run-IsTidy}
use kagi.ObjectRead.Waiting.{Answers, outcome, Asked, IsSteady, run-outcome}

abbrev after_waits : ℕ → ℤ → ℤ × ℕ
after_waits zero answer = (answer, 0)
after_waits (suc waits) answer = (negsuc 10, waits)

abbrev slow : ObjectReads ℕ
slow = record {
  ask_head = λ waits. after_waits waits (pos 64);
  view = λ n waits. (HeadView.size 4, waits);
  etag = λ n waits. (none, waits);
  open_key = λ waits. after_waits waits (pos 7);
  ask_range = λ h want waits. after_waits waits (pos 4);
  close = λ h waits. waits;
}

abbrev stored : Answers
stored = record { head_rc = pos 64; seen = HeadView.size 4; get_rc = pos 7; range_rc = pos 4 }

asked : (waits n : ℕ) → Asked (λ w. w) (pos n) waits (after_waits waits (pos n))
asked zero n = inr (refl, omega arith)
asked (suc waits) n = inl (refl, omega arith)

slow-IsSteady : IsSteady slow stored (λ waits. waits)
slow-IsSteady = record {
  head_settled = refl;
  get_settled = refl;
  range_settled = refl;
  heads = λ waits. asked waits 64;
  views = λ n waits. (refl, omega arith);
  opens = λ waits. asked waits 7;
  ranges = λ h want waits. asked waits 4;
}

run-outcome_example :
    ((run slow 16 6 start_read 5).0 ≡ outcome 16 stored) × (is_held (outcome 16 stored) ≡ false)
run-outcome_example = run-outcome slow stored 16 (λ waits. waits) 6 5 slow-IsSteady (omega arith)

run-IsTidy_example : IsTidy slow (run (recording slow) 16 6 start_read (5, []))
run-IsTidy_example = run-IsTidy slow 6 16 5

found : (run slow 16 6 start_read 5).0 ≡ Read.found 4
unfolding run step head_stage get_stage range_stage
found = refl

too_large : (run slow 3 6 start_read 5).0 ≡ Read.unavailable
unfolding run step head_stage get_stage range_stage
too_large = refl
