-- ===== src/ObjectRead/Recording.antt =====
-- modules/common/object_read.rs: a read over several steps, and a provider whose calls are recorded.
use kagi.Base.{
  ℕ, zero, suc, Bool, true, false, Option, none, some, List, [], ◌∷◌, ◌==◌, if◌then◌else◌,
}
use kagi.Base.Int.{ℤ, pos, negsuc}
use kagi.Base.Maybe.{◌>>=◌}
use kagi.ObjectRead.{ObjectReads, ObjectRead, Read, Answered, step}

abbrev pub is_held : Read → Bool
is_held Read.held = true
is_held (Read.found n) = false
is_held Read.absent = false
is_held Read.weak_view = false
is_held Read.unavailable = false

module _ {S : Type 0} (p : ObjectReads S) (cap : ℕ) where
  -- A caller that asks again while the read is held, at most `rounds` times.
  unfoldable pub run : ℕ → ObjectRead → S → Answered S
  unfolding step
  run zero r s = (Read.held, r, s)
  run (suc rounds) r s =
      let (out, r', s') = step p r cap s in
      let later = run rounds r' s' in if is_held out then later else (out, r', s')

-- The calls that matter to handles, the last one first.
pub data Call : Type 0 where
  opened ranged closed : ℕ → Call

abbrev pub opening : ℤ → List Call → List Call
opening (pos h) log = Call.opened h ∷ log
opening (negsuc n) log = log

-- The same provider, its calls recorded.
abbrev pub recording : {S : Type 0} → ObjectReads S → ObjectReads (S × List Call)
recording p = record {
  ask_head = λ (s, log). let (rc, s') = p.ask_head s in (rc, (s', log));
  view = λ n (s, log). let (seen, s') = p.view n s in (seen, (s', log));
  etag = λ n (s, log). let (len, s') = p.etag n s in (len, (s', log));
  open_key = λ (s, log). let (rc, s') = p.open_key s in (rc, (s', opening rc log));
  ask_range =
      λ h len (s, log). let (rc, s') = p.ask_range h len s in (rc, (s', Call.ranged h ∷ log));
  close = λ h (s, log). (p.close h s, Call.closed h ∷ log);
}

-- The handle open after these calls, if they kept the contract: one handle at a time, asked and closed
-- only while it is open. `none` is a breach.
abbrev pub if_open : ℕ → Option ℕ → Option (Option ℕ)
if_open h none = none
if_open h (some held) = if h == held then some (some held) else none

abbrev pub if_none : ℕ → Option ℕ → Option (Option ℕ)
if_none h none = some (some h)
if_none h (some held) = none

unfoldable pub pending : List Call → Option (Option ℕ)
pending [] = some none
pending (Call.opened h ∷ log) = pending log >>= if_none h
pending (Call.ranged h ∷ log) = pending log >>= if_open h
pending (Call.closed h ∷ log) = pending log >>= if_open h >>= λ held. some none
