-- ===== src/ObjectRead/Handles.antt =====
-- modules/common/object_read.rs: the handles that a read opens, uses and closes.
use kagi.Base.{
  ℕ, zero, suc, ◌≡◌, ◌≢◌, refl, ◌⊎◌, inl, inr, Bool, true, false, Option, none, some, List, [], ◌∷◌,
  arith, leb, if◌then◌else◌,
}
use kagi.Base.Int.{ℤ, pos, negsuc, is_errno}
use kagi.ObjectRead.{
  ObjectReads, ObjectRead, Read, Stage, HeadView, Answered, idle_read, start_read, step, head_stage,
  get_stage, range_stage, head_answered, get_answered, range_answered, viewed, eagain, enxio,
  end_read,
}
use kagi.ObjectRead.Recording.{run, recording, pending, Call, opening, is_held}

-- A read holds a handle exactly in its last stage.
abbrev pub IsWellFormed : ObjectRead → Type 0
IsWellFormed r = elim r.stage [
  | Stage.idle ↦ r.handle ≡ none
  | Stage.head ↦ r.handle ≡ none
  | Stage.get ↦ r.handle ≡ none
  | Stage.range ↦ (h : ℕ) × (r.handle ≡ some h)
]

module _ {S : Type 0} (p : ObjectReads S) where
  -- After a step: the handle that the calls leave open is the one that the read holds, and the read
  -- is idle unless it is held.
  abbrev pub IsTidy : Answered (S × List Call) → Type 0
  IsTidy (out, r, (s, log)) =
      IsWellFormed r
      × (pending log ≡ some r.handle)
      × (((is_held out ≡ true) × (r.stage ≢ Stage.idle))
          ⊎ ((is_held out ≡ false) × (r ≡ idle_read)))

  end_kept :
      (stage : Stage) (handle : Option ℕ) (want : ℕ) (out : Read) (s : S) (log : List Call)
      → is_held out ≡ false
      → pending log ≡ some handle
      → IsTidy (
          end_read
            (recording p)
            (record { stage = stage; handle = handle; want = want })
            out
            (s, log))
  unfolding pending
  end_kept stage none want out s log o h = (refl, h, inr (o, refl))
  end_kept stage (some k) want out s log o h = (refl, ground arith, inr (o, refl))

  if_kept :
      (b : Bool) (x y : Answered (S × List Call))
      → IsTidy x
      → IsTidy y
      → IsTidy (if b then x else y)
  if_kept true x y hx hy = hx
  if_kept false x y hx hy = hy

  range_kept :
      (h want : ℕ) (rc : ℤ) (s : S) (log : List Call)
      → pending log ≡ some (some h)
      → IsTidy (
          range_answered
            (recording p)
            (record { stage = Stage.range; handle = some h; want = want })
            rc
            (s, log))
  range_kept h want (pos got) s log e =
      if_kept (leb got want) _ _ (end_kept Stage.range (some h) want (Read.found got) s log refl e)
        (end_kept Stage.range (some h) want Read.unavailable s log refl e)
  range_kept h want (negsuc n) s log e =
      if_kept (is_errno eagain (negsuc n)) _ _ ((h, refl), e, inl (refl, λ e. cc))
        (end_kept Stage.range (some h) want Read.unavailable s log refl e)

  ranging :
      (h want : ℕ) (s : S) (log : List Call)
      → pending log ≡ some (some h)
      → IsTidy (
          range_stage
            (recording p)
            (record { stage = Stage.range; handle = some h; want = want })
            (s, log))
  unfolding range_stage pending
  ranging h want s log e =
      range_kept h want (p.ask_range h want s).0 (p.ask_range h want s).1 (Call.ranged h ∷ log)
        (ground arith)

  get_kept :
      (want : ℕ) (rc : ℤ) (s : S) (log : List Call)
      → pending log ≡ some none
      → IsTidy (
          get_answered
            (recording p)
            (record { stage = Stage.get; handle = none; want = want })
            rc
            (s, opening rc log))
  unfolding pending
  get_kept want (pos h) s log e = ranging h want s (Call.opened h ∷ log) (ground arith)
  get_kept want (negsuc n) s log e =
      if_kept (is_errno eagain (negsuc n)) _ _ (refl, e, inl (refl, λ e. cc))
        (end_kept Stage.get none want Read.unavailable s log refl e)

  getting :
      (want : ℕ) (s : S) (log : List Call)
      → pending log ≡ some none
      → IsTidy (
          get_stage
            (recording p)
            (record { stage = Stage.get; handle = none; want = want })
            (s, log))
  unfolding get_stage
  getting want s log e = get_kept want (p.open_key s).0 (p.open_key s).1 log e

  view_kept :
      (want cap : ℕ) (seen : HeadView) (s : S) (log : List Call)
      → pending log ≡ some none
      → IsTidy (
          viewed
            (recording p)
            (record { stage = Stage.head; handle = none; want = want })
            cap
            seen
            (s, log))
  view_kept want cap (HeadView.size n) s log e =
      if_kept (leb n cap) _ _ (getting n s log e)
        (end_kept Stage.head none want Read.unavailable s log refl e)
  view_kept want cap HeadView.too_weak s log e =
      end_kept Stage.head none want Read.weak_view s log refl e
  view_kept want cap HeadView.unreadable s log e =
      end_kept Stage.head none want Read.unavailable s log refl e

  head_kept :
      (want cap : ℕ) (rc : ℤ) (s : S) (log : List Call)
      → pending log ≡ some none
      → IsTidy (
          head_answered
            (recording p)
            (record { stage = Stage.head; handle = none; want = want })
            cap
            rc
            (s, log))
  head_kept want cap (pos n) s log e = view_kept want cap (p.view n s).0 (p.view n s).1 log e
  head_kept want cap (negsuc n) s log e =
      if_kept (is_errno eagain (negsuc n)) _ _ (refl, e, inl (refl, λ e. cc))
        (if_kept (is_errno enxio (negsuc n)) _ _
          (end_kept Stage.head none want Read.absent s log refl e)
          (end_kept Stage.head none want Read.unavailable s log refl e))

  heading :
      (want cap : ℕ) (s : S) (log : List Call)
      → pending log ≡ some none
      → IsTidy (
          head_stage
            (recording p)
            (record { stage = Stage.head; handle = none; want = want })
            cap
            (s, log))
  unfolding head_stage
  heading want cap s log e = head_kept want cap (p.ask_head s).0 (p.ask_head s).1 log e

  -- A step of a well-formed read that is in flight.
  step_kept :
      (stage : Stage) (handle : Option ℕ) (want cap : ℕ) (s : S) (log : List Call)
      → IsWellFormed (record { stage = stage; handle = handle; want = want })
      → stage ≢ Stage.idle
      → pending log ≡ some handle
      → IsTidy
          (step (recording p) (record { stage = stage; handle = handle; want = want }) cap (s, log))
  unfolding step
  step_kept Stage.idle handle want cap s log w live e = absurd (live refl)
  step_kept Stage.head none want cap s log w live e = heading want cap s log e
  step_kept Stage.head (some h) want cap s log w live e = absurd (cc)
  step_kept Stage.get none want cap s log w live e = getting want s log e
  step_kept Stage.get (some h) want cap s log w live e = absurd (cc)
  step_kept Stage.range none want cap s log (h, w) live e = absurd (cc)
  step_kept Stage.range (some k) want cap s log w live e = ranging k want s log e

  run_kept :
      (rounds : ℕ) (stage : Stage) (handle : Option ℕ) (want cap : ℕ) (s : S) (log : List Call)
      → IsWellFormed (record { stage = stage; handle = handle; want = want })
      → stage ≢ Stage.idle
      → pending log ≡ some handle
      → IsTidy (
          run
            (recording p)
            cap
            rounds
            (record { stage = stage; handle = handle; want = want })
            (s, log))
  unfolding run
  run_kept zero stage handle want cap s log w live e = (w, e, inl (refl, live))
  run_kept (suc rounds) stage handle want cap s log w live e =
      let (out, r', (s', log')) =
        step (recording p) (record { stage = stage; handle = handle; want = want }) cap (s, log) in
      let (w', e', after) = step_kept stage handle want cap s log w live e in
      elim after [
        | inl (held, live') ↦
            rw held (run_kept rounds r'.stage r'.handle r'.want cap s' log' w' live' e')
        | inr (ended, idle) ↦ rw ended (w', e', inr (ended, idle))
      ]

-- A read asked again as long as it is held, with any provider: after any number of rounds the handle
-- that its calls leave open is the one that it holds, none but in the last stage. Handles are opened
-- one at a time, and asked and closed only while open; a read that is not held is idle, with none open.
pub run-IsTidy :
    {S : Type 0} (p : ObjectReads S) (rounds cap : ℕ) (s : S)
    → IsTidy p (run (recording p) cap rounds start_read (s, []))
run-IsTidy p rounds cap s =
    run_kept p rounds Stage.head none 0 cap s [] refl (λ e. cc) (unfold pending in refl)
