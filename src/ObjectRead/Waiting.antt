-- ===== src/ObjectRead/Waiting.antt =====
-- modules/common/object_read.rs: a read that waits, beside one that does not.
use kagi.Base.{
  ℕ, zero, suc, ◌≤◌, ◌<◌, ◌≡◌, refl, sym, ap, ◌∙◌, ◌⊎◌, inl, inr, Bool, true, false, Option, none,
  some, arith, leb, if◌then◌else◌,
}
use mathlib.Core.Path.{subst}
use kagi.Base.Int.{ℤ, pos, negsuc, is_errno}
use kagi.ObjectRead.{
  ObjectReads, ObjectRead, Read, Stage, HeadView, Answered, start_read, step, head_stage, get_stage,
  range_stage, head_answered, get_answered, range_answered, viewed, eagain, enxio, end_read,
}
use kagi.ObjectRead.Recording.{run, is_held}

-- What a store says, once it says something: its answers to `HEAD`, `GET` and `RANGE_GET`.
pub record Answers : Type 0 where
  pub head_rc : ℤ
  pub seen : HeadView
  pub get_rc : ℤ
  pub range_rc : ℤ

abbrev pub NotAgain : ℤ → Type 0
NotAgain rc = is_errno eagain rc ≡ false

-- The answer that these amount to, with no stage and no wait.
abbrev pub copied : ℕ → ℤ → Read
copied want (pos got) = if leb got want then Read.found got else Read.unavailable
copied want (negsuc n) = Read.unavailable

abbrev pub opened : ℕ → ℤ → ℤ → Read
opened want (pos h) range_rc = copied want range_rc
opened want (negsuc n) range_rc = Read.unavailable

abbrev pub judged : ℕ → HeadView → ℤ → ℤ → Read
judged cap (HeadView.size want) get_rc range_rc =
    if leb want cap then opened want get_rc range_rc else Read.unavailable
judged cap HeadView.too_weak get_rc range_rc = Read.weak_view
judged cap HeadView.unreadable get_rc range_rc = Read.unavailable

abbrev pub headed : ℕ → Answers → ℤ → Read
headed cap a (pos n) = judged cap a.seen a.get_rc a.range_rc
headed cap a (negsuc n) = if is_errno enxio (negsuc n) then Read.absent else Read.unavailable

abbrev pub outcome : ℕ → Answers → Read
outcome cap a = headed cap a a.head_rc

-- An ask is answered by `EAGAIN`, which takes some of the provider's patience, or as the store answers,
-- which adds none.
abbrev pub Asked : {S : Type 0} → (S → ℕ) → ℤ → S → ℤ × S → Type 0
Asked patience answer s (rc, s') =
    ((is_errno eagain rc ≡ true) × (patience s' < patience s))
    ⊎ ((rc ≡ answer) × (patience s' ≤ patience s))

-- A provider over a store with these answers, whose patience bounds the `EAGAIN`s to come.
pub record IsSteady {S : Type 0} (p : ObjectReads S) (a : Answers) (patience : S → ℕ) : Type 0 where
  pub head_settled : NotAgain a.head_rc
  pub get_settled : NotAgain a.get_rc
  pub range_settled : NotAgain a.range_rc
  pub heads : (s : S) → Asked patience a.head_rc s (p.ask_head s)
  pub views : (n : ℕ) (s : S) → ((p.view n s).0 ≡ a.seen) × (patience (p.view n s).1 ≤ patience s)
  pub opens : (s : S) → Asked patience a.get_rc s (p.open_key s)
  pub ranges : (h want : ℕ) (s : S) → Asked patience a.range_rc s (p.ask_range h want s)

module _ {S : Type 0} (p : ObjectReads S) (a : Answers) (cap : ℕ) (patience : S → ℕ)
    (steady : IsSteady p a patience) where
  -- What a read in this stage will answer.
  abbrev remaining_at : Stage → ℕ → Read
  remaining_at Stage.idle want = Read.unavailable
  remaining_at Stage.head want = outcome cap a
  remaining_at Stage.get want = opened want a.get_rc a.range_rc
  remaining_at Stage.range want = copied want a.range_rc

  abbrev remaining : ObjectRead → Read
  remaining r = remaining_at r.stage r.want

  -- A step either uses up patience, or answers.
  abbrev Progress : ℕ → Read → Answered S → Type 0
  Progress left e (out, r, s) =
      ((out ≡ Read.held) × (remaining r ≡ e) × (patience s < left)) ⊎ (out ≡ e)

  if_advances :
      (left : ℕ) (b : Bool) (e f : Read) (x y : Answered S)
      → Progress left e x
      → Progress left f y
      → Progress left (if b then e else f) (if b then x else y)
  if_advances left true e f x y hx hy = hx
  if_advances left false e f x y hx hy = hy

  if_again :
      (left n : ℕ) (answer : ℤ) (r : ObjectRead) (s s0 : S) (e : Read) (y : Answered S)
      → patience s0 ≤ left
      → NotAgain answer
      → remaining r ≡ e
      → Asked patience answer s0 (negsuc n, s)
      → (negsuc n ≡ answer → Progress left e y)
      → Progress left e (if is_errno eagain (negsuc n) then (Read.held, r, s) else y)
  if_again left n answer r s s0 e y few settled same (inl (again, less)) after =
      rw again (inl (refl, same, omega arith))
  if_again left n answer r s s0 e y few settled same (inr (said, most)) after =
      let settled' : is_errno eagain (negsuc n) ≡ false = subst NotAgain (sym said) settled in
      rw settled' (after said)

  range_advances :
      (left : ℕ) (r : ObjectRead) (rc : ℤ) (s s0 : S)
      → patience s0 ≤ left
      → r.stage ≡ Stage.range
      → Asked patience a.range_rc s0 (rc, s)
      → Progress left (copied r.want a.range_rc) (range_answered p r rc s)
  range_advances left r (pos got) s s0 few at (inl (again, less)) = absurd (cc)
  range_advances left r (pos got) s s0 few at (inr (said, most)) =
      rw (← said) (if_advances left (leb got r.want) _ _ _ _ (inr refl) (inr refl))
  range_advances left r (negsuc n) s s0 few at asked =
      if_again left n a.range_rc r s s0 (copied r.want a.range_rc) _ few steady.range_settled
        (rw at refl) asked (λ said. rw (← said) (inr refl))

  ranging :
      (left : ℕ) (r : ObjectRead) (s : S)
      → patience s ≤ left
      → r.stage ≡ Stage.range
      → Progress left (copied r.want a.range_rc) (range_stage p r s)
  unfolding range_stage
  ranging left r s few at = range_advances left r _ _ s few at (steady.ranges _ r.want s)

  get_advances :
      (left : ℕ) (r : ObjectRead) (rc : ℤ) (s s0 : S)
      → patience s0 ≤ left
      → r.stage ≡ Stage.get
      → Asked patience a.get_rc s0 (rc, s)
      → Progress left (opened r.want a.get_rc a.range_rc) (get_answered p r rc s)
  get_advances left r (pos h) s s0 few at (inl (again, less)) = absurd (cc)
  get_advances left r (pos h) s s0 few at (inr (said, most)) =
      subst (λ rc. Progress left (opened r.want rc a.range_rc) (get_answered p r (pos h) s)) said
        (ranging left (record r { handle = some h; stage = Stage.range }) s (omega arith) refl)
  get_advances left r (negsuc n) s s0 few at asked =
      if_again left n a.get_rc r s s0 (opened r.want a.get_rc a.range_rc) _ few steady.get_settled
        (rw at refl) asked
        (λ said.
          subst
            (λ rc. Progress left (opened r.want rc a.range_rc) (end_read p r Read.unavailable s))
            said (inr refl))

  getting :
      (left : ℕ) (r : ObjectRead) (s : S)
      → patience s ≤ left
      → r.stage ≡ Stage.get
      → Progress left (opened r.want a.get_rc a.range_rc) (get_stage p r s)
  unfolding get_stage
  getting left r s few at = get_advances left r _ _ s few at (steady.opens s)

  view_advances :
      (left : ℕ) (r : ObjectRead) (seen : HeadView) (s : S)
      → patience s ≤ left
      → Progress left (judged cap seen a.get_rc a.range_rc) (viewed p r cap seen s)
  view_advances left r (HeadView.size want) s few =
      if_advances left (leb want cap) _ _ _ _
        (getting left (record r { want = want; stage = Stage.get }) s few refl) (inr refl)
  view_advances left r HeadView.too_weak s few = inr refl
  view_advances left r HeadView.unreadable s few = inr refl

  head_advances :
      (left : ℕ) (r : ObjectRead) (rc : ℤ) (s s0 : S)
      → patience s0 ≤ left
      → r.stage ≡ Stage.head
      → Asked patience a.head_rc s0 (rc, s)
      → Progress left (outcome cap a) (head_answered p r cap rc s)
  head_advances left r (pos n) s s0 few at (inl (again, less)) = absurd (cc)
  head_advances left r (pos n) s s0 few at (inr (said, most)) =
      let (same, more) = steady.views n s in
      subst (λ rc. Progress left (headed cap a rc) (head_answered p r cap (pos n) s)) said
        (subst
          (λ seen.
            Progress left (judged cap seen a.get_rc a.range_rc) (head_answered p r cap (pos n) s))
          same (view_advances left r (p.view n s).0 (p.view n s).1 (omega arith)))
  head_advances left r (negsuc n) s s0 few at asked =
      if_again left n a.head_rc r s s0 (outcome cap a) _ few steady.head_settled (rw at refl) asked
        (λ said.
          subst
            (λ rc. Progress left (headed cap a rc) (
              if is_errno enxio (negsuc n)
              then end_read p r Read.absent s
              else end_read p r Read.unavailable s))
            said (if_advances left (is_errno enxio (negsuc n)) _ _ _ _ (inr refl) (inr refl)))

  heading :
      (left : ℕ) (r : ObjectRead) (s : S)
      → patience s ≤ left
      → r.stage ≡ Stage.head
      → Progress left (outcome cap a) (head_stage p r cap s)
  unfolding head_stage
  heading left r s few at = head_advances left r _ _ s few at (steady.heads s)

  step_advances :
      (stage : Stage) (handle : Option ℕ) (want : ℕ) (s : S)
      → Progress
          (patience s)
          (remaining_at stage want)
          (step p (record { stage = stage; handle = handle; want = want }) cap s)
  unfolding step
  step_advances Stage.idle handle want s = inr refl
  step_advances Stage.head handle want s =
      heading (patience s) (record { stage = Stage.head; handle = handle; want = want }) s
        (omega arith) refl
  step_advances Stage.get handle want s =
      getting (patience s) (record { stage = Stage.get; handle = handle; want = want }) s
        (omega arith) refl
  step_advances Stage.range handle want s =
      ranging (patience s) (record { stage = Stage.range; handle = handle; want = want }) s
        (omega arith) refl

  copied-settled : (want : ℕ) (rc : ℤ) → is_held (copied want rc) ≡ false
  copied-settled want (pos got) = ground arith
  copied-settled want (negsuc n) = refl

  opened-settled : (want : ℕ) (rc rc' : ℤ) → is_held (opened want rc rc') ≡ false
  opened-settled want (pos h) rc' = copied-settled want rc'
  opened-settled want (negsuc n) rc' = refl

  judged-settled : (seen : HeadView) (rc rc' : ℤ) → is_held (judged cap seen rc rc') ≡ false
  judged-settled (HeadView.size want) rc rc' = ground (arith, opened-settled want rc rc')
  judged-settled HeadView.too_weak rc rc' = refl
  judged-settled HeadView.unreadable rc rc' = refl

  headed-settled : (rc : ℤ) → is_held (headed cap a rc) ≡ false
  headed-settled (pos n) = judged-settled a.seen a.get_rc a.range_rc
  headed-settled (negsuc n) = ground arith

  remaining-settled : (stage : Stage) (want : ℕ) → is_held (remaining_at stage want) ≡ false
  remaining-settled Stage.idle want = refl
  remaining-settled Stage.head want = headed-settled a.head_rc
  remaining-settled Stage.get want = opened-settled want a.get_rc a.range_rc
  remaining-settled Stage.range want = copied-settled want a.range_rc

  run_answers :
      (rounds : ℕ) (stage : Stage) (handle : Option ℕ) (want : ℕ) (s : S)
      → patience s < rounds
      → (run p cap rounds (record { stage = stage; handle = handle; want = want }) s).0
        ≡ remaining_at stage want
  unfolding run
  run_answers zero stage handle want s few = absurd (omega arith)
  run_answers (suc rounds) stage handle want s few =
      let (out, r', s') = step p (record { stage = stage; handle = handle; want = want }) cap s in
      elim (step_advances stage handle want s) [
        | inl (held, same, less) ↦
            let waits : is_held out ≡ true = ap is_held held in
            rw waits (run_answers rounds r'.stage r'.handle r'.want s' (omega arith) ∙ same)
        | inr answered ↦
            let ends : is_held out ≡ false = ap is_held answered ∙ remaining-settled stage want in
            rw ends answered
      ]

-- Over a store whose answers stand, a provider that says `EAGAIN` only as often as its patience lasts:
-- asked one round more than that, the read has ended, with what the store's answers amount to, as if it
-- had never waited.
pub run-outcome :
    {S : Type 0} (p : ObjectReads S) (a : Answers) (cap : ℕ) (patience : S → ℕ) (rounds : ℕ) (s : S)
    → IsSteady p a patience
    → patience s < rounds
    → ((run p cap rounds start_read s).0 ≡ outcome cap a) × (is_held (outcome cap a) ≡ false)
run-outcome p a cap patience rounds s steady few = (
  run_answers p a cap patience steady rounds Stage.head none 0 s few,
  headed-settled p a cap patience steady a.head_rc,
)
