-- ===== src/OperationScope/Privilege.antt =====
-- modules/common/operation_scope.rs: what `check`, `live_at` and `authorizes` accept.
use kagi.Base.{
  ℕ, ◌+◌, ◌^◌, ◌≤◌, ◌<◌, ◌≡◌, ◌≢◌, ◌↔◌, refl, ap, inl, inr, Bool, true, false, not, ◌&&◌, ◌||◌,
  List, arith, leb, ◌==◌, if◌then◌else◌, bytes_eq, bytes_eq→eq, bytes_eq_refl, Bool-cases,
}
use kagi.Base.Bits.Digit.{Within, Within-of_mask, mask_of_Within}
use kagi.Base.Outcome.{Result, ok, err, ◌>>◌, refuse_if}
use kagi.OperationScope.{
  Scope, Ask, Refusal, valid_kind, ceiling, level_permits, check, live_at, authorizes, exceeds,
  zero_id,
}

pub passes_iff :
    (b : Bool) (e : Refusal) (m : Result Refusal (Unit {0}))
    → ((refuse_if b e >> m) ≡ ok tt) ↔ ((b ≡ false) × (m ≡ ok tt))
passes_iff true e m = (λ h. absurd (cc), λ (b, h). absurd (cc))
passes_iff false e m = (λ h. (refl, h), λ (b, h). h)

last_iff : (b : Bool) (e : Refusal) → (refuse_if b e ≡ ok tt) ↔ (b ≡ false)
last_iff true e = (λ h. absurd (cc), λ b. absurd (cc))
last_iff false e = (λ h. refl, λ b. refl)

exceeds_iff :
    (ops limit : ℕ)
    → ops < 2 ^ 32
    → limit < 2 ^ 32
    → (exceeds ops limit ≡ false) ↔ Within 32 ops limit
exceeds_iff ops limit small low = (
  λ h. Within-of_mask 32 ops limit low (ground arith),
  λ within. let e = mask_of_Within 32 ops limit small low within in ground arith,
)

pub ceiling-lt : (k c : ℕ) → ceiling k c < 2 ^ 32
unfolding ceiling
ceiling-lt k c = ground arith

-- A scope within its class's ceiling, at a level of its kind, for an actor and an object, and of a
-- window that is not empty and at most an hour long.
abbrev pub IsIssuable : Scope → Type 0
IsIssuable s =
    (valid_kind s.kind ≡ true)
    × (s.ops ≢ 0)
    × Within 32 s.ops (ceiling s.kind s.actor_class)
    × (level_permits s.kind s.ops s.level ≡ true)
    × (s.actor ≢ zero_id)
    × (s.object ≢ zero_id)
    × (s.issued_ms < s.expiry_ms)
    × (s.expiry_ms ≤ s.issued_ms + 3600000)

differs_iff : (a b : List ℕ) → (bytes_eq a b ≡ false) ↔ (a ≢ b)
differs_iff a b = (
  λ h e. let t = bytes_eq_refl b in let u : bytes_eq a b ≡ true = rw e t in cc,
  λ h. elim (Bool-cases (bytes_eq a b)) [
    | inl same ↦ absurd (h (bytes_eq→eq a b same))
    | inr other ↦ other
  ],
)

or_false : (a b : Bool) → ((a || b) ≡ false) ↔ ((a ≡ false) × (b ≡ false))
or_false true b = (λ h. absurd (cc), λ (x, y). absurd (cc))
or_false false b = (λ h. (refl, h), λ (x, y). y)

-- With the operations of a `u32`, `check` accepts exactly the scopes that this profile issues.
pub check-IsIssuable : (s : Scope) → s.ops < 2 ^ 32 → (check s ≡ ok tt) ↔ IsIssuable s
unfolding check
check-IsIssuable s small =
    let over =
      exceeds_iff s.ops (ceiling s.kind s.actor_class) small (ceiling-lt s.kind s.actor_class) in
    let actor = differs_iff s.actor zero_id in
    let object = differs_iff s.object zero_id in
    (
      λ h.
          let (a, h1) = (passes_iff (not (valid_kind s.kind)) _ _).0 h in
          let (b, h2) =
            (passes_iff (s.ops == 0 || exceeds s.ops (ceiling s.kind s.actor_class)) _ _).0 h1 in
          let (c, h3) = (passes_iff (not (level_permits s.kind s.ops s.level)) _ _).0 h2 in
          let (d, h4) =
            (passes_iff (bytes_eq s.actor zero_id || bytes_eq s.object zero_id) _ _).0 h3 in
          let e = (last_iff _ _).0 h4 in
          let (b1, b2) = (or_false (s.ops == 0) _).0 b in
          let (d1, d2) = (or_false (bytes_eq s.actor zero_id) _).0 d in
          let (e1, e2) = (or_false (leb s.expiry_ms s.issued_ms) _).0 e in
          (
            plain _ a,
            ground arith,
            over.0 b2,
            plain _ c,
            actor.0 d1,
            object.0 d2,
            ground arith,
            ground arith,
          ),
      λ (a, b, w, l, x, y, t, u). (passes_iff (not (valid_kind s.kind)) _ _).1 (
        ap not a,
        (passes_iff (s.ops == 0 || exceeds s.ops (ceiling s.kind s.actor_class)) _ _).1 (
          (or_false (s.ops == 0) _).1 (ground arith, over.1 w),
          (passes_iff (not (level_permits s.kind s.ops s.level)) _ _).1 (
            ap not l,
            (passes_iff (bytes_eq s.actor zero_id || bytes_eq s.object zero_id) _ _).1 (
              (or_false (bytes_eq s.actor zero_id) _).1 (actor.1 x, object.1 y),
              (last_iff _ _).1
                  ((or_false (leb s.expiry_ms s.issued_ms) _).1 (ground arith, ground arith)),
            ),
          ),
        ),
      ),
    )
  where
    plain : (b : Bool) → not b ≡ false → b ≡ true
    plain true h = refl
    plain false h = absurd (cc)

pub exceeds_self : (ops : ℕ) → ops < 2 ^ 32 → exceeds ops ops ≡ false
exceeds_self ops small = (exceeds_iff ops ops small small).1 (λ i h. omega arith)

pub live_at_iff :
    (s : Scope) (now_ms : ℕ)
    → s.issued_ms < 2 ^ 64
    → (live_at s now_ms ≡ ok tt)
      ↔ ((now_ms ≢ 0) × (now_ms < s.expiry_ms) × (s.issued_ms ≤ now_ms + 60000))
unfolding live_at
live_at_iff s now_ms fits = (λ h. (ground arith, ground arith, ground arith), λ h. ground arith)

-- The scope covers what is asked.
abbrev pub Covers : Scope → Ask → Type 0
Covers s ask =
    (s.kind ≡ ask.kind)
    × (ask.ops ≢ 0)
    × Within 32 ask.ops s.ops
    × (s.actor_class ≡ ask.actor_class)
    × (s.actor ≡ ask.actor)
    × (s.tenant ≡ ask.tenant)
    × (s.service ≡ ask.service)
    × (s.object ≡ ask.object)

and_true : (a b : Bool) → ((a && b) ≡ true) ↔ ((a ≡ true) × (b ≡ true))
and_true true b = (λ h. (refl, h), λ (x, y). y)
and_true false b = (λ h. absurd (cc), λ (x, y). absurd (cc))

granted_iff :
    (b : Bool)
    → (◌≡◌ {A = Result Refusal (Unit {0})} (if b then ok tt else err Refusal.out_of_scope) (ok tt))
      ↔ (b ≡ true)
granted_iff true = (λ _. refl, λ _. refl)
granted_iff false = (λ h. absurd (cc), λ h. absurd (cc))

pub authorizes-Covers :
    (s : Scope) (ask : Ask)
    → s.ops < 2 ^ 32
    → ask.ops < 2 ^ 32
    → authorizes s ask ≡ ok tt
    → Covers s ask
unfolding authorizes
authorizes-Covers s ask small asked h =
    let all = (granted_iff _).0 h in
    let (a7, object) = (and_true _ (bytes_eq s.object ask.object)).0 all in
    let (a6, service) = (and_true _ (bytes_eq s.service ask.service)).0 a7 in
    let (a5, tenant) = (and_true _ (bytes_eq s.tenant ask.tenant)).0 a6 in
    let (a4, actor) = (and_true _ (bytes_eq s.actor ask.actor)).0 a5 in
    let (a3, class) = (and_true _ (s.actor_class == ask.actor_class)).0 a4 in
    let (a2, ops) = (and_true _ (not (exceeds ask.ops s.ops))).0 a3 in
    let (kind, some_ops) = (and_true (s.kind == ask.kind) _).0 a2 in
    (
      ground arith,
      ground arith,
      (exceeds_iff ask.ops s.ops asked small).0 (flipped _ ops),
      ground arith,
      bytes_eq→eq s.actor ask.actor actor,
      bytes_eq→eq s.tenant ask.tenant tenant,
      bytes_eq→eq s.service ask.service service,
      bytes_eq→eq s.object ask.object object,
    )
  where
    flipped : (b : Bool) → not b ≡ true → b ≡ false
    flipped true h = absurd (cc)
    flipped false h = refl
