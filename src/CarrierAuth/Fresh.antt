-- ===== src/CarrierAuth/Fresh.antt =====
-- modules/common/carrier_auth.rs: which identifiers the window takes.
use kagi.Base.{
  ℕ, suc, ◌≤◌, ◌<◌, ◌≡◌, refl, sym, ap, ◌∙◌, ◌↔◌, ◌≢◌, inl, inr, Bool, true, false, not, ◌||◌, ◌&&◌,
  some, List, [], ◌∷◌, arith, ltb, leb, if◌then◌else◌, Bool-cases, length, get_elem?, bytes_eq,
  bytes_eq→eq,
}
use kagi.CarrierAuth.{Seen, empty_slot, is_nil, expire, was_seen, remember, replayed}
use kagi.CarrierAuth.Slots.{get_elem?-expire, was_seen_held}

-- An identifier of 1 to 48 octets, which no slot of the window holds that has not lapsed at `now`.
pub IsFresh : List Seen → List ℕ → ℕ → Type 0
IsFresh seen id now =
    (id ≢ [])
    × (length id ≤ 48)
    × ((i : ℕ) (slot : Seen) → get_elem? seen i ≡ some slot → slot.id ≡ id → slot.expires_at ≤ now)

pub is_nil_iff : (xs : List ℕ) → (is_nil xs ≡ false) ↔ (xs ≢ [])
is_nil_iff [] = (λ e. absurd (cc), λ full. absurd (full refl))
is_nil_iff (x ∷ xs) = (λ e same. cc, λ full. refl)

-- A slot holds the identifier, and has not lapsed.
Held : List ℕ → ℕ → List Seen → Type 0
Held id now seen =
    (i : ℕ) × (slot : Seen) × (get_elem? seen i ≡ some slot)
    × (slot.id ≡ id)
    × (now < slot.expires_at)

Held-suc :
    (id : List ℕ) (now : ℕ) (s : Seen) (seen : List Seen)
    → Held id now seen
    → Held id now (s ∷ seen)
unfolding Held
Held-suc id now s seen (i, slot, at, same, live) = (suc i, slot, at, same, live)

-- What is seen in a window from which the lapsed is dropped is held.
was_seen-Held :
    (id : List ℕ) (now : ℕ) (seen : List Seen)
    → was_seen id (expire now seen) ≡ true
    → Held id now seen
unfolding was_seen expire Held
was_seen-Held id now [] e = absurd (cc)
was_seen-Held id now (s ∷ seen) e =
    here (not (is_nil (s.id)) && leb (s.expires_at) now) refl
      (λ e'. Held-suc id now s seen (was_seen-Held id now seen e')) e
  where
    full_slot :
        (n b : Bool)
        → bytes_eq (s.id) id ≡ b
        → (not n && leb (s.expires_at) now) ≡ false
        → (was_seen id (expire now seen) ≡ true → Held id now (s ∷ seen))
        → ((not n && b) || was_seen id (expire now seen)) ≡ true
        → Held id now (s ∷ seen)
    full_slot true b eb kept later e' = later e'
    full_slot false true eb kept later e' = (0, s, refl, bytes_eq→eq (s.id) id eb, ground arith)
    full_slot false false eb kept later e' = later e'

    here :
        (b : Bool)
        → (not (is_nil (s.id)) && leb (s.expires_at) now) ≡ b
        → (was_seen id (expire now seen) ≡ true → Held id now (s ∷ seen))
        → was_seen id ((if b then empty_slot else s) ∷ expire now seen) ≡ true
        → Held id now (s ∷ seen)
    here true eb later e' = later e'
    here false eb later e' = full_slot (is_nil (s.id)) (bytes_eq (s.id) id) refl eb later e'

unseen_iff :
    (id : List ℕ) (now : ℕ) (seen : List Seen)
    → id ≢ []
    → (was_seen id (expire now seen) ≡ false) ↔ (
        (i : ℕ) (slot : Seen) → get_elem? seen i ≡ some slot → slot.id ≡ id → slot.expires_at ≤ now)
unfolding Held
unseen_iff id now seen full = (
  λ unseen i slot at same. ground (arith, refuted unseen i slot at same),
  λ lapsed. elim (Bool-cases (was_seen id (expire now seen))) [
    | inl e ↦
        let (i, slot, at, same, live) = was_seen-Held id now seen e in
        let old = lapsed i slot at same in absurd (omega arith)
    | inr e ↦ e
  ],
)
  where
    refuted :
        was_seen id (expire now seen) ≡ false
        → (i : ℕ) (slot : Seen) → get_elem? seen i ≡ some slot
        → slot.id ≡ id
        → ¬ (now < slot.expires_at)
    refuted unseen i slot at same live =
        let held =
          was_seen_held (expire now seen) i slot (get_elem?-expire now seen i slot at live)
            ((is_nil_iff (slot.id)).1 (λ e. full (sym same ∙ e))) in
        let twice : true ≡ false =
          sym held ∙ ap (λ t. was_seen t (expire now seen)) same ∙ unseen in
        cc

-- A carrier that is taken is fresh, and the window remembers it in place of what is dropped.
pub replayed_iff :
    (seen : List Seen) (id : List ℕ) (expires_at now : ℕ) (after : List Seen)
    → (replayed seen id expires_at now ≡ (false, after)) ↔ (
        IsFresh seen id now
        × (after ≡ remember (record { id = id; expires_at = expires_at }) (expire now seen)))
unfolding replayed IsFresh
replayed_iff seen id expires_at now after =
    by_tests (is_nil id) (ltb 48 (length id)) (was_seen id (expire now seen)) refl refl refl
  where
    kept : List Seen
    kept = remember (record { id = id; expires_at = expires_at }) (expire now seen)

    tested : Bool → Bool → Bool → Bool × List Seen
    tested n l w =
        if n || l then (true, seen) else if w then (true, expire now seen) else (false, kept)

    by_tests :
        (n l w : Bool)
        → is_nil id ≡ n
        → ltb 48 (length id) ≡ l
        → was_seen id (expire now seen) ≡ w
        → (tested n l w ≡ (false, after)) ↔ (IsFresh seen id now × (after ≡ kept))
    by_tests true l w en el ew = (
      λ e. let f : true ≡ false = ap (λ t. t.0) e in absurd (cc),
      λ ((full, short, lapsed), same).
          let t : true ≡ false = sym en ∙ (is_nil_iff id).1 full in absurd (cc),
    )
    by_tests false true w en el ew = (
      λ e. let f : true ≡ false = ap (λ t. t.0) e in absurd (cc),
      λ ((full, short, lapsed), same). absurd (ground arith),
    )
    by_tests false false true en el ew = (
      λ e. let f : true ≡ false = ap (λ t. t.0) e in absurd (cc),
      λ ((full, short, lapsed), same).
          let t : true ≡ false = sym ew ∙ (unseen_iff id now seen full).1 lapsed in absurd (cc),
    )
    by_tests false false false en el ew = (
      λ e.
          let full : id ≢ [] = (is_nil_iff id).0 en in
          ((full, ground arith, (unseen_iff id now seen full).0 ew), sym (ap (λ t. t.1) e)),
      λ (fresh, same). ap (λ t. (false, t)) (sym same),
    )
