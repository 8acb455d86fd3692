-- ===== src/CarrierAuth/Slots.antt =====
-- modules/common/carrier_auth.rs: which slot of the window is given up, and what stays in the others.
use kagi.Base.{
  ℕ, zero, suc, ◌+◌, ◌≤◌, ◌<◌, ◌≡◌, refl, ap, ◌∙◌, ◌≢◌, ◌⊎◌, inl, inr, Bool, true, false, not, ◌||◌,
  ◌&&◌, some, List, [], ◌∷◌, arith, ltb, ltb→lt, leb, if◌then◌else◌, length, get_elem?, set,
  bytes_eq, bytes_eq_refl,
}
use kagi.CarrierAuth.{Seen, empty_slot, is_nil, expire, was_seen, slot_key, min_from, remember}

module _ {ℓ} {A : Type ℓ} where
  pub get_elem?-set :
      (xs : List A) (i j : ℕ) (v : A) → i ≢ j → get_elem? (set xs j v) i ≡ get_elem? xs i
  get_elem?-set [] i j v apart = refl
  get_elem?-set (x ∷ xs) zero zero v apart = absurd (apart refl)
  get_elem?-set (x ∷ xs) zero (suc j) v apart = refl
  get_elem?-set (x ∷ xs) (suc i) zero v apart = refl
  get_elem?-set (x ∷ xs) (suc i) (suc j) v apart = get_elem?-set xs i j v (λ e. apart (ap suc e))

  pub get_elem?-set_here :
      (xs : List A) (j : ℕ) (v : A) {old : A}
      → get_elem? xs j ≡ some old
      → get_elem? (set xs j v) j ≡ some v
  get_elem?-set_here [] j v e = cc
  get_elem?-set_here (x ∷ xs) zero v e = refl
  get_elem?-set_here (x ∷ xs) (suc j) v e = get_elem?-set_here xs j v e

-- What lives on is still where it was.
pub get_elem?-expire :
    (now : ℕ) (seen : List Seen) (i : ℕ) (slot : Seen)
    → get_elem? seen i ≡ some slot
    → now < slot.expires_at
    → get_elem? (expire now seen) i ≡ some slot
unfolding expire
get_elem?-expire now [] i slot e live = cc
get_elem?-expire now (s ∷ seen) zero slot e live =
    let same : s ≡ slot = cc in rw same (ap some (kept (is_nil (slot.id))))
  where
    kept : (b : Bool) → (if not b && leb (slot.expires_at) now then empty_slot else slot) ≡ slot
    kept true = refl
    kept false = ground arith
get_elem?-expire now (s ∷ seen) (suc i) slot e live = get_elem?-expire now seen i slot e live

pub length-expire : (now : ℕ) (seen : List Seen) → length (expire now seen) ≡ length seen
unfolding expire
length-expire now [] = refl
length-expire now (s ∷ seen) = ap suc (length-expire now seen)

pub was_seen_held :
    (seen : List Seen) (i : ℕ) (slot : Seen)
    → get_elem? seen i ≡ some slot
    → is_nil (slot.id) ≡ false
    → was_seen (slot.id) seen ≡ true
unfolding was_seen
was_seen_held [] i slot e full = cc
was_seen_held (s ∷ seen) zero slot e full =
    let same : s ≡ slot = cc in rw same (rw (full, bytes_eq_refl (slot.id)) refl)
was_seen_held (s ∷ seen) (suc i) slot e full =
    rw (was_seen_held seen i slot e full)
      (or_true (not (is_nil (s.id)) && bytes_eq (s.id) (slot.id)))
  where
    or_true : (b : Bool) → (b || true) ≡ true
    or_true true = refl
    or_true false = refl

-- The place that is chosen holds the least key.
Chosen : ℕ → ℕ → ℕ → List Seen → ℕ → Type 0
Chosen place best i seen m =
    (key : ℕ) × (((m ≡ place) × (key ≡ best))
      ⊎ ((j : ℕ) × (slot : Seen) × (m ≡ i + j)
          × (get_elem? seen j ≡ some slot)
          × (key ≡ slot_key slot)))
    × (key ≤ best)
    × ((k : ℕ) (t : Seen) → get_elem? seen k ≡ some t → key ≤ slot_key t)

further :
    (i : ℕ) (s : Seen) (seen : List Seen) (place best m : ℕ)
    → Chosen place best (suc i) seen m
    → best ≤ slot_key s
    → Chosen place best i (s ∷ seen) m
unfolding Chosen
further i s seen place best m (key, from, low, least) h = (key, at from, low, below)
  where
    at :
        (((m ≡ place) × (key ≡ best))
          ⊎ ((j : ℕ) × (slot : Seen) × (m ≡ suc i + j)
              × (get_elem? seen j ≡ some slot)
              × (key ≡ slot_key slot)))
        → (((m ≡ place) × (key ≡ best))
            ⊎ ((j : ℕ) × (slot : Seen) × (m ≡ i + j)
                × (get_elem? (s ∷ seen) j ≡ some slot)
                × (key ≡ slot_key slot)))
    at (inl same) = inl same
    at (inr (j, slot, m_at, e, k)) = inr (suc j, slot, omega arith, e, k)

    below : (k : ℕ) (t : Seen) → get_elem? (s ∷ seen) k ≡ some t → key ≤ slot_key t
    below zero t e = let same : s ≡ t = cc in rw (← same) (omega arith)
    below (suc k) t e = least k t e

nearer :
    (i : ℕ) (s : Seen) (seen : List Seen) (place best m : ℕ)
    → Chosen i (slot_key s) (suc i) seen m
    → slot_key s < best
    → Chosen place best i (s ∷ seen) m
unfolding Chosen
nearer i s seen place best m (key, from, low, least) h = (key, at from, omega arith, below)
  where
    at :
        (((m ≡ i) × (key ≡ slot_key s))
          ⊎ ((j : ℕ) × (slot : Seen) × (m ≡ suc i + j)
              × (get_elem? seen j ≡ some slot)
              × (key ≡ slot_key slot)))
        → (((m ≡ place) × (key ≡ best))
            ⊎ ((j : ℕ) × (slot : Seen) × (m ≡ i + j)
                × (get_elem? (s ∷ seen) j ≡ some slot)
                × (key ≡ slot_key slot)))
    at (inl (m_at, k)) = inr (0, s, omega arith, refl, k)
    at (inr (j, slot, m_at, e, k)) = inr (suc j, slot, omega arith, e, k)

    below : (k : ℕ) (t : Seen) → get_elem? (s ∷ seen) k ≡ some t → key ≤ slot_key t
    below zero t e = let same : s ≡ t = cc in rw (← same) (omega arith)
    below (suc k) t e = least k t e

if_either :
    (place best i : ℕ) (seen : List Seen) (b : Bool) (x y : ℕ)
    → (b ≡ true → Chosen place best i seen x)
    → (b ≡ false → Chosen place best i seen y)
    → Chosen place best i seen (if b then x else y)
if_either place best i seen true x y f g = f refl
if_either place best i seen false x y f g = g refl

min_from-Chosen :
    (place best i : ℕ) (seen : List Seen) → Chosen place best i seen (min_from place best i seen)
unfolding min_from Chosen
min_from-Chosen place best i [] = (best, inl (refl, refl), omega arith, λ k t e. cc)
min_from-Chosen place best i (s ∷ seen) =
    if_either place best i (s ∷ seen) (ltb (slot_key s) best) _ _
      (λ h.
        nearer i s seen place best _ (min_from-Chosen i (slot_key s) (suc i) seen)
          (ltb→lt (slot_key s) best h))
      (λ h. further i s seen place best _ (min_from-Chosen place best (suc i) seen) (ground arith))

-- A new entry takes a place whose key is the least in the window.
pub remember_lem :
    (entry s : Seen) (seen : List Seen)
    → (m : ℕ) × (old : Seen) × (get_elem? (s ∷ seen) m ≡ some old)
      × ((k : ℕ) (t : Seen) → get_elem? (s ∷ seen) k ≡ some t → slot_key old ≤ slot_key t)
      × (remember entry (s ∷ seen) ≡ set (s ∷ seen) m entry)
unfolding remember Chosen
remember_lem entry s seen =
    let (key, from, low, least) = min_from-Chosen 0 (slot_key s) 1 seen in
    elim from [
      | inl (at, k) ↦ (0, s, refl, all_above s key low least k, λ i. set (s ∷ seen) (at i) entry)
      | inr (j, slot, at, e, k) ↦ (
        suc j,
        slot,
        e,
        all_above slot key low least k,
        ap (λ m. set (s ∷ seen) m entry) (at ∙ one_more j),
      )
    ]
  where
    one_more : (j : ℕ) → 1 + j ≡ suc j
    one_more j = omega arith

    all_above :
        (old : Seen) (key : ℕ)
        → key ≤ slot_key s
        → ((k : ℕ) (t : Seen) → get_elem? seen k ≡ some t → key ≤ slot_key t)
        → key ≡ slot_key old
        → (k : ℕ) (t : Seen) → get_elem? (s ∷ seen) k ≡ some t
        → slot_key old ≤ slot_key t
    all_above old key low least is zero t e = let same : s ≡ t = cc in rw (← same) (omega arith)
    all_above old key low least is (suc k) t e = let here = least k t e in omega arith
