-- ===== src/Ids/Trimmed.antt =====
-- modules/common/ids.rs: what `trim_ascii` leaves of a text.
use kagi.Base.{ℕ, ◌≡◌, refl, ap, ◌∙◌, inl, inr, true, false, List, [], ◌∷◌, ◌++◌, All, Bool-cases}
use kagi.Totp.Base32.{is_ascii_whitespace}
use kagi.Ids.{trim_start, trim_end, trim_ascii, keep_before}

abbrev pub AreSpaces : List ℕ → Type 0
AreSpaces = All (λ c. is_ascii_whitespace c ≡ true)

abbrev pub StartsClean : List ℕ → Type 0
StartsClean [] = Unit {0}
StartsClean (x ∷ s) = is_ascii_whitespace x ≡ false

abbrev pub EndsClean : List ℕ → Type 0
EndsClean [] = Unit {0}
EndsClean (x ∷ []) = is_ascii_whitespace x ≡ false
EndsClean (x ∷ (y ∷ s)) = EndsClean (y ∷ s)

trim_start-spaces : (front s : List ℕ) → AreSpaces front → trim_start (front ++ s) ≡ trim_start s
unfolding trim_start
trim_start-spaces [] s h = refl
trim_start-spaces (x ∷ front) s (space, h) = rw space (trim_start-spaces front s h)

trim_end_of_spaces : (back : List ℕ) → AreSpaces back → trim_end back ≡ []
unfolding trim_end
trim_end_of_spaces [] h = refl
trim_end_of_spaces (x ∷ back) (space, h) =
    ap (keep_before x) (trim_end_of_spaces back h) ∙ rw space refl

trim_end-spaces : (s back : List ℕ) → AreSpaces back → trim_end (s ++ back) ≡ trim_end s
unfolding trim_end
trim_end-spaces [] back h = trim_end_of_spaces back h
trim_end-spaces (x ∷ s) back h = ap (keep_before x) (trim_end-spaces s back h)

ends-spaces :
    (s back : List ℕ) → AreSpaces back → trim_end (trim_start (s ++ back)) ≡ trim_end (trim_start s)
unfolding trim_start
ends-spaces [] [] h = refl
ends-spaces [] (x ∷ back) (space, h) = rw space (ends-spaces [] back h)
ends-spaces (x ∷ s) back h = elim (Bool-cases (is_ascii_whitespace x)) [
  | inl space ↦ rw (space, trim_start) (ends-spaces s back h)
  | inr clean ↦ rw (clean, trim_start) (trim_end-spaces (x ∷ s) back h)
]

keep_clean : (x : ℕ) (kept : List ℕ) → EndsClean kept → EndsClean (keep_before x kept)
keep_clean x [] h = elim (Bool-cases (is_ascii_whitespace x)) [
  | inl space ↦ rw space tt
  | inr clean ↦ rw clean clean
]
keep_clean x (y ∷ kept) h = h

trim_end-EndsClean : (s : List ℕ) → EndsClean (trim_end s)
unfolding trim_end
trim_end-EndsClean [] = tt
trim_end-EndsClean (x ∷ s) = keep_clean x (trim_end s) (trim_end-EndsClean s)

keep_starts :
    (x : ℕ) (kept : List ℕ) → is_ascii_whitespace x ≡ false → StartsClean (keep_before x kept)
keep_starts x [] clean = rw clean clean
keep_starts x (y ∷ kept) clean = clean

trim_ascii-StartsClean : (s : List ℕ) → StartsClean (trim_end (trim_start s))
unfolding trim_end trim_start
trim_ascii-StartsClean [] = tt
trim_ascii-StartsClean (x ∷ s) = elim (Bool-cases (is_ascii_whitespace x)) [
  | inl space ↦ rw space (trim_ascii-StartsClean s)
  | inr clean ↦ rw clean (keep_starts x (trim_end s) clean)
]

trim_end_of_clean : (s : List ℕ) → EndsClean s → trim_end s ≡ s
unfolding trim_end
trim_end_of_clean [] h = refl
trim_end_of_clean (x ∷ []) clean = rw clean refl
trim_end_of_clean (x ∷ (y ∷ s)) h = ap (keep_before x) (trim_end_of_clean (y ∷ s) h)

trim_start_of_clean : (s : List ℕ) → StartsClean s → trim_start s ≡ s
unfolding trim_start
trim_start_of_clean [] h = refl
trim_start_of_clean (x ∷ s) clean = rw clean refl

-- Whitespace around a text does not change what is left of it, which neither starts nor ends with
-- whitespace.
pub trim_ascii_lem :
    (front s back : List ℕ)
    → AreSpaces front
    → AreSpaces back
    → (trim_ascii (front ++ (s ++ back)) ≡ trim_ascii s)
      × StartsClean (trim_ascii s)
      × EndsClean (trim_ascii s)
unfolding trim_ascii
trim_ascii_lem front s back hf hb = (
  ap trim_end (trim_start-spaces front (s ++ back) hf) ∙ ends-spaces s back hb,
  trim_ascii-StartsClean s,
  trim_end-EndsClean (trim_start s),
)

-- A text that neither starts nor ends with whitespace is left whole.
pub trim_ascii_of_clean : (s : List ℕ) → StartsClean s → EndsClean s → trim_ascii s ≡ s
unfolding trim_ascii
trim_ascii_of_clean s starts ends =
    ap trim_end (trim_start_of_clean s starts) ∙ trim_end_of_clean s ends
