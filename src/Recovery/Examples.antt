-- ===== src/Recovery/Examples.antt =====
-- modules/common/recovery.rs at a concrete set of codes, whose keys differ in their first octet.
use kagi.Base.{
  ℕ, ◌+◌, ◌%◌, ◌≡◌, refl, ◌&&◌, ◌||◌, ◌==◌, ltb, false, Option, List, [], ◌∷◌, arith, replicate,
}
use kagi.Base.Text.{codes}
use kagi.Base.Outcome.{ok}
use kagi.Recovery.{
  Hkdf, RecoveryState, is_spent, count_unspent, remaining, spend, normalise, redeem, spend_matched,
}
use kagi.Recovery.Bitmap.{is_spent-spend, remaining-spend}
use kagi.Recovery.Redeeming.{Fills, Answers, Leaves, redeem_lem}

abbrev last_of : List ℕ → ℕ
last_of [] = 0
last_of (x ∷ []) = x
last_of (x ∷ (y ∷ rest)) = last_of (y ∷ rest)

abbrev by_index : Hkdf
by_index salt ikm info = (last_of info % 256) ∷ replicate 31 9

by_index-Fills : Fills by_index
by_index-Fills salt ikm info = (refl, omega arith)

abbrev half_spent : RecoveryState
half_spent = record { spent = 0b0000110101 }

-- The code of index 3, as a tenant may type it.
abbrev typed : List ℕ
typed = codes "ameq-sci jbee-qsci"

redeem_lem_example :
    (m : Option ℕ) × (redeem by_index (codes "root") (codes "tenant") typed half_spent
      ≡ (ok m, spend_matched m half_spent))
    × Answers by_index (codes "root") (codes "tenant") half_spent (normalise typed) m
    × Leaves half_spent m (spend_matched m half_spent)
redeem_lem_example =
    redeem_lem by_index (codes "root") (codes "tenant") typed half_spent by_index-Fills
      (omega arith)

is_spent-spend_example :
    is_spent (spend half_spent 3) 3 ≡ (is_spent half_spent 3 || (ltb 3 10 && 3 == 3))
is_spent-spend_example = is_spent-spend half_spent 3 3

remaining-spend_example : remaining half_spent ≡ remaining (spend half_spent 3) + 1
remaining-spend_example = remaining-spend half_spent 3 (omega arith) unspent
  where
    unspent : is_spent half_spent 3 ≡ false
    unspent = unfold is_spent in refl

six_left : remaining half_spent ≡ 6
unfolding remaining count_unspent is_spent
six_left = refl
