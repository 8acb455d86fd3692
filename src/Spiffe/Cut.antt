-- ===== src/Spiffe/Cut.antt =====
-- modules/common/spiffe.rs: the parts into which `split` cuts a name.
use kagi.Base.{
  ℕ, zero, suc, ◌≡◌, refl, sym, ap, ◌∙◌, ◌⊎◌, Bool, true, false, not, ◌||◌, none, some, List, [],
  ◌∷◌, ◌++◌, arith, length, take, drop, ltb, ◌==◌, ==_iff, if◌then◌else◌, inl, inr, bytes_eq,
  bytes_eq→eq, bytes_eq_refl, length-append, take-append_length, drop-append_length,
}
use kagi.Base.Text.{codes}
use kagi.Base.Maybe.{>>=-eq-some}
use kagi.Spiffe.{scheme, strip_prefix, at_slash, split}

take-append-drop : (n : ℕ) (xs : List ℕ) → take n xs ++ drop n xs ≡ xs
take-append-drop zero xs = refl
take-append-drop (suc n) [] = refl
take-append-drop (suc n) (x ∷ xs) = ap (λ t. x ∷ t) (take-append-drop n xs)

stripped :
    (a b : Bool) {rest rest' : List ℕ}
    → (if a || not b then none else some rest) ≡ some rest'
    → (b ≡ true) × (rest ≡ rest')
stripped true b e = cc
stripped false true e = (refl, cc)
stripped false false e = cc

-- What is stripped stood before the rest.
pub strip_prefix_lem :
    (bytes prefix rest : List ℕ) → strip_prefix bytes prefix ≡ some rest → bytes ≡ prefix ++ rest
unfolding strip_prefix
strip_prefix_lem bytes prefix rest e =
    let (same, left) =
      stripped (ltb (length bytes) (length prefix)) (bytes_eq (take (length prefix) bytes) prefix)
        e in
    sym (take-append-drop (length prefix) bytes)
    ∙ (λ i. bytes_eq→eq (take (length prefix) bytes) prefix same i ++ left i)

pub strip_prefix-append : (prefix rest : List ℕ) → strip_prefix (prefix ++ rest) prefix ≡ some rest
unfolding strip_prefix
strip_prefix-append prefix rest =
    let long : ltb (length (prefix ++ rest)) (length prefix) ≡ false =
      ground (arith, length-append prefix rest) in
    rw
      (
        take-append_length (length prefix) prefix rest refl,
        drop-append_length (length prefix) prefix rest refl,
        bytes_eq_refl prefix,
        long,
      )
      refl

-- Nothing follows the first slash, or it stands between the two parts.
abbrev pub Around : List ℕ → List ℕ → List ℕ → Type 0
Around rest class path = (path ≡ []) ⊎ (rest ≡ class ++ b'/' ∷ path)

abbrev pub cut_at : Bool → ℕ → List ℕ → List ℕ → List ℕ → List ℕ × List ℕ
cut_at b byte rest before after = if b then ([], rest) else (byte ∷ before, after)

cut_next :
    (b : Bool) (byte : ℕ) (rest before after class path : List ℕ)
    → (b ≡ true → byte ≡ b'/')
    → Around rest before after
    → cut_at b byte rest before after ≡ (class, path)
    → Around (byte ∷ rest) class path
cut_next true byte rest before after class path slash h e =
    inr (λ i. ap (λ t. t.0) e i ++ slash refl i ∷ ap (λ t. t.1) e i)
cut_next false byte rest before after class path slash (inl empty) e =
    inl (sym (ap (λ t. t.1) e) ∙ empty)
cut_next false byte rest before after class path slash (inr same) e =
    inr (ap (λ t. byte ∷ t) same ∙ λ i. ap (λ t. t.0) e i ++ b'/' ∷ ap (λ t. t.1) e i)

pub at_slash_cut :
    (rest class path : List ℕ) → at_slash rest ≡ (class, path) → Around rest class path
unfolding at_slash
at_slash_cut [] class path e = inl (sym (ap (λ t. t.1) e))
at_slash_cut (byte ∷ rest) class path e =
    let (before, after) = at_slash rest in
    cut_next (byte == b'/') byte rest (at_slash rest).0 (at_slash rest).1 class path
      (λ slash. (==_iff byte b'/').0 slash) (at_slash_cut rest _ _ refl) e

-- What `split` reads stood behind the scheme and the trust domain.
pub split_lem :
    (name trust_domain class path : List ℕ)
    → split name trust_domain ≡ some (class, path)
    → (rest : List ℕ) × (name ≡ scheme ++ (trust_domain ++ (codes "/" ++ rest)))
      × (at_slash rest ≡ (class, path))
unfolding split
split_lem name trust_domain class path e =
    let (a, ea, e1) = >>=-eq-some (strip_prefix name scheme) _ e in
    let (b, eb, e2) = >>=-eq-some (strip_prefix a trust_domain) _ e1 in
    let (c, ec, e3) = >>=-eq-some (strip_prefix b (codes "/")) _ e2 in
    let parts : some (at_slash c) ≡ some (class, path) = e3 in
    (
      c,
      strip_prefix_lem name scheme a ea
          ∙ ap (λ t. scheme ++ t)
              (strip_prefix_lem a trust_domain b eb
                ∙ ap (λ t. trust_domain ++ t) (strip_prefix_lem b (codes "/") c ec)),
      cc,
    )

pub split-append :
    (trust_domain rest : List ℕ)
    → split (scheme ++ (trust_domain ++ (codes "/" ++ rest))) trust_domain ≡ some (at_slash rest)
unfolding split
split-append trust_domain rest =
    rw
      (
        strip_prefix-append scheme (trust_domain ++ (codes "/" ++ rest)),
        strip_prefix-append trust_domain (codes "/" ++ rest),
        strip_prefix-append (codes "/") rest,
      )
      refl
