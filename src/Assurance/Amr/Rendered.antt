-- ===== src/Assurance/Amr/Rendered.antt =====
-- modules/common/assurance.rs: what `write_amr` writes, and when it fits.
use kagi.Base.{
  ℕ, ◌+◌, ◌≤◌, ◌≡◌, inl, inr, refl, sym, ap, ◌∙◌, Bool, true, false, Option, none, some, List, [],
  ◌∷◌, ◌++◌, arith, leb, if◌then◌else◌, length, length-append, Bool-cases,
}
use mathlib.Core.List.{append_assoc, append-nil}
use kagi.Base.Text.{codes}
use kagi.Base.Maybe.{◌>>=◌}
use kagi.Base.Buffer.{put, put-put, put-put-put, put-nil, put_lem, after}
use kagi.Assurance.{
  AuthMethod, Evidence, method_text, methods_of, filter_recorded, is_recorded, distinct_factors,
}
use kagi.Assurance.Amr.{put_item, put_items, write_amr, amr_room, max_amr_json}

-- A name between quotes, after a comma unless it is the first.
abbrev pub item : Bool → AuthMethod → List ℕ
item first method =
    (if first then [] else codes ",") ++ (codes "\"" ++ (method_text method ++ codes "\""))

abbrev pub items : Bool → List AuthMethod → List ℕ
items first [] = []
items first (method ∷ methods) = item first method ++ items false methods

abbrev pub derived : Evidence → List AuthMethod
derived e = if leb 2 (distinct_factors e) then AuthMethod.mfa ∷ [] else []

-- The array: the methods recorded, in their order, and `mfa` after them if two categories are covered.
abbrev pub rendered : Evidence → List ℕ
rendered e = codes "[" ++ (items true (methods_of e ++ derived e) ++ codes "]")

put_item_lem :
    (n : ℕ) (w : List ℕ) (first : Bool) (m : AuthMethod)
    → put_item n w first m ≡ put n w (item first m)
unfolding put_item
put_item_lem n w true m = put-put-put n w (codes "\"") (method_text m) (codes "\"")
put_item_lem n w false m =
    after n w (codes ",") _ (λ t. put n t (item true m))
      (λ t _. put-put-put n t (codes "\"") (method_text m) (codes "\""))
    ∙ put-put n w (codes ",") (item true m)

abbrev still : Bool → List AuthMethod → Bool
still first [] = first
still first (m ∷ ms) = false

abbrev flagged : Bool → List ℕ → Option (List ℕ × Bool)
flagged first t = some (t, first)

bind_assoc {ℓ κ} :
    {A : Type ℓ} {B : Type κ} (o : Option (List ℕ)) (f : List ℕ → Option A) (g : A → Option B)
    → (o >>= f >>= g) ≡ (o >>= λ t. f t >>= g)
bind_assoc none f g = refl
bind_assoc (some t) f g = refl

put_items_lem :
    (n : ℕ) (w : List ℕ) (first : Bool) (ms : List AuthMethod)
    → length w ≤ n
    → put_items n w first ms ≡ (put n w (items first ms) >>= flagged (still first ms))
unfolding put_items
put_items_lem n w first [] h = rw (put-nil n w h) refl
put_items_lem n w first (m ∷ ms) h =
    ap (λ o. o >>= λ t. put_items n t false ms) (put_item_lem n w first m)
    ∙ after n w (item first m) _ (λ t. put n t (items false ms) >>= flagged false)
        (λ t fits. put_items_lem n t false ms fits ∙ rest n t ms)
    ∙ sym (bind_assoc (put n w (item first m)) (λ t. put n t (items false ms)) (flagged false))
    ∙ ap (λ o. o >>= flagged false) (put-put n w (item first m) (items false ms))
  where
    rest :
        (n : ℕ) (t : List ℕ) (ms : List AuthMethod)
        → (put n t (items false ms) >>= flagged (still false ms))
          ≡ (put n t (items false ms) >>= flagged false)
    rest n t [] = refl
    rest n t (m ∷ ms) = refl

items-append :
    (first : Bool) (ms : List AuthMethod) (m : AuthMethod)
    → items first (ms ++ m ∷ []) ≡ items first ms ++ item (still first ms) m
items-append first [] m = append-nil (item first m)
items-append first (x ∷ ms) m =
    ap (λ t. item first x ++ t)
      (items-append false ms m ∙ ap (λ b. items false ms ++ item b m) (plain ms))
    ∙ sym (append_assoc (item first x) (items false ms) (item false m))
  where
    plain : (ms : List AuthMethod) → still false ms ≡ false
    plain [] = refl
    plain (x ∷ ms) = refl

-- What follows the methods recorded.
abbrev tail : Bool → Bool → List ℕ
tail two first = (if two then item first AuthMethod.mfa else []) ++ codes "]"

closing : ℕ → Bool → (List ℕ × Bool) → Option (List ℕ)
closing n two (t, first) =
    (if two then put_item n t first AuthMethod.mfa else some t) >>= λ all. put n all (codes "]")

closing_lem :
    (n : ℕ) (two : Bool) (t : List ℕ) (first : Bool)
    → closing n two (t, first) ≡ put n t (tail two first)
unfolding closing
closing_lem n true t first =
    ap (λ o. o >>= λ all. put n all (codes "]")) (put_item_lem n t first AuthMethod.mfa)
    ∙ put-put n t (item first AuthMethod.mfa) (codes "]")
closing_lem n false t first = refl

after_items :
    (n : ℕ) (o : List ℕ) (two : Bool) (ms : List AuthMethod)
    → length o ≤ n
    → (put_items n o true ms >>= closing n two)
      ≡ put n o (items true ms ++ tail two (still true ms))
after_items n o two ms h =
    ap (λ r. r >>= closing n two) (put_items_lem n o true ms h)
    ∙ bind_assoc (put n o (items true ms)) (flagged (still true ms)) (closing n two)
    ∙ after n o (items true ms) _ (λ t. put n t (tail two (still true ms)))
        (λ t _. closing_lem n two t (still true ms))
    ∙ put-put n o (items true ms) (tail two (still true ms))

rendered_tail :
    (ms : List AuthMethod) (two : Bool)
    → items true ms ++ tail two (still true ms)
      ≡ items true (ms ++ (if two then AuthMethod.mfa ∷ [] else [])) ++ codes "]"
rendered_tail ms true =
    sym (append_assoc (items true ms) (item (still true ms) AuthMethod.mfa) (codes "]"))
    ∙ ap (λ t. t ++ codes "]") (sym (items-append true ms AuthMethod.mfa))
rendered_tail ms false = ap (λ t. items true t ++ codes "]") (sym (append-nil ms))

-- `write_amr` writes the array of the methods recorded, with `mfa` last if they cover two categories,
-- whenever it fits the buffer, and nothing otherwise.
pub write_amr_lem :
    (e : Evidence) (out_len : ℕ)
    → write_amr e out_len ≡ (if leb (length (rendered e)) out_len then some (rendered e) else none)
unfolding write_amr closing
write_amr_lem e out_len =
    let two = leb 2 (distinct_factors e) in
    after out_len [] (codes "[") _
      (λ o. put out_len o (items true (methods_of e) ++ tail two (still true (methods_of e))))
      (λ o fits. after_items out_len o two (methods_of e) fits)
    ∙ put-put out_len [] (codes "[")
        (items true (methods_of e) ++ tail two (still true (methods_of e)))
    ∙ ap (λ t. put out_len [] (codes "[" ++ t)) (rendered_tail (methods_of e) two)
    ∙ put_lem out_len (rendered e)

length-items : (first : Bool) (ms : List AuthMethod) → length (items first ms) ≤ amr_room ms
unfolding amr_room
length-items first [] = omega arith
length-items true (m ∷ ms) = omega (
  arith,
  length-append (item true m) (items false ms),
  length-append (method_text m) (codes "\""),
  length-items false ms,
)
length-items false (m ∷ ms) = omega (
  arith,
  length-append (item false m) (items false ms),
  length-append (method_text m) (codes "\""),
  length-items false ms,
)

amr_room-append : (xs ys : List AuthMethod) → amr_room (xs ++ ys) ≡ amr_room xs + amr_room ys
unfolding amr_room
amr_room-append [] ys = omega arith
amr_room-append (x ∷ xs) ys = omega (arith, amr_room-append xs ys)

room-filter : (e : Evidence) (ms : List AuthMethod) → amr_room (filter_recorded e ms) ≤ amr_room ms
unfolding filter_recorded amr_room
room-filter e [] = omega arith
room-filter e (m ∷ ms) = ground (arith, room-filter e ms)

filter-without :
    (e : Evidence) (ms : List AuthMethod)
    → is_recorded e AuthMethod.mfa ≡ false
    → filter_recorded e (ms ++ AuthMethod.mfa ∷ []) ≡ filter_recorded e ms
unfolding filter_recorded
filter-without e [] h = rw h refl
filter-without e (m ∷ ms) h = ap (λ t. if is_recorded e m then m ∷ t else t) (filter-without e ms h)

abbrev asserted : List AuthMethod
asserted =
    AuthMethod.email ∷ AuthMethod.bootstrap ∷ AuthMethod.pop ∷ AuthMethod.swk ∷ AuthMethod.hwk
    ∷ AuthMethod.otp ∷ AuthMethod.user ∷ AuthMethod.webauthn ∷ AuthMethod.recovery ∷ []

room-derived : (e : Evidence) → amr_room (derived e) ≤ 6
unfolding amr_room
room-derived e = elim (Bool-cases (leb 2 (distinct_factors e))) [
  | inl two ↦ rw two (omega arith)
  | inr one ↦ rw one (omega arith)
]

length-rendered :
    (e : Evidence) → is_recorded e AuthMethod.mfa ≡ false → length (rendered e) ≤ max_amr_json
unfolding methods_of max_amr_json amr_room
length-rendered e h = omega (
  arith,
  length-append (items true (methods_of e ++ derived e)) (codes "]"),
  length-items true (methods_of e ++ derived e),
  amr_room-append (methods_of e) (derived e),
  ap amr_room (filter-without e asserted h),
  room-filter e asserted,
  room-derived e,
)

-- A buffer of `MAX_AMR_JSON` octets takes the claim of any evidence in which `mfa` is not itself recorded.
pub write_amr-fits :
    (e : Evidence)
    → is_recorded e AuthMethod.mfa ≡ false
    → write_amr e max_amr_json ≡ some (rendered e)
write_amr-fits e h = ground (arith, write_amr_lem e max_amr_json, length-rendered e h)
