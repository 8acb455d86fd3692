-- ===== src/Spiffe/Names.antt =====
-- modules/common/spiffe.rs: the names of hosts and operators, read and written.
use kagi.Base.{
  ℕ, ◌≡◌, refl, sym, ap, ◌∙◌, ◌≢◌, ◌↔◌, ◌⊎◌, Bool, true, false, ◌||◌, Option, none, some, List, [],
  ◌∷◌, ◌++◌, arith, length, if◌then◌else◌, inl, inr, bytes_eq, bytes_eq→eq,
}
use mathlib.Core.List.{append-nil}
use kagi.Base.Text.{codes}
use kagi.Base.Bytes.{AreBytes}
use kagi.Base.Maybe.{◌>>=◌, >>=-eq-some}
use kagi.Base.Buffer.{joined}
use kagi.Pkce.{Sha256}
use kagi.Spiffe.{
  carries_fixed_id, class_word, Class, Identity, class_host, class_operator, class_device,
  class_namespace, class_service, scheme, slashed, hex_into, at_slash, split, fixed_id, identify,
  parse,
}
use kagi.Spiffe.Cut.{at_slash_cut, split_lem, split-append}
use kagi.Spiffe.Hex.{fixed_id_digits, fixed_id-hex_into, length-hex_into}

-- A name read as one with a fixed identity has the class word of a host or an operator.
Fixed : Bool → Bool → Option (List ℕ) → Identity → Type 0
Fixed h o found who =
    (found ≡ some (who.id))
    × (((h ≡ true) × (who.class ≡ Class.host)) ⊎ ((o ≡ true) × (who.class ≡ Class.operator)))

abbrev digested_of : Bool → Bool → Bool → Option Class
digested_of d n s =
    if d
    then some Class.device
    else if n
    then some Class.workload
    else if s
    then some Class.service
    else none

not_digested :
    (d n s : Bool) (id : List ℕ) (who : Identity)
    → carries_fixed_id (who.class) ≡ true
    → (digested_of d n s >>= λ digested. some (record { class = digested; id = id })) ≢ some who
unfolding carries_fixed_id
not_digested true n s id who fixed e =
    let c : Class.device ≡ who.class = cc in
    let f : false ≡ true = ap carries_fixed_id c ∙ fixed in cc
not_digested false true s id who fixed e =
    let c : Class.workload ≡ who.class = cc in
    let f : false ≡ true = ap carries_fixed_id c ∙ fixed in cc
not_digested false false true id who fixed e =
    let c : Class.service ≡ who.class = cc in
    let f : false ≡ true = ap carries_fixed_id c ∙ fixed in cc
not_digested false false false id who fixed e = cc

identified_by :
    (h o d n s : Bool) (found : Option (List ℕ)) (id : List ℕ) (who : Identity)
    → carries_fixed_id (who.class) ≡ true
    → (if h || o
        then (found >>= λ fixed.
            some (record { class = if h then Class.host else Class.operator; id = fixed }))
        else (digested_of d n s >>= λ digested. some (record { class = digested; id = id })))
      ≡ some who
    → Fixed h o found who
unfolding Fixed
identified_by true o d n s none id who fixed e = cc
identified_by true o d n s (some i) id who fixed e = (cc, inl (refl, cc))
identified_by false true d n s none id who fixed e = cc
identified_by false true d n s (some i) id who fixed e = (cc, inr (refl, cc))
identified_by false false d n s found id who fixed e = absurd (not_digested d n s id who fixed e)

-- The class and the digits of a name with a fixed identity.
fixed_of :
    (sha256 : Sha256) (name class path : List ℕ) (who : Identity)
    → carries_fixed_id (who.class) ≡ true
    → identify sha256 name class path ≡ some who
    → (class ≡ class_word (who.class)) × (fixed_id path ≡ some (who.id))
unfolding Fixed class_word
fixed_of sha256 name class path who fixed e =
    let (found, which) =
      identified_by (bytes_eq class class_host) (bytes_eq class class_operator)
        (bytes_eq class class_device) (bytes_eq class class_namespace)
        (bytes_eq class class_service) (fixed_id path) _ who fixed e in
    (
      elim which [
        | inl (h, c) ↦ rw c (bytes_eq→eq class class_host h)
        | inr (o, c) ↦ rw c (bytes_eq→eq class class_operator o)
      ],
      found,
    )

slash_after_word :
    (c : Class) (path : List ℕ)
    → carries_fixed_id c ≡ true
    → at_slash (class_word c ++ b'/' ∷ path) ≡ (class_word c, path)
unfolding carries_fixed_id class_word at_slash
slash_after_word Class.device path fixed = cc
slash_after_word Class.workload path fixed = cc
slash_after_word Class.service path fixed = cc
slash_after_word Class.host path fixed = refl
slash_after_word Class.operator path fixed = refl

identify_fixed :
    (sha256 : Sha256) (name path : List ℕ) (c : Class)
    → carries_fixed_id c ≡ true
    → identify sha256 name (class_word c) path
      ≡ (fixed_id path >>= λ fixed. some (record { class = c; id = fixed }))
unfolding carries_fixed_id class_word
identify_fixed sha256 name path Class.device fixed = cc
identify_fixed sha256 name path Class.workload fixed = cc
identify_fixed sha256 name path Class.service fixed = cc
identify_fixed sha256 name path Class.host fixed = refl
identify_fixed sha256 name path Class.operator fixed = refl

-- The name of an identity of class `c`.
unfoldable pub Named : List ℕ → Class → List ℕ → List ℕ → Type 0
Named trust_domain c id name =
    (length id ≡ 16)
    × AreBytes id
    × (name ≡ joined (scheme ∷ trust_domain ∷ slashed (class_word c ∷ hex_into id ∷ [])))

not_empty : (id path : List ℕ) → length id ≡ 16 → path ≡ hex_into id → path ≢ []
not_empty id path sized digits empty =
    absurd (omega (arith, length-hex_into id, sized, ap length digits, ap length empty))

pub written_of_parse :
    (sha256 : Sha256) (trust_domain name : List ℕ) (who : Identity)
    → carries_fixed_id (who.class) ≡ true
    → parse sha256 name trust_domain ≡ some who
    → Named trust_domain (who.class) (who.id) name
unfolding parse Named
written_of_parse sha256 trust_domain name who fixed e =
    let ((class, path), es, ei) = >>=-eq-some (split name trust_domain) _ e in
    let (word, found) = fixed_of sha256 name class path who fixed ei in
    let (sized, bytes, digits) = fixed_id_digits path (who.id) found in
    let (rest, whole, around) = split_lem name trust_domain class path es in
    elim (at_slash_cut rest class path around) [
      | inl empty ↦ absurd (not_empty (who.id) path sized digits empty)
      | inr same ↦ (
        sized,
        bytes,
        whole
            ∙ ap (λ t. scheme ++ (trust_domain ++ (codes "/" ++ t)))
                (same ∙ λ i. word i ++ b'/' ∷ (digits ∙ sym (append-nil (hex_into (who.id)))) i),
      )
    ]

pub parse_of_written :
    (sha256 : Sha256) (trust_domain name : List ℕ) (c : Class) (id : List ℕ)
    → carries_fixed_id c ≡ true
    → Named trust_domain c id name
    → parse sha256 name trust_domain ≡ some (record { class = c; id = id })
unfolding parse Named
parse_of_written sha256 trust_domain name c id fixed (sized, bytes, whole) =
    ap (λ m. m >>= λ (class, path). identify sha256 name class path) parts
    ∙ identify_fixed sha256 name (hex_into id) c fixed
    ∙ ap (λ m. m >>= λ i. some (record { class = c; id = i })) (fixed_id-hex_into id sized bytes)
  where
    parts : split name trust_domain ≡ some (class_word c, hex_into id)
    parts =
        rw (whole, append-nil (hex_into id))
          (split-append trust_domain (class_word c ++ b'/' ∷ hex_into id))
        ∙ ap some (slash_after_word c (hex_into id) fixed)

pub written_iff :
    (sha256 : Sha256) (trust_domain name : List ℕ) (c : Class) (id : List ℕ)
    → carries_fixed_id c ≡ true
    → (parse sha256 name trust_domain ≡ some (record { class = c; id = id }))
      ↔ Named trust_domain c id name
written_iff sha256 trust_domain name c id fixed = (
  written_of_parse sha256 trust_domain name (record { class = c; id = id }) fixed,
  parse_of_written sha256 trust_domain name c id fixed,
)
