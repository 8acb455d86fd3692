-- ===== src/Spiffe/Written.antt =====
-- modules/common/spiffe.rs: the names of hosts and operators, parsed and written.
use kagi.Base.{ℕ, ◌≤◌, ◌≡◌, refl, ◌↔◌, true, some, List, [], ◌∷◌, length}
use kagi.Base.Bytes.{AreBytes}
use kagi.Base.Buffer.{put_parts_iff}
use kagi.Pkce.{Sha256}
use kagi.Spiffe.{
  Class, class_word, scheme, slashed, hex_into, join, write_host, write_operator, parse,
  carries_fixed_id,
}
use kagi.Spiffe.Names.{Named, written_iff}

-- The writer that is given the name's class and its digits writes it exactly if it is the name.
fixed_written :
    (c : Class) (sha256 : Sha256) (n : ℕ) (trust_domain name id : List ℕ)
    → carries_fixed_id c ≡ true
    → length name ≤ n
    → (parse sha256 name trust_domain ≡ some (record { class = c; id = id })) ↔ (
        (length id ≡ 16)
        × AreBytes id
        × (join n trust_domain (class_word c ∷ hex_into id ∷ []) ≡ some name))
unfolding join Named
fixed_written c sha256 n trust_domain name id fixed fits =
    let (to, from) = written_iff sha256 trust_domain name c id fixed in
    let (read, written) =
      put_parts_iff n (scheme ∷ trust_domain ∷ slashed (class_word c ∷ hex_into id ∷ [])) name
        fits in
    (
      λ e. let (sized, bytes, whole) = to e in (sized, bytes, written whole),
      λ (sized, bytes, e). from (sized, bytes, read e),
    )

-- For a name no longer than the buffer, a host is read from it exactly if the identity is 16
-- octets and `write_host` writes the name for it; for an operator likewise.
pub parse-write :
    (sha256 : Sha256) (n : ℕ) (trust_domain name id : List ℕ)
    → length name ≤ n
    → ((parse sha256 name trust_domain ≡ some (record { class = Class.host; id = id }))
        ↔ ((length id ≡ 16) × AreBytes id × (write_host n trust_domain id ≡ some name)))
      × ((parse sha256 name trust_domain ≡ some (record { class = Class.operator; id = id }))
          ↔ ((length id ≡ 16) × AreBytes id × (write_operator n trust_domain id ≡ some name)))
unfolding write_host write_operator carries_fixed_id class_word
parse-write sha256 n trust_domain name id fits = (
  fixed_written Class.host sha256 n trust_domain name id refl fits,
  fixed_written Class.operator sha256 n trust_domain name id refl fits,
)
