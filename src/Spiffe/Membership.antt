-- ===== src/Spiffe/Membership.antt =====
-- modules/common/spiffe.rs: the structural check beside the parser.
use kagi.Base.{
  ℕ, ◌≡◌, refl, ◌↔◌, Bool, true, false, ◌||◌, Option, none, some, List, if◌then◌else◌, bytes_eq,
}
use kagi.Base.Maybe.{◌>>=◌}
use kagi.Pkce.{Sha256}
use kagi.Spiffe.{
  Class, Identity, class_device, class_namespace, class_service, class_host, class_operator,
  is_some, split, fixed_id, belongs_at, belongs_to, identify, parse,
}

is_read : Option Identity → Bool
is_read none = false
is_read (some who) = true

is_read_iff : (m : Option Identity) → (is_read m ≡ true) ↔ ((who : Identity) × (m ≡ some who))
unfolding is_read
is_read_iff none = (λ e. cc, λ (who, e). cc)
is_read_iff (some who) = (λ e. (who, refl), λ e. refl)

accepted_by :
    (h o d n s : Bool) (found : Option (List ℕ)) (digest : List ℕ)
    → (if h || o then is_some found else (d || n || s || h || o))
      ≡ is_read (
          if h || o
          then (found >>= λ fixed.
              some (record { class = if h then Class.host else Class.operator; id = fixed }))
          else ((if d
                then some Class.device
                else if n
                then some Class.workload
                else if s
                then some Class.service
                else none)
              >>= λ digested. some (record { class = digested; id = digest })))
unfolding is_read
accepted_by true o d n s none digest = refl
accepted_by true o d n s (some i) digest = refl
accepted_by false true d n s none digest = refl
accepted_by false true d n s (some i) digest = refl
accepted_by false false true n s found digest = refl
accepted_by false false false true s found digest = refl
accepted_by false false false false true found digest = refl
accepted_by false false false false false found digest = refl

belongs_lem :
    (sha256 : Sha256) (name : List ℕ) (parts : Option (List ℕ × List ℕ))
    → belongs_at parts ≡ is_read (parts >>= λ (class, path). identify sha256 name class path)
unfolding is_read
belongs_lem sha256 name none = refl
belongs_lem sha256 name (some (class, path)) =
    accepted_by (bytes_eq class class_host) (bytes_eq class class_operator)
      (bytes_eq class class_device) (bytes_eq class class_namespace) (bytes_eq class class_service)
      (fixed_id path) _

-- A name passes the structural check exactly if it is parsed to some identity, whatever the digest.
pub belongs_to-parse :
    (sha256 : Sha256) (name trust_domain : List ℕ)
    → (belongs_to name trust_domain ≡ true)
      ↔ ((who : Identity) × (parse sha256 name trust_domain ≡ some who))
unfolding belongs_to parse
belongs_to-parse sha256 name trust_domain =
    rw (belongs_lem sha256 name (split name trust_domain))
      (is_read_iff (parse sha256 name trust_domain))
