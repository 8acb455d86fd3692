-- ===== src/Assurance.antt =====
-- modules/common/assurance.rs: authentication methods, the evidence that they make, and its level.
-- A text is the list of its octets. `write_amr` answers what it writes into a buffer of `out_len` octets.
pub mod Recorded
pub mod Wire
pub mod Amr
pub mod Policy
mod Examples
use kagi.Base.{
  ℕ, zero, suc, ◌+◌, ◌^◌, Bool, true, false, not, ◌&&◌, ◌||◌, Option, none, some, List, [], ◌∷◌,
  ◌++◌, bit_and, bit_or, ltb, leb, ◌==◌, if◌then◌else◌, length, bytes_eq,
}
use kagi.Base.Text.{codes}
use kagi.Base.Maybe.{◌>>=◌}

pub data AuthMethod : Type 0 where
  email bootstrap pop swk hwk otp user webauthn recovery mfa : AuthMethod

-- The discriminant, which is the place in `ALL`.
abbrev pub ordinal : AuthMethod → ℕ
ordinal AuthMethod.email = 0
ordinal AuthMethod.bootstrap = 1
ordinal AuthMethod.pop = 2
ordinal AuthMethod.swk = 3
ordinal AuthMethod.hwk = 4
ordinal AuthMethod.otp = 5
ordinal AuthMethod.user = 6
ordinal AuthMethod.webauthn = 7
ordinal AuthMethod.recovery = 8
ordinal AuthMethod.mfa = 9

abbrev pub all_methods : List AuthMethod
all_methods =
    AuthMethod.email ∷ AuthMethod.bootstrap ∷ AuthMethod.pop ∷ AuthMethod.swk ∷ AuthMethod.hwk
    ∷ AuthMethod.otp ∷ AuthMethod.user ∷ AuthMethod.webauthn ∷ AuthMethod.recovery ∷ AuthMethod.mfa
    ∷ []

abbrev pub method_bit : AuthMethod → ℕ
method_bit method = 2 ^ ordinal method

abbrev pub method_text : AuthMethod → List ℕ
method_text AuthMethod.email = codes "email"
method_text AuthMethod.bootstrap = codes "bootstrap"
method_text AuthMethod.pop = codes "pop"
method_text AuthMethod.swk = codes "swk"
method_text AuthMethod.hwk = codes "hwk"
method_text AuthMethod.otp = codes "otp"
method_text AuthMethod.user = codes "user"
method_text AuthMethod.webauthn = codes "webauthn"
method_text AuthMethod.recovery = codes "recovery"
method_text AuthMethod.mfa = codes "mfa"

-- The first of `methods` that has this name.
pub named : List ℕ → List AuthMethod → Option AuthMethod
named text [] = none
named text (method ∷ methods) =
    let later = named text methods in
    if bytes_eq text (method_text method) then some method else later

-- The chain of tests stands in the order of `ALL`.
pub parse_bytes : List ℕ → Option AuthMethod
unfolding named
parse_bytes text = named text all_methods

pub data Factor : Type 0 where
  possession knowledge : Factor

pub factor : AuthMethod → Option Factor
factor AuthMethod.email = some Factor.possession
factor AuthMethod.pop = some Factor.possession
factor AuthMethod.swk = some Factor.possession
factor AuthMethod.hwk = some Factor.possession
factor AuthMethod.webauthn = some Factor.possession
factor AuthMethod.otp = some Factor.knowledge
factor AuthMethod.recovery = some Factor.knowledge
factor AuthMethod.user = none
factor AuthMethod.bootstrap = none
factor AuthMethod.mfa = none

pub data KeyBinding : Type 0 where
  unbound software hardware : KeyBinding

pub data AssuranceLevel : Type 0 where
  aal1 aal2 aal3 : AssuranceLevel

-- The derived order.
abbrev pub rank : AssuranceLevel → ℕ
rank AssuranceLevel.aal1 = 1
rank AssuranceLevel.aal2 = 2
rank AssuranceLevel.aal3 = 3

pub level_of : List ℕ → Option AssuranceLevel
level_of text =
    if bytes_eq text (codes "aal1")
    then some AssuranceLevel.aal1
    else if bytes_eq text (codes "aal2")
    then some AssuranceLevel.aal2
    else if bytes_eq text (codes "aal3")
    then some AssuranceLevel.aal3
    else none

pub record Evidence : Type 0 where
  pub methods : ℕ
  pub key_binding : KeyBinding
  pub user_verified : Bool
  pub phishing_resistant : Bool
  pub auth_time : ℕ

abbrev pub evidence_at : ℕ → Evidence
evidence_at auth_time = record {
  methods = 0;
  key_binding = KeyBinding.unbound;
  user_verified = false;
  phishing_resistant = false;
  auth_time = auth_time;
}

pub with_method : Evidence → AuthMethod → Evidence
with_method e AuthMethod.mfa = e
with_method e method = record e { methods = bit_or e.methods (method_bit method) }

abbrev pub with_user_verified : Bool → Evidence → Evidence
with_user_verified verified e = record e {
  methods = if verified then bit_or e.methods (method_bit AuthMethod.user) else e.methods;
  user_verified = verified;
}

abbrev pub implied_by : AuthMethod → Evidence → Evidence
implied_by AuthMethod.hwk e = record e { key_binding = KeyBinding.hardware }
implied_by AuthMethod.swk e = record e { key_binding = KeyBinding.software }
implied_by AuthMethod.user e = with_user_verified true e
implied_by AuthMethod.webauthn e = record e { phishing_resistant = true }
implied_by _ e = e

pub with_parsed : Evidence → Option AuthMethod → Evidence
unfolding with_method
with_parsed e none = e
with_parsed e (some method) = implied_by method (with_method e method)

pub with_amr_name : Evidence → List ℕ → Evidence
unfolding parse_bytes with_parsed
with_amr_name e name = with_parsed e (parse_bytes name)

abbrev pub is_recorded : Evidence → AuthMethod → Bool
is_recorded e method = not (bit_and e.methods (method_bit method) == 0)

pub filter_recorded : Evidence → List AuthMethod → List AuthMethod
filter_recorded e [] = []
filter_recorded e (method ∷ rest) =
    let later = filter_recorded e rest in if is_recorded e method then method ∷ later else later

pub methods_of : Evidence → List AuthMethod
unfolding filter_recorded
methods_of e = filter_recorded e all_methods

abbrev pub as_number : Bool → ℕ
as_number b = if b then 1 else 0

-- The loop that sets one flag for each category it meets.
pub factors_loop : Bool → Bool → List AuthMethod → ℕ
unfolding factor
factors_loop has_possession has_knowledge [] = as_number has_possession + as_number has_knowledge
factors_loop has_possession has_knowledge (method ∷ methods) = elim (factor method) [
  | none ↦ factors_loop has_possession has_knowledge methods
  | some Factor.possession ↦ factors_loop true has_knowledge methods
  | some Factor.knowledge ↦ factors_loop has_possession true methods
]

pub distinct_factors : Evidence → ℕ
unfolding methods_of factors_loop
distinct_factors e = factors_loop false false (methods_of e)

abbrev pub is_hardware : KeyBinding → Bool
is_hardware KeyBinding.hardware = true
is_hardware _ = false

pub level : Evidence → AssuranceLevel
unfolding distinct_factors
level e =
    if is_recorded e AuthMethod.recovery
    then AssuranceLevel.aal1
    else if is_hardware e.key_binding && e.phishing_resistant && e.user_verified
    then AssuranceLevel.aal3
    else if is_hardware e.key_binding && e.user_verified || leb 2 (distinct_factors e)
    then AssuranceLevel.aal2
    else AssuranceLevel.aal1

pub supports : Evidence → AssuranceLevel → Bool
unfolding level
supports e claimed = leb (rank claimed) (rank (level e))
