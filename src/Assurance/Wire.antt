-- ===== src/Assurance/Wire.antt =====
-- modules/common/assurance.rs: the wire form of evidence, written and read back.
use kagi.Base.{ℕ, ◌≡◌, refl, Bool, true, false, not, bit_or, bit_and, ◌==◌, if◌then◌else◌, arith}
use kagi.Assurance.{Evidence, KeyBinding}

pub record EvidenceWire : Type 0 where
  pub methods : ℕ
  pub key_binding : ℕ
  pub flags : ℕ
  pub auth_time : ℕ

abbrev pub user_verified_flag : ℕ
user_verified_flag = 1

abbrev pub phishing_resistant_flag : ℕ
phishing_resistant_flag = 2

abbrev pub binding_code : KeyBinding → ℕ
binding_code KeyBinding.unbound = 0
binding_code KeyBinding.software = 1
binding_code KeyBinding.hardware = 2

pub encode : Evidence → EvidenceWire
encode e = record {
  methods = e.methods;
  key_binding = binding_code e.key_binding;
  flags =
      bit_or (if e.user_verified then user_verified_flag else 0)
        (if e.phishing_resistant then phishing_resistant_flag else 0);
  auth_time = e.auth_time;
}

abbrev pub binding_of : ℕ → KeyBinding
binding_of code =
    if code == 1
    then KeyBinding.software
    else if code == 2
    then KeyBinding.hardware
    else KeyBinding.unbound

pub decode : EvidenceWire → Evidence
decode wire = record {
  methods = wire.methods;
  key_binding = binding_of wire.key_binding;
  user_verified = not (bit_and wire.flags user_verified_flag == 0);
  phishing_resistant = not (bit_and wire.flags phishing_resistant_flag == 0);
  auth_time = wire.auth_time;
}

binding_back : (k : KeyBinding) → binding_of (binding_code k) ≡ k
binding_back KeyBinding.unbound = refl
binding_back KeyBinding.software = refl
binding_back KeyBinding.hardware = refl

abbrev flags_of : Bool → Bool → ℕ
flags_of v p = bit_or (if v then 1 else 0) (if p then 2 else 0)

first_back : (v p : Bool) → not (bit_and (flags_of v p) 1 == 0) ≡ v
first_back true true = refl
first_back true false = refl
first_back false true = refl
first_back false false = refl

second_back : (v p : Bool) → not (bit_and (flags_of v p) 2 == 0) ≡ p
second_back true true = refl
second_back true false = refl
second_back false true = refl
second_back false false = refl

-- Evidence comes back whole from its wire form.
pub decode-encode_evidence : (e : Evidence) → decode (encode e) ≡ e
unfolding encode decode
decode-encode_evidence e = λ i. record {
  methods = e.methods;
  key_binding = binding_back e.key_binding i;
  user_verified = first_back e.user_verified e.phishing_resistant i;
  phishing_resistant = second_back e.user_verified e.phishing_resistant i;
  auth_time = e.auth_time;
}

-- An octet that names no binding is read as none at all, and never as a key in hardware.
binding_of-hardware : (code : ℕ) → binding_of code ≡ KeyBinding.hardware → code ≡ 2
binding_of-hardware code h = ground arith
