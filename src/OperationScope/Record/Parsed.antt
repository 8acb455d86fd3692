-- ===== src/OperationScope/Record/Parsed.antt =====
-- modules/common/operation_scope.rs: what `parse` makes of a record's octets.
use kagi.Base.{
  ℕ, ◌-◌, ◌^◌, ◌≤◌, ◌<◌, ◌≡◌, sym, ap, ◌∙◌, false, List, [], ◌∷◌, ◌++◌, arith, length, take,
  length-append, take-append_length,
}
use mathlib.Core.List.{append_assoc, append-nil}
use kagi.Base.Bytes.{le_bytes}
use kagi.Base.Outcome.{ok}
use kagi.Base.Buffer.{joined, joined_onto, joined_onto_lem}
use kagi.OperationScope.{Scope}
use kagi.OperationScope.Cursor.{read_take-append, read_uint-append, read_field-append}
use kagi.OperationScope.Record.{
  Signer, scope_parts, names_refused, signature_refused, parse, position,
}
use kagi.OperationScope.Record.Layout.{IsTypedScope, read_scope-joined}

-- The parts after the fixed one that the signature covers.
abbrev pub signer_parts : Signer → ℕ → List (List ℕ)
signer_parts signer suite =
    le_bytes 1 (length signer.issuer)
    ∷ signer.issuer
    ∷ le_bytes 1 (length signer.kid)
    ∷ signer.kid
    ∷ le_bytes 2 suite
    ∷ []

abbrev pub unsigned_of : Scope → Signer → ℕ → List ℕ
unsigned_of s signer suite = joined (scope_parts s) ++ joined (signer_parts signer suite)

abbrev pub signature_field : List ℕ → List ℕ
signature_field signature = le_bytes 2 (length signature) ++ signature

-- The signer's names and the signature are of lengths that a record may have.
abbrev pub AreShort : Signer → List ℕ → Type 0
AreShort signer signature =
    (1 ≤ length signer.issuer)
    × (length signer.issuer ≤ 64)
    × (1 ≤ length signer.kid)
    × (length signer.kid ≤ 64)
    × (1 ≤ length signature)
    × (length signature ≤ 64)

length-fixed : (s : Scope) → IsTypedScope s → length (joined (scope_parts s)) ≡ 144
length-fixed s (k, l, c, o, g, e, y, v, i, x, a, t, w, j, p) = omega (
  arith,
  length-append s.actor (s.tenant ++ (s.service ++ (s.object ++ (s.policy ++ [])))),
  length-append s.tenant (s.service ++ (s.object ++ (s.policy ++ []))),
  length-append s.service (s.object ++ (s.policy ++ [])),
  length-append s.object (s.policy ++ []),
  length-append s.policy [],
)

prefix_of :
    (front back whole : List ℕ) → front ++ back ≡ whole → take (position whole back) whole ≡ front
prefix_of front back whole e = rw (← e) (
    take-append_length (length (front ++ back) - length back) front back
      (omega (arith, length-append front back)))

pub parse_lem :
    (s : Scope) (signer : Signer) (suite : ℕ) (signature : List ℕ)
    → IsTypedScope s
    → suite < 256 ^ 2
    → AreShort signer signature
    → parse (unsigned_of s signer suite ++ signature_field signature)
      ≡ ok (record {
        scope = s;
        signer = signer;
        signature_suite = suite;
        signature = signature;
        signed = unsigned_of s signer suite;
      })
unfolding parse
parse_lem s signer suite signature typed small (i1, i2, k1, k2, s1, s2) =
    let r5 = le_bytes 2 (length signature) ++ (signature ++ []) in
    let r4 = le_bytes 2 suite ++ r5 in
    let r3 = le_bytes 1 (length signer.kid) ++ (signer.kid ++ r4) in
    let r2 = le_bytes 1 (length signer.issuer) ++ (signer.issuer ++ r3) in
    let named : names_refused signer ≡ false = ground arith in
    let signed : signature_refused signature ≡ false = ground arith in
    ap parse spelt
    ∙ rw
        (
          parse,
          read_scope-joined s r2 typed,
          read_take-append 144 (joined (scope_parts s)) r2 (length-fixed s typed),
          read_field-append 1 signer.issuer r3 (omega arith),
          read_field-append 1 signer.kid r4 (omega arith),
          named,
          read_uint-append 2 suite r5 small,
          read_field-append 2 signature [] (omega arith),
          signed,
        )
        (ap
          (λ t. ok (record {
            scope = s;
            signer = signer;
            signature_suite = suite;
            signature = signature;
            signed = t;
          }))
          covered)
  where
    spelt :
        unsigned_of s signer suite ++ signature_field signature
        ≡ joined (scope_parts s)
          ++ joined_onto
              (signer_parts signer suite)
              (le_bytes 2 (length signature) ++ (signature ++ []))
    spelt =
        append_assoc (joined (scope_parts s)) (joined (signer_parts signer suite))
          (signature_field signature)
        ∙ ap (λ t. joined (scope_parts s) ++ t)
            (joined_onto_lem (signer_parts signer suite) (signature_field signature)
              ∙ ap
                  (λ t.
                    joined_onto (signer_parts signer suite) (le_bytes 2 (length signature) ++ t))
                  (sym (append-nil signature)))

    covered :
        take
          (position
            (joined (scope_parts s)
              ++ joined_onto
                  (signer_parts signer suite)
                  (le_bytes 2 (length signature) ++ (signature ++ [])))
            (le_bytes 2 (length signature) ++ (signature ++ [])))
          (joined (scope_parts s)
            ++ joined_onto
                (signer_parts signer suite)
                (le_bytes 2 (length signature) ++ (signature ++ [])))
        ≡ unsigned_of s signer suite
    covered =
        prefix_of (unsigned_of s signer suite) (le_bytes 2 (length signature) ++ (signature ++ []))
          _
          (append_assoc (joined (scope_parts s)) (joined (signer_parts signer suite)) _
            ∙ ap (λ t. joined (scope_parts s) ++ t) (joined_onto_lem (signer_parts signer suite) _))
