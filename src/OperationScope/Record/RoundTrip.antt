-- ===== src/OperationScope/Record/RoundTrip.antt =====
-- modules/common/operation_scope.rs: a record written, signed and parsed.
use kagi.Base.{
  ℕ, ◌+◌, ◌^◌, ◌≤◌, ◌<◌, ◌≡◌, ap, ◌∙◌, false, Option, some, List, [], ◌++◌, arith, ltb, length,
  length-append,
}
use mathlib.Core.List.{append_assoc}
use kagi.Base.Bytes.{le_bytes}
use kagi.Base.Maybe
use kagi.Base.Outcome.{ok}
use kagi.Base.Buffer.{put, put_parts_lem, joined, put-put, put-fits, after}
use kagi.OperationScope.{Scope}
use kagi.OperationScope.Cursor.{put_field, put_field_lem}
use kagi.OperationScope.Record.{
  Signer, scope_parts, names_refused, signature_refused, write_unsigned, append_signature, parse,
}
use kagi.OperationScope.Record.Layout.{IsTypedScope}
use kagi.OperationScope.Record.Parsed.{unsigned_of, signature_field, AreShort, parse_lem}

write_lem :
    (s : Scope) (signer : Signer) (suite out_len : ℕ)
    → names_refused signer ≡ false
    → length signer.issuer < 256 ^ 1
    → length signer.kid < 256 ^ 1
    → length (unsigned_of s signer suite) ≤ out_len
    → write_unsigned out_len s signer suite ≡ some (unsigned_of s signer suite)
unfolding write_unsigned
write_lem s signer suite out_len named short_issuer short_kid room = rw named (
    ap
      (λ (o : Option (List ℕ)). Maybe.◌>>=◌ o λ t.
        Maybe.◌>>=◌ (put_field 1 out_len t signer.issuer)
          λ u. Maybe.◌>>=◌ (put_field 1 out_len u signer.kid) λ v. put out_len v (le_bytes 2 suite))
      (put_parts_lem out_len [] (scope_parts s) (omega arith))
    ∙ after out_len [] (joined (scope_parts s)) _
        (λ t. put out_len t (issuer ++ (kid ++ le_bytes 2 suite))) (λ t _. names t)
    ∙ put-put out_len [] (joined (scope_parts s)) (issuer ++ (kid ++ le_bytes 2 suite))
    ∙ ap (put out_len []) flat
    ∙ put-fits out_len (unsigned_of s signer suite) room)
  where
    issuer : List ℕ
    issuer = le_bytes 1 (length signer.issuer) ++ signer.issuer

    kid : List ℕ
    kid = le_bytes 1 (length signer.kid) ++ signer.kid

    keyed :
        (u : List ℕ)
        → Maybe.◌>>=◌ (put_field 1 out_len u signer.kid) (λ v. put out_len v (le_bytes 2 suite))
          ≡ put out_len u (kid ++ le_bytes 2 suite)
    keyed u =
        ap (λ (o : Option (List ℕ)). Maybe.◌>>=◌ o λ v. put out_len v (le_bytes 2 suite))
          (put_field_lem 1 out_len u signer.kid short_kid)
        ∙ put-put out_len u kid (le_bytes 2 suite)

    names :
        (t : List ℕ)
        → Maybe.◌>>=◌ (put_field 1 out_len t signer.issuer) (λ u.
          Maybe.◌>>=◌ (put_field 1 out_len u signer.kid) λ v. put out_len v (le_bytes 2 suite))
          ≡ put out_len t (issuer ++ (kid ++ le_bytes 2 suite))
    names t =
        ap
          (λ (o : Option (List ℕ)). Maybe.◌>>=◌ o λ u.
            Maybe.◌>>=◌ (put_field 1 out_len u signer.kid) λ v. put out_len v (le_bytes 2 suite))
          (put_field_lem 1 out_len t signer.issuer short_issuer)
        ∙ after out_len t issuer _ (λ u. put out_len u (kid ++ le_bytes 2 suite)) (λ u _. keyed u)
        ∙ put-put out_len t issuer (kid ++ le_bytes 2 suite)

    flat :
        joined (scope_parts s) ++ (issuer ++ (kid ++ le_bytes 2 suite)) ≡ unsigned_of s signer suite
    flat =
        ap (λ t. joined (scope_parts s) ++ t)
          (append_assoc (le_bytes 1 (length signer.issuer)) signer.issuer (kid ++ le_bytes 2 suite)
            ∙ ap (λ t. le_bytes 1 (length signer.issuer) ++ (signer.issuer ++ t))
                (append_assoc (le_bytes 1 (length signer.kid)) signer.kid (le_bytes 2 suite)))

sign_lem :
    (unsigned signature : List ℕ) (out_len : ℕ)
    → signature_refused signature ≡ false
    → length signature < 256 ^ 2
    → length unsigned + length signature + 2 ≤ out_len
    → append_signature out_len unsigned signature ≡ some (unsigned ++ signature_field signature)
unfolding append_signature
sign_lem unsigned signature out_len signed short room =
    rw (signed, inside)
      (put_field_lem 2 out_len unsigned signature short
        ∙ fitting (signature_field signature)
            (omega (arith, length-append (le_bytes 2 (length signature)) signature)))
  where
    inside : ltb out_len (length unsigned) ≡ false
    inside = ground arith

    fitting :
        (part : List ℕ)
        → length unsigned + length part ≤ out_len
        → put out_len unsigned part ≡ some (unsigned ++ part)
    fitting part h = unfold put in ground arith

-- Let the fields have the widths of their types, and the issuer, the key's name and the signature 1 to
-- 64 octets. Into a buffer with room, the scope is written with its signer and the signature appended,
-- and parsing the octets gives the scope, the signer, the suite and the signature back, with everything before the
-- signature as what is signed.
pub parse-write_record :
    (s : Scope) (signer : Signer) (suite out_len : ℕ) (signature : List ℕ)
    → IsTypedScope s
    → suite < 256 ^ 2
    → AreShort signer signature
    → length (unsigned_of s signer suite) + length signature + 2 ≤ out_len
    → (write_unsigned out_len s signer suite ≡ some (unsigned_of s signer suite))
      × (append_signature out_len (unsigned_of s signer suite) signature
          ≡ some (unsigned_of s signer suite ++ signature_field signature))
      × (parse (unsigned_of s signer suite ++ signature_field signature)
          ≡ ok (record {
            scope = s;
            signer = signer;
            signature_suite = suite;
            signature = signature;
            signed = unsigned_of s signer suite;
          }))
parse-write_record s signer suite out_len signature typed small short room =
    let (i1, i2, k1, k2, s1, s2) = short in
    (
      write_lem s signer suite out_len (ground arith) (omega arith) (omega arith) (omega arith),
      sign_lem (unsigned_of s signer suite) signature out_len (ground arith) (omega arith) room,
      parse_lem s signer suite signature typed small short,
    )
