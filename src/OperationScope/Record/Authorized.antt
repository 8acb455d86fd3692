-- ===== src/OperationScope/Record/Authorized.antt =====
-- modules/common/operation_scope.rs: what has been checked of a record before a relying party acts.
use kagi.Base.{
  ℕ, ◌+◌, ◌^◌, ◌≤◌, ◌<◌, ◌≡◌, refl, ap, ◌∙◌, Bool, true, false, not, ◌||◌, Option, none, some, List,
  arith, ◌==◌,
}
use mathlib.Core.Path.{subst}
use kagi.Base.Bits.Digit.{bit, Within}
use kagi.Base.Outcome.{ok, refuse_if, ok_or, >>=-eq-ok, refuse_if-eq-ok}
use kagi.OperationScope.{Scope, Ask, Refusal, check, live_at, authorizes, ceiling}
use kagi.OperationScope.Privilege.{
  IsIssuable, Covers, check-IsIssuable, live_at_iff, authorizes-Covers,
}
use kagi.OperationScope.Record.{Record, Lookup, VerifyFn, verify_record, authorize_record}

-- The signer's key is known, under the suite that the record names, and verifies the signature.
abbrev pub IsSigned : Record → Lookup → VerifyFn → Type 0
IsSigned r lookup verify =
    (public : List ℕ) × (lookup r.signer.issuer r.signer.kid ≡ some (r.signature_suite, public))
    × (verify r.signature_suite public r.signed r.signature ≡ true)

verified :
    (r : Record) (lookup : Lookup) (verify : VerifyFn) (now_ms : ℕ)
    → verify_record r lookup verify now_ms ≡ ok tt
    → (check r.scope ≡ ok tt) × IsSigned r lookup verify × (live_at r.scope now_ms ≡ ok tt)
unfolding verify_record
verified r lookup verify now_ms h =
    let (u, checked, h1) = >>=-eq-ok (check r.scope) _ h in
    let ((suite, public), found, h2) =
      >>=-eq-ok (ok_or (lookup r.signer.issuer r.signer.kid) Refusal.unknown_key) _ h1 in
    let (v, signed, live) =
      >>=-eq-ok
        (refuse_if
          (not (r.signature_suite == suite) || not (verify suite public r.signed r.signature))
          Refusal.bad_signature)
        _ h2 in
    let (same, valid) = both _ _ (refuse_if-eq-ok _ Refusal.bad_signature signed) in
    let suites : suite ≡ r.signature_suite = ground arith in
    (
      checked,
      (
        public,
        known _ found ∙ ap (λ (k : ℕ). some (k, public)) suites,
        subst (λ (k : ℕ). verify k public r.signed r.signature ≡ true) suites valid,
      ),
      live,
    )
  where
    both : (a b : Bool) → (not a || not b) ≡ false → (a ≡ true) × (b ≡ true)
    both true true h = (refl, refl)
    both true false h = absurd (cc)
    both false b h = absurd (cc)

    known :
        (o : Option (ℕ × List ℕ)) {a : ℕ × List ℕ} → ok_or o Refusal.unknown_key ≡ ok a → o ≡ some a
    known none h = absurd (cc)
    known (some a) h = cc

-- With masks of a `u32` and a time of issue of a `u64`: when a record authorizes an operation, its scope
-- is one this profile issues, it is signed by a known key under that key's suite, it is live, and it
-- covers what is asked. So the operations asked for are among those that the class of the actor who asks
-- may ever hold for that kind.
pub authorize_record_lem :
    (r : Record) (lookup : Lookup) (verify : VerifyFn) (now_ms : ℕ) (ask : Ask) (s : Scope)
    → r.scope.ops < 2 ^ 32
    → ask.ops < 2 ^ 32
    → r.scope.issued_ms < 2 ^ 64
    → authorize_record r lookup verify now_ms ask ≡ ok s
    → (s ≡ r.scope)
      × IsIssuable s
      × IsSigned r lookup verify
      × (now_ms < s.expiry_ms)
      × (s.issued_ms ≤ now_ms + 60000)
      × Covers s ask
      × Within 32 ask.ops (ceiling ask.kind ask.actor_class)
unfolding authorize_record
authorize_record_lem r lookup verify now_ms ask s small asked fits h =
    let (u, v, h1) = >>=-eq-ok (verify_record r lookup verify now_ms) _ h in
    let (w, c, h2) = >>=-eq-ok (authorizes r.scope ask) _ h1 in
    let same : r.scope ≡ s = cc in
    let (checked, signed, live) = verified r lookup verify now_ms v in
    let issuable = (check-IsIssuable r.scope small).0 checked in
    let (started, unexpired, issued) = (live_at_iff r.scope now_ms fits).0 live in
    let covers = authorizes-Covers r.scope ask small asked c in
    let (kind, some_ops, ops, class, actor, tenant, service, object) = covers in
    let (valid, held, within, at_level, actor', object', ordered, short) = issuable in
    rw (← same) (
      refl,
      issuable,
      signed,
      unexpired,
      issued,
      covers,
      λ i low. omega (
        arith,
        ops i low,
        within i low,
        ap (λ (k : ℕ). bit (ceiling k r.scope.actor_class) i) kind,
        ap (λ (k : ℕ). bit (ceiling ask.kind k) i) class,
      ),
    )
