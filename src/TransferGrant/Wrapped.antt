-- ===== src/TransferGrant/Wrapped.antt =====
-- modules/common/transfer_grant.rs: what has been checked of a grant before a vault wraps.
use kagi.Base.{
  ℕ, ◌+◌, ◌≤◌, ◌<◌, ◌≡◌, ◌⊎◌, refl, ap, ◌∙◌, Bool, true, false, not, ◌||◌, ◌&&◌, Option, none, some,
  List, arith, leb, ◌==◌, ==_iff, if◌then◌else◌, bytes_eq→eq,
}
use mathlib.Core.Path.{subst}
use kagi.Base.Outcome.{ok, err, ◌>>◌, refuse_if, ok_or, >>=-eq-ok, refuse_if-eq-ok}
use kagi.TransferGrant.{
  Refusal, Grant, Wrap, transfer_grant_ttl_ms, skew_ms, both_ways, valid_direction,
  covers_direction, same_transfer, check, live_at, authorizes,
}
use kagi.TransferGrant.Record.{Record, Lookup, VerifyFn, verify_record, authorize_wrap}

-- The signer's key is known, under the suite that the record names, and verifies the signature.
abbrev pub IsSigned : Record → Lookup → VerifyFn → Type 0
IsSigned r lookup verify =
    (public : List ℕ) × (lookup r.signer.issuer r.signer.kid ≡ some (r.signature_suite, public))
    × (verify r.signature_suite public r.signed r.signature ≡ true)

-- Every field of the wrap is the grant's, but for a direction that a grant of both covers.
abbrev pub IsThisTransfer : Grant → Wrap → Type 0
IsThisTransfer g wrap =
    (g.service ≡ wrap.service)
    × (g.flow ≡ wrap.flow)
    × (g.session ≡ wrap.session)
    × (g.source ≡ wrap.source)
    × (g.destination ≡ wrap.destination)
    × (g.anchor ≡ wrap.anchor)
    × (g.target_epoch ≡ wrap.target_epoch)
    × (g.traffic_epoch ≡ wrap.traffic_epoch)
    × (g.algorithm ≡ wrap.algorithm)
    × (g.key_use ≡ wrap.key_use)
    × (g.recipient ≡ wrap.recipient)
    × ((g.direction ≡ wrap.direction) ⊎ (g.direction ≡ both_ways))

both : (a b : Bool) → (a && b) ≡ true → (a ≡ true) × (b ≡ true)
both true b h = (refl, h)
both false b h = absurd (cc)

authorized :
    (b : Bool) → (if b then ok (tt {0}) else err Refusal.not_this_transfer) ≡ ok (tt {0}) → b ≡ true
authorized true e = refl
authorized false e = absurd (cc)

directions :
    (granted wrapped : ℕ)
    → covers_direction granted wrapped ≡ true
    → (granted ≡ wrapped) ⊎ (granted ≡ both_ways)
directions granted wrapped h = ground arith

authorizes_lem : (g : Grant) (wrap : Wrap) → authorizes g wrap ≡ ok tt → IsThisTransfer g wrap
unfolding authorizes
authorizes_lem g wrap e =
    let (same, way) =
      both _ _
        (authorized (same_transfer g wrap && covers_direction g.direction wrap.direction) e) in
    let (h10, recipient) = both _ _ same in
    let (h9, key_use) = both _ _ h10 in
    let (h8, algorithm) = both _ _ h9 in
    let (h7, traffic) = both _ _ h8 in
    let (h6, target) = both _ _ h7 in
    let (h5, anchor) = both _ _ h6 in
    let (h4, destination) = both _ _ h5 in
    let (h3, source) = both _ _ h4 in
    let (h2, session) = both _ _ h3 in
    let (service, flow) = both _ _ h2 in
    (
      bytes_eq→eq _ _ service,
      bytes_eq→eq _ _ flow,
      bytes_eq→eq _ _ session,
      bytes_eq→eq _ _ source,
      bytes_eq→eq _ _ destination,
      bytes_eq→eq _ _ anchor,
      (==_iff g.target_epoch wrap.target_epoch).0 target,
      (==_iff g.traffic_epoch wrap.traffic_epoch).0 traffic,
      (==_iff g.algorithm wrap.algorithm).0 algorithm,
      (==_iff g.key_use wrap.key_use).0 key_use,
      bytes_eq→eq _ _ recipient,
      directions g.direction wrap.direction way,
    )

checked :
    (g : Grant)
    → check g ≡ ok tt
    → (valid_direction g.direction ≡ true)
      × (g.issued_ms < g.expiry_ms)
      × (g.expiry_ms ≤ g.issued_ms + transfer_grant_ttl_ms)
unfolding check
checked g e =
    let (u, named, window) =
      >>=-eq-ok
        (refuse_if (not (valid_direction g.direction) || g.algorithm == 0 || g.key_use == 0)
          Refusal.malformed)
        _ e in
    let shaped = refuse_if-eq-ok _ Refusal.malformed named in
    let ordered = refuse_if-eq-ok _ Refusal.window_invalid window in
    (neither _ _ _ shaped, ground arith, ground arith)
  where
    neither : (a b c : Bool) → (not a || b || c) ≡ false → a ≡ true
    neither true b c h = refl
    neither false b c h = absurd (cc)

live :
    (g : Grant) (now_ms : ℕ)
    → live_at g now_ms ≡ ok tt
    → (now_ms < g.expiry_ms) × (g.issued_ms ≤ now_ms + skew_ms)
unfolding live_at
live g now_ms e =
    let (u, first, issued) =
      >>=-eq-ok
        (refuse_if (now_ms == 0) Refusal.no_clock
          >> refuse_if (leb g.expiry_ms now_ms) Refusal.expired)
        _ e in
    let (v, clock, timely) = >>=-eq-ok (refuse_if (now_ms == 0) Refusal.no_clock) _ first in
    let unexpired = refuse_if-eq-ok _ Refusal.expired timely in
    let started = refuse_if-eq-ok _ Refusal.window_invalid issued in (ground arith, ground arith)

verified :
    (r : Record) (lookup : Lookup) (verify : VerifyFn) (now_ms : ℕ)
    → verify_record r lookup verify now_ms ≡ ok tt
    → (check r.grant ≡ ok tt) × IsSigned r lookup verify × (live_at r.grant now_ms ≡ ok tt)
unfolding verify_record
verified r lookup verify now_ms h =
    let (u, well_formed, h1) = >>=-eq-ok (check r.grant) _ h in
    let ((suite, public), found, h2) =
      >>=-eq-ok (ok_or (lookup r.signer.issuer r.signer.kid) Refusal.unknown_key) _ h1 in
    let (v, signed, lives) =
      >>=-eq-ok
        (refuse_if
          (not (r.signature_suite == suite) || not (verify suite public r.signed r.signature))
          Refusal.bad_signature)
        _ h2 in
    let (same, valid) = neither _ _ (refuse_if-eq-ok _ Refusal.bad_signature signed) in
    let suites : suite ≡ r.signature_suite = ground arith in
    (
      well_formed,
      (
        public,
        known _ found ∙ ap (λ k. some (k, public)) suites,
        subst (λ k. verify k public r.signed r.signature ≡ true) suites valid,
      ),
      lives,
    )
  where
    neither : (a b : Bool) → (not a || not b) ≡ false → (a ≡ true) × (b ≡ true)
    neither true true h = (refl, refl)
    neither true false h = absurd (cc)
    neither false b h = absurd (cc)

    known :
        (o : Option (ℕ × List ℕ)) {a : ℕ × List ℕ} → ok_or o Refusal.unknown_key ≡ ok a → o ≡ some a
    known none h = absurd (cc)
    known (some a) h = cc

-- When a record authorises a wrap, its grant has a direction and a window of at most 30 seconds, it is
-- signed by a known key under that key's suite, it is live, and every field that the wrap has is the
-- grant's, but for a direction that a grant of both covers.
pub authorize_wrap_lem :
    (r : Record) (lookup : Lookup) (verify : VerifyFn) (now_ms : ℕ) (wrap : Wrap)
    → authorize_wrap r lookup verify now_ms wrap ≡ ok tt
    → (valid_direction r.grant.direction ≡ true)
      × (r.grant.expiry_ms ≤ r.grant.issued_ms + transfer_grant_ttl_ms)
      × IsSigned r lookup verify
      × (now_ms < r.grant.expiry_ms)
      × (r.grant.issued_ms ≤ now_ms + skew_ms)
      × IsThisTransfer r.grant wrap
unfolding authorize_wrap
authorize_wrap_lem r lookup verify now_ms wrap e =
    let (u, v, same) = >>=-eq-ok (verify_record r lookup verify now_ms) _ e in
    let (well_formed, signed, lives) = verified r lookup verify now_ms v in
    let (way, ordered, short) = checked r.grant well_formed in
    let (unexpired, started) = live r.grant now_ms lives in
    (way, short, signed, unexpired, started, authorizes_lem r.grant wrap same)
