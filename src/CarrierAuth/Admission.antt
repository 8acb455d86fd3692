-- ===== src/CarrierAuth/Admission.antt =====
-- modules/common/carrier_auth.rs: what an authenticated caller has shown.
use kagi.Base.{
  ℕ, ◌≡◌, ◌≢◌, refl, sym, ap, ◌∙◌, ◌↔◌, ◌⊎◌, inl, inr, not, [], bytes_eq, bytes_eq→eq,
  bytes_eq_refl, Bool, true, false, Option, none, some, List, if◌then◌else◌,
}
use kagi.Base.Outcome.{Result, ok, err}
use kagi.Pkce.{Sha256}
use kagi.Spiffe.{Identity, class_code, parse}
use kagi.CarrierAuth.Fresh.{IsFresh, is_nil_iff, replayed_iff}
use kagi.CarrierAuth.{
  expire, remember, Seen, Trust, Bound, Policy, Caller, AuthError, is_nil, policy_of, mismatches,
  caller_of, answered, named_caller, verified_caller, replayed, authenticate,
}

-- The link has no key of its own, or the key is that of the carrier.
abbrev pub IsLinked : Option (List ℕ) → List ℕ → Type 0
IsLinked peer svid = (peer ≡ none) ⊎ (peer ≡ some svid)

-- What is shown by a caller that is let in, the window becoming `after`.
pub Shown :
    Sha256
    → (Policy → List ℕ → Option Bound)
    → Trust
    → List Seen
    → List ℕ
    → Option (List ℕ)
    → ℕ
    → Caller
    → List Seen
    → Type 0
Shown sha256 verify trust seen bytes peer now caller after =
    (trust.anchor ≢ [])
    × ((bound : Bound) × (who : Identity) × (verify
            (record {
              anchor_der = trust.anchor;
              audience = trust.audience;
              now_unix_secs = now;
              require_clock = true;
            })
            bytes
          ≡ some bound)
        × IsLinked peer (bound.svid)
        × (parse sha256 (bound.spiffe) (trust.trust_domain) ≡ some who)
        × IsFresh seen (bound.replay_id) now
        × (after
            ≡ remember (record { id = bound.replay_id; expires_at = bound.expires_at })
                (expire now seen))
        × (caller ≡ record { class = class_code (who.class); id = who.id; svid = bound.svid }))

mismatches-IsLinked :
    (peer : Option (List ℕ)) (svid : List ℕ) → (mismatches peer svid ≡ false) ↔ IsLinked peer svid
mismatches-IsLinked none svid = (λ e. inl refl, λ linked. refl)
mismatches-IsLinked (some peer) svid = (
  λ e. inr (ap some (by_test (bytes_eq peer svid) refl e)),
  λ linked. elim linked [
    | inl absent ↦ absurd (cc)
    | inr present ↦ let same : peer ≡ svid = cc in rw (same, bytes_eq_refl svid) refl
  ],
)
  where
    by_test : (b : Bool) → bytes_eq peer svid ≡ b → not b ≡ false → peer ≡ svid
    by_test true eb e = bytes_eq→eq peer svid eb
    by_test false eb e = absurd (cc)

answered_ok :
    (r : Bool × List Seen) (mine caller : Caller) (after : List Seen)
    → answered r mine ≡ (ok caller, after)
    → (r ≡ (false, after)) × (mine ≡ caller)
answered_ok (true, seen) mine caller after e =
    let f : err AuthError.replayed_carrier ≡ ok caller = ap (λ t. t.0) e in cc
answered_ok (false, seen) mine caller after e =
    let f : ok mine ≡ ok caller = ap (λ t. t.0) e in ((λ i. (false, ap (λ t. t.1) e i)), cc)

checked :
    (b : Bool) (e : AuthError) (seen : List Seen) (rest : Result AuthError Caller × List Seen)
    (caller : Caller) (after : List Seen)
    → (if b then (err e, seen) else rest) ≡ (ok caller, after)
    → (b ≡ false) × (rest ≡ (ok caller, after))
checked true e seen rest caller after h = let f : err e ≡ ok caller = ap (λ t. t.0) h in cc
checked false e seen rest caller after h = (refl, h)

named_ok :
    (seen : List Seen) (bound : Bound) (o : Option Identity) (now : ℕ) (caller : Caller)
    (after : List Seen)
    → named_caller seen bound o now ≡ (ok caller, after)
    → (who : Identity) × (o ≡ some who)
      × (replayed seen (bound.replay_id) (bound.expires_at) now ≡ (false, after))
      × (caller_of who (bound.svid) ≡ caller)
unfolding named_caller
named_ok seen bound none now caller after e =
    let f : err AuthError.name ≡ ok caller = ap (λ t. t.0) e in cc
named_ok seen bound (some who) now caller after e =
    let (fresh, same) =
      answered_ok (replayed seen (bound.replay_id) (bound.expires_at) now)
        (caller_of who (bound.svid)) caller after e in
    (who, refl, fresh, same)

verified_ok :
    (sha256 : Sha256) (trust : Trust) (seen : List Seen) (peer : Option (List ℕ)) (now : ℕ)
    (m : Option Bound) (caller : Caller) (after : List Seen)
    → verified_caller sha256 trust seen peer now m ≡ (ok caller, after)
    → (bound : Bound) × (who : Identity) × (m ≡ some bound)
      × (mismatches peer (bound.svid) ≡ false)
      × (parse sha256 (bound.spiffe) (trust.trust_domain) ≡ some who)
      × (replayed seen (bound.replay_id) (bound.expires_at) now ≡ (false, after))
      × (caller_of who (bound.svid) ≡ caller)
unfolding verified_caller
verified_ok sha256 trust seen peer now none caller after e =
    let f : err AuthError.carrier ≡ ok caller = ap (λ t. t.0) e in cc
verified_ok sha256 trust seen peer now (some bound) caller after e =
    let (matched, e') =
      checked (mismatches peer (bound.svid)) AuthError.peer_mismatch seen _ caller after e in
    let (who, named, fresh, same) =
      named_ok seen bound (parse sha256 (bound.spiffe) (trust.trust_domain)) now caller after e' in
    (bound, who, refl, matched, named, fresh, same)

-- A caller is let in exactly if there is an anchor, the carrier verifies under the anchor and the
-- audience, at this time and with a clock demanded, its key is the link's where the link has one, its
-- name is an identity in the trust domain, and its identifier has 1 to 48 octets and is in no slot of
-- the window that has not lapsed. The caller has the class and the name of that identity and the
-- carrier's key, and the window is left with the lapsed dropped and the carrier remembered.
pub authenticate_iff :
    (sha256 : Sha256) (verify : Policy → List ℕ → Option Bound) (trust : Trust) (seen : List Seen)
    (bytes : List ℕ) (peer : Option (List ℕ)) (now : ℕ) (caller : Caller) (after : List Seen)
    → (authenticate sha256 verify trust seen bytes peer now ≡ (ok caller, after))
      ↔ Shown sha256 verify trust seen bytes peer now caller after
unfolding authenticate Shown verified_caller named_caller caller_of
authenticate_iff sha256 verify trust seen bytes peer now caller after = (
  λ e.
      let (anchored, e') =
        checked (is_nil (trust.anchor)) AuthError.no_anchor seen _ caller after e in
      let (bound, who, verified, matched, named, taken, same) =
        verified_ok sha256 trust seen peer now (verify (policy_of trust now) bytes) caller after
          e' in
      let (fresh, left) =
        (replayed_iff seen (bound.replay_id) (bound.expires_at) now after).0 taken in
      (
        (is_nil_iff (trust.anchor)).0 anchored,
        (
          bound,
          who,
          verified,
          (mismatches-IsLinked peer (bound.svid)).0 matched,
          named,
          fresh,
          left,
          sym same,
        ),
      ),
  λ (anchored, (bound, who, verified, linked, named, fresh, left, same)).
      ap
        (λ b.
          if b
          then (err AuthError.no_anchor, seen)
          else verified_caller sha256 trust seen peer now (verify (policy_of trust now) bytes))
        ((is_nil_iff (trust.anchor)).1 anchored)
      ∙ ap (verified_caller sha256 trust seen peer now) verified
      ∙ ap
          (λ b.
            if b
            then (err AuthError.peer_mismatch, seen)
            else named_caller seen bound (parse sha256 (bound.spiffe) (trust.trust_domain)) now)
          ((mismatches-IsLinked peer (bound.svid)).1 linked)
      ∙ ap (λ o. named_caller seen bound o now) named
      ∙ ap (λ r. answered r (caller_of who (bound.svid)))
          ((replayed_iff seen (bound.replay_id) (bound.expires_at) now after).1 (fresh, left))
      ∙ ap (λ c. (ok c, after)) (sym same),
)
