-- ===== src/CarrierAuth/Examples.antt =====
-- modules/common/carrier_auth.rs: carriers presented to a window of two.
use kagi.Base.{ℕ, ◌≡◌, refl, ◌↔◌, true, Option, none, some, List, [], ◌∷◌, arith, replicate}
use kagi.Base.Text.{codes}
use kagi.Base.Outcome.{ok, err}
use kagi.Pkce.{Sha256}
use kagi.CarrierAuth.{
  caller_of, Seen, Trust, Bound, Policy, Caller, AuthError, new_window, replayed, authenticate,
}
use kagi.CarrierAuth.Presented.{Presented, is_roomy, run_presented, refused_again}
use kagi.CarrierAuth.Window.{IsWindow, run_presented-IsWindow}
use kagi.CarrierAuth.Admission.{Shown, authenticate_iff}

abbrev shown_example : List Presented
shown_example =
    record { id = 1 ∷ []; expires_at = 130; now = 110 }
    ∷ record { id = 7 ∷ []; expires_at = 150; now = 120 }
    ∷ record { id = 2 ∷ []; expires_at = 190; now = 140 }
    ∷ []

abbrev accepted_example : List Seen
accepted_example = (replayed (new_window 2) (7 ∷ []) 200 100).1

refused_again_example :
    (replayed (run_presented accepted_example shown_example) (7 ∷ []) 500 199).0 ≡ true
unfolding replayed is_roomy
refused_again_example =
    refused_again (new_window 2) (7 ∷ []) 200 100 shown_example 500 199 (omega arith) refl refl
      (omega arith)

run_presented-IsWindow_example : IsWindow 2 (run_presented (new_window 2) shown_example)
run_presented-IsWindow_example = run_presented-IsWindow 2 shown_example

abbrev trust_example : Trust
trust_example = record {
  anchor = 1 ∷ [];
  audience = codes "kagi";
  trust_domain = codes "nano.example";
}

-- A digest that is the same for every input.
abbrev sha_example : Sha256
sha_example bytes = replicate 32 7

-- A verifier that takes the octets as the name of whoever presents them.
abbrev verify_example : Policy → List ℕ → Option Bound
verify_example policy bytes =
    some (record { svid = replicate 32 5; spiffe = bytes; replay_id = 9 ∷ []; expires_at = 300 })

abbrev device_example : List ℕ
device_example = codes "spiffe://nano.example/device/t/d"

abbrev caller_example : Caller
caller_example = record { class = 1; id = replicate 16 7; svid = replicate 32 5 }

abbrev window_example : List Seen
window_example = record { id = 9 ∷ []; expires_at = 300 } ∷ []

-- The key of the link, which is the carrier's.
abbrev link_example : Option (List ℕ)
link_example = some (replicate 32 5)

authenticate_iff_example :
    (authenticate sha_example verify_example trust_example
        (new_window 1)
        device_example
        link_example
        100
      ≡ (ok caller_example, window_example))
    ↔ Shown sha_example verify_example trust_example
        (new_window 1)
        device_example
        link_example
        100
        caller_example
        window_example
authenticate_iff_example =
    authenticate_iff sha_example verify_example trust_example (new_window 1) device_example
      link_example 100 caller_example window_example

let_in :
    authenticate sha_example verify_example trust_example
      (new_window 1)
      device_example
      link_example
      100
    ≡ (ok caller_example, window_example)
unfolding authenticate caller_of
let_in = refl

replay_refused :
    authenticate sha_example verify_example trust_example window_example device_example none 299
    ≡ (err AuthError.replayed_carrier, window_example)
unfolding authenticate
replay_refused = refl

wrong_link :
    authenticate sha_example verify_example trust_example window_example device_example
      (some (replicate 32 6))
      299
    ≡ (err AuthError.peer_mismatch, window_example)
unfolding authenticate
wrong_link = refl
