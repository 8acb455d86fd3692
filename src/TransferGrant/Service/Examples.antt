-- ===== src/TransferGrant/Service/Examples.antt =====
-- modules/common/transfer_grant_service.rs: two operations that race for one grant, and who may
-- advance the generation.
use kagi.Base.{ℕ, ◌≡◌, refl, true, false, none, some, List, [], ◌∷◌, arith, replicate}
use kagi.Base.Text.{codes}
use kagi.Pkce.{Sha256}
use kagi.TransferGrant.{Grant}
use kagi.TransferGrant.Ledger.{issued, encode_state, decode_state, generation_key}
use kagi.TransferGrant.Service.{
  Op, Stage, Request, st_not_found, state_key, advance, at_stage, current_generation, current_state,
  by_code, look_up, judge, mark_state, must, continue, ask,
}
use kagi.TransferGrant.Service.World.{
  asked, World, Event, Moment, bare, heard, happen, run, has_consumed,
}
use kagi.Base.Outcome.{ok, err}
use kagi.TransferGrant.{Refusal}
use kagi.TransferGrant.Service.Start.{empty_op, start_invalidate}
use kagi.TransferGrant.Service.Consumed.{IsStart, consumed_once}

abbrev grant_example : Grant
grant_example = record {
  key_use = 1;
  direction = 3;
  custody = 1;
  proven_tier = 1;
  algorithm = 4865;
  traffic_epoch = 2;
  target_epoch = 3;
  issued_ms = 1000;
  expiry_ms = 31000;
  generation = 0;
  service = replicate 16 5;
  flow = replicate 16 1;
  session = replicate 16 6;
  source = replicate 16 7;
  destination = replicate 16 8;
  anchor = replicate 8 9;
  nonce = replicate 16 2;
  recipient = replicate 32 3;
  policy = replicate 32 4;
}

-- A digest that is the same for every input.
abbrev sha_example : Sha256
sha_example bytes = replicate 32 7

abbrev key_example : List ℕ
key_example = codes "01010101010101010101010101010101-02020202020202020202020202020202"

abbrev tag_example : ℕ → List ℕ
tag_example i = i ∷ []

abbrev consume_example : Op
consume_example = record {
  code = 2;
  stage = Stage.get_generation;
  grant = grant_example;
  bytes = 9 ∷ [];
  etag = [];
  generation = 0;
  target_generation = 0;
  pending = none;
}

abbrev world_example : World
world_example = record {
  entry = record {
    version = 4;
    value =
        encode_state
          (record { state = issued; generation = 0; expiry_ms = 31000; digest = replicate 32 7 });
  };
  flights = λ i. asked consume_example (Request.get generation_key);
}

abbrev moment_example : Moment
moment_example = record {
  suite = 1;
  sign_bytes = λ bytes. none;
  sends = λ request. true;
  issuer = codes "kagi";
  now = 2000;
}

-- Both read the entry before either swaps it.
abbrev race_example : List Event
race_example =
    Event.serves 0 (bare st_not_found)
    ∷ Event.serves 1 (bare st_not_found)
    ∷ Event.hears 0 moment_example
    ∷ Event.hears 1 moment_example
    ∷ Event.serves 0 (bare st_not_found)
    ∷ Event.serves 1 (bare st_not_found)
    ∷ Event.hears 0 moment_example
    ∷ Event.hears 1 moment_example
    ∷ Event.serves 0 (bare st_not_found)
    ∷ Event.serves 1 (bare st_not_found)
    ∷ Event.hears 0 moment_example
    ∷ Event.hears 1 moment_example
    ∷ []

first_consumes :
    has_consumed key_example
      ((run sha_example tag_example key_example race_example world_example).flights 0)
    ≡ true
unfolding has_consumed run happen heard advance at_stage current_generation current_state by_code
    look_up judge mark_state must continue ask state_key encode_state decode_state
first_consumes = refl

consumed_once_example :
    has_consumed key_example
      ((run sha_example tag_example key_example race_example world_example).flights 1)
    ≡ false
unfolding has_consumed run happen heard advance at_stage current_generation current_state by_code
    look_up judge mark_state must continue ask state_key encode_state decode_state IsStart
consumed_once_example =
    consumed_once sha_example tag_example key_example world_example race_example 0 1
      (λ i j same. cc) refl (λ i. (consume_example, refl, refl))
      (λ same. absurd (omega (arith, same))) first_consumes

operator_advances :
    start_invalidate (λ carrier. some (5, [])) (5 ∷ 0 ∷ 0 ∷ 0 ∷ 0 ∷ 0 ∷ 0 ∷ 0 ∷ 1 ∷ 0 ∷ 9 ∷ [])
    ≡ ok (record empty_op { target_generation = 5 })
unfolding start_invalidate
operator_advances = refl

host_does_not :
    start_invalidate (λ carrier. some (4, [])) (5 ∷ 0 ∷ 0 ∷ 0 ∷ 0 ∷ 0 ∷ 0 ∷ 0 ∷ 1 ∷ 0 ∷ 9 ∷ [])
    ≡ err Refusal.not_operator
unfolding start_invalidate
host_does_not = refl
