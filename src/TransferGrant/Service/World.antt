-- ===== src/TransferGrant/Service/World.antt =====
-- modules/common/transfer_grant_service.rs: any number of operations over one entry of the ledger.
-- The entry is watched from when it stands until it lapses, a minute after the grant's own expiry.
-- Every write gives it a new etag; what the ledger answers on other keys is left open.
use kagi.Base.{
  ℕ, suc, Bool, false, ◌&&◌, Option, none, some, List, [], ◌∷◌, ◌==◌, if◌then◌else◌, bytes_eq,
}
use kagi.Base.Outcome.{Result, ok, err}
use kagi.Pkce.{Sha256}
use kagi.TransferGrant.{Refusal}
use kagi.TransferGrant.Service.{
  Op, Request, Answer, Advanced, st_ok, st_conflict, consume, key_of, advance,
}

pub record Entry : Type 0 where
  pub version : ℕ
  pub value : List ℕ

-- An operation waits for the ledger to take its request, has its answer under way, or has ended.
pub data Flight : Type 0 where
  asked : Op → Request → Flight
  told : Op → Answer → Flight
  over : Op → Result Refusal (Unit {0}) → Flight

abbrev pub flight_of : Advanced → Flight
flight_of (Advanced.waiting op request) = asked op request
flight_of (Advanced.ended op result) = over op result

abbrev pub request_key : Request → List ℕ
request_key (Request.get key) = key
request_key (Request.put_if_absent key value lapse) = key
request_key (Request.compare_and_swap key etag value lapse) = key

abbrev pub bare : ℕ → Answer
bare status = record { status = status; etag = []; value = [] }

-- What the host gives an operation that is moved on: suite, signature, channel, issuer and time.
pub record Moment : Type 0 where
  pub suite : ℕ
  pub sign_bytes : List ℕ → Option (List ℕ)
  pub sends : Request → Bool
  pub issuer : List ℕ
  pub now : ℕ

-- The ledger serves operation `i`, with what it answers if another key is asked for; operation `i`
-- hears its answer; or its request or answer is lost, and its deadline passes.
pub data Event : Type 0 where
  serves : ℕ → Answer → Event
  hears : ℕ → Moment → Event
  fails : ℕ → Event

pub record World : Type 0 where
  pub entry : Entry
  pub flights : ℕ → Flight

abbrev pub update : (ℕ → Flight) → ℕ → Flight → ℕ → Flight
update flights i x j = if j == i then x else flights j

module _ (sha256 : Sha256) (tag : ℕ → List ℕ) (watched : List ℕ) where
  -- The entry's answer to a request for it.
  abbrev pub serve : Request → Entry → Answer × Entry
  serve (Request.get key) e = (record { status = st_ok; etag = tag e.version; value = e.value }, e)
  serve (Request.put_if_absent key value lapse) e = (bare st_conflict, e)
  serve (Request.compare_and_swap key etag value lapse) e =
      if bytes_eq etag (tag e.version)
      then (bare st_ok, record { version = suc e.version; value = value })
      else (bare st_conflict, e)

  abbrev pub served : Answer → Entry → Flight → Flight × Entry
  served elsewhere e (asked op request) =
      if bytes_eq (request_key request) watched
      then (told op ((serve request e).0), (serve request e).1)
      else (told op elsewhere, e)
  served elsewhere e (told op a) = (told op a, e)
  served elsewhere e (over op result) = (over op result, e)

  unfoldable pub heard : Moment → Flight → Flight
  unfolding advance
  heard m (asked op request) = asked op request
  heard m (told op a) = flight_of (advance sha256 m.suite m.sign_bytes m.sends m.issuer a m.now op)
  heard m (over op result) = over op result

  abbrev pub failed : Flight → Flight
  failed (asked op request) = over op (err Refusal.ledger_unavailable)
  failed (told op a) = over op (err Refusal.ledger_unavailable)
  failed (over op result) = over op result

  unfoldable pub happen : Event → World → World
  unfolding heard
  happen (serves i elsewhere) w =
      let (x, e) = served elsewhere w.entry (w.flights i) in
      record { entry = e; flights = update w.flights i x }
  happen (hears i m) w = record {
    entry = w.entry;
    flights = update w.flights i (heard m (w.flights i));
  }
  happen (fails i) w = record {
    entry = w.entry;
    flights = update w.flights i (failed (w.flights i));
  }

  unfoldable pub run : List Event → World → World
  unfolding happen
  run [] w = w
  run (event ∷ events) w = run events (happen event w)

-- Whether a grant's state stands in the entry.
abbrev pub is_key : Option (List ℕ) → List ℕ → Bool
is_key none watched = false
is_key (some key) watched = bytes_eq key watched

-- An operation has consumed a grant whose state stands in the entry.
unfoldable pub has_consumed : List ℕ → Flight → Bool
has_consumed watched (asked op request) = false
has_consumed watched (told op a) = false
has_consumed watched (over op (err r)) = false
has_consumed watched (over op (ok u)) = op.code == consume && is_key (key_of op.grant) watched
