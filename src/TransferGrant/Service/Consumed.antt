-- ===== src/TransferGrant/Service/Consumed.antt =====
-- modules/common/transfer_grant_service.rs: consuming a grant over one entry of the ledger.
use kagi.Base.{
  ℕ, suc, ◌≡◌, refl, sym, ap, ◌∙◌, ◌≢◌, ◌⊎◌, inl, inr, Bool, true, false, List, [], ◌∷◌, ◌==◌,
  ==_iff, if◌then◌else◌, Bool-cases, bytes_eq, bytes_eq→eq,
}
use mathlib.Core.Path.{subst}
use kagi.Pkce.{Sha256}
use kagi.TransferGrant.Ledger.{generation_key}
use kagi.TransferGrant.Service.{Op, Stage, Request, Answer, st_ok, st_conflict, advance}
use kagi.TransferGrant.Service.World.{
  Entry, Flight, asked, told, over, Event, serves, hears, fails, World, Moment, bare, request_key,
  update, serve, served, heard, failed, happen, run, has_consumed,
}
use kagi.TransferGrant.Service.Kept.{Closed, IsOpen, Fits, AskedAt, ToldAt, Fine, winning, Good}
use kagi.TransferGrant.Service.Heard.{state_keeps}
use kagi.TransferGrant.Service.Told.{other_told, grow, Idle, get_told, conflict_told}

module _ (sha256 : Sha256) (tag : ℕ → List ℕ) (watched : List ℕ)
    (fresh : (i j : ℕ) → tag i ≡ tag j → i ≡ j)
    (elsewhere : bytes_eq generation_key watched ≡ false) where
  -- Every operation is sound, one at most has won, and none that can still swap has lost to it.
  Sound : World → Type 0
  Sound w =
      ((i : ℕ) → Fine tag watched w.entry (w.flights i))
      × ((i j : ℕ)
          → winning tag watched (w.flights i) ≡ true
          → winning tag watched (w.flights j) ≡ true
          → i ≡ j)
      × ((i : ℕ) → winning tag watched (w.flights i) ≡ true → Closed tag watched w.entry.value)

  at_update :
      (P : Flight → Type 0) (flights : ℕ → Flight) (i j : ℕ) (x : Flight)
      → (j ≡ i → P x)
      → P (flights j)
      → P (update flights i x j)
  at_update P flights i j x here there = chosen (Bool-cases (j == i))
    where
      chosen : ((j == i) ≡ true) ⊎ ((j == i) ≡ false) → P (update flights i x j)
      chosen (inl same) = rw same (here ((==_iff j i).0 same))
      chosen (inr apart) = rw apart there

  -- One operation moves on, and the entry stays.
  quiet :
      (w : World) (i : ℕ) (x : Flight)
      → Sound w
      → Fine tag watched w.entry x
      → (winning tag watched x ≡ true → winning tag watched (w.flights i) ≡ true)
      → Sound (record { entry = w.entry; flights = update w.flights i x })
  unfolding Sound
  quiet w i x (fine, single, closed) here before = (
    λ j. at_update (Fine tag watched w.entry) w.flights i j x (λ _. here) (fine j),
    λ j k wj wk. single j k (pulled j wj) (pulled k wk),
    λ j wj. closed j (pulled j wj),
  )
    where
      pulled :
          (j : ℕ)
          → winning tag watched (update w.flights i x j) ≡ true
          → winning tag watched (w.flights j) ≡ true
      pulled j =
          at_update (λ y. winning tag watched y ≡ true → winning tag watched (w.flights j) ≡ true)
            w.flights i j x
            (λ same wins. ap (λ n. winning tag watched (w.flights n)) same ∙ before wins)
            (λ wins. wins)

  heard_stands :
      (m : Moment) (e : Entry) (x : Flight)
      → Fine tag watched e x
      → Fine tag watched e (heard sha256 tag watched m x)
        × (winning tag watched (heard sha256 tag watched m x) ≡ true → winning tag watched x ≡ true)
  unfolding heard advance Fine Good
  heard_stands m e (asked op request) fine = (fine, λ h. h)
  heard_stands m e (told op a) fine =
      state_keeps tag watched sha256 m e a op (op.stage) refl elsewhere fine
  heard_stands m e (over op result) fine = (tt, λ h. h)

  failed_stands :
      (e : Entry) (x : Flight)
      → Fine tag watched e x
      → Fine tag watched e (failed sha256 tag watched x)
        × (winning tag watched (failed sha256 tag watched x) ≡ true → winning tag watched x ≡ true)
  unfolding Fine winning has_consumed
  failed_stands e (asked op request) fine = (tt, λ h. h)
  failed_stands e (told op a) fine = (tt, λ h. absurd (cc))
  failed_stands e (over op result) fine = (tt, λ h. h)

  -- A swap that takes the entry is the first.
  swapped :
      (w : World) (i : ℕ) (op : Op) (value : List ℕ)
      → Sound w
      → op.stage ≡ Stage.mark
      → IsOpen tag watched w.entry.value
      → Closed tag watched value
      → Sound (record {
        entry = record { version = suc w.entry.version; value = value };
        flights = update w.flights i (told op (bare st_ok));
      })
  unfolding Sound Fine ToldAt IsOpen Closed
  swapped w i op value (fine, single, closed) at (st, decoded, still) shut = (
    λ j.
        at_update (Fine tag watched _) w.flights i j (told op (bare st_ok)) (λ _. rw at tt)
          (grow tag watched w.entry value (w.flights j) (fine j)),
    λ j k wj wk. is_i j wj ∙ sym (is_i k wk),
    λ j wj. shut,
  )
    where
      is_i :
          (j : ℕ) → winning tag watched (update w.flights i (told op (bare st_ok)) j) ≡ true → j ≡ i
      is_i j =
          at_update (λ y. winning tag watched y ≡ true → j ≡ i) w.flights i j (told op (bare st_ok))
            (λ same _. same) (λ wins. absurd (closed j wins st decoded still))

  abbrev either : Bool → Answer × Entry → Answer × Entry → Answer × Entry
  either b x y = if b then x else y

  swap_by :
      (b : Bool) (w : World) (i : ℕ) (op : Op) (e e' : Entry) (a a' : Answer)
      → (b ≡ true → Sound (record { entry = e; flights = update w.flights i (told op a) }))
      → (b ≡ false → Sound (record { entry = e'; flights = update w.flights i (told op a') }))
      → Sound (record {
        entry = (either b (a, e) (a', e')).1;
        flights = update w.flights i (told op ((either b (a, e) (a', e')).0));
      })
  swap_by true w i op e e' a a' f g = f refl
  swap_by false w i op e e' a a' f g = g refl

  unmoved_told :
      (w : World) (i : ℕ) (op : Op) (a : Answer)
      → Sound w
      → Idle tag watched w.entry op a
      → Sound (record { entry = w.entry; flights = update w.flights i (told op a) })
  unfolding Idle Fine
  unmoved_told w i op a sound (fine, lost) =
      quiet w i (told op a) sound fine (λ h. let f : false ≡ true = lost h in absurd (cc))

  -- The entry's own answers keep what is sound.
  here_told :
      (w : World) (i : ℕ) (op : Op) (request : Request)
      → Sound w
      → AskedAt tag watched w.entry (op.stage) op request
      → bytes_eq (request_key request) watched ≡ true
      → Sound (record {
        entry = (serve sha256 tag watched request w.entry).1;
        flights = update w.flights i (told op ((serve sha256 tag watched request w.entry).0));
      })
  unfolding AskedAt Fits
  here_told w i op (Request.get key) sound h ours =
      unmoved_told w i op _ sound (get_told tag watched w.entry op key h)
  here_told w i op (Request.put_if_absent key value lapse) sound (inl h) ours =
      unmoved_told w i op _ sound (conflict_told tag watched w.entry op (inl h))
  here_told w i op (Request.put_if_absent key value lapse) sound (inr h) ours =
      unmoved_told w i op _ sound (conflict_told tag watched w.entry op (inr (inl h)))
  here_told w i op (Request.compare_and_swap key etag value lapse) sound (inr (at, code, other))
        ours =
      let f : true ≡ false = sym ours ∙ other in absurd (cc)
  here_told w i op (Request.compare_and_swap key etag value lapse) sound (inl (at, found, fits))
        ours =
      let ((k, tagged, old, open_now), shut) = fits ours in
      swap_by (bytes_eq etag (tag w.entry.version)) w i op _ _ (bare st_ok) (bare st_conflict)
        (λ taken.
          swapped w i op value sound at
            (open_now
              (fresh k w.entry.version (sym tagged ∙ bytes_eq→eq etag (tag w.entry.version) taken)))
            shut)
        (λ _. unmoved_told w i op _ sound (conflict_told tag watched w.entry op (inr (inr at))))

  abbrev served_if : Bool → Request → Entry → Op → Answer → Flight × Entry
  served_if b request e op a =
      if b
      then (
        told op ((serve sha256 tag watched request e).0),
        (serve sha256 tag watched request e).1,
      )
      else (told op a, e)

  served_by :
      (b : Bool) (w : World) (i : ℕ) (op : Op) (request : Request) (a : Answer)
      → bytes_eq (request_key request) watched ≡ b
      → Sound w
      → AskedAt tag watched w.entry (op.stage) op request
      → Sound (record {
        entry = (served_if b request w.entry op a).1;
        flights = update w.flights i ((served_if b request w.entry op a).0);
      })
  unfolding Idle
  served_by true w i op request a ours sound h = here_told w i op request sound h ours
  served_by false w i op request a out sound h =
      unmoved_told w i op a sound (other_told tag watched w.entry op request a h out)

  stays :
      (w : World) (i : ℕ) (x : Flight)
      → w.flights i ≡ x
      → Sound w
      → Sound (record { entry = w.entry; flights = update w.flights i x })
  unfolding Sound
  stays w i x at sound =
      let (fine, single, closed) = sound in
      quiet w i x sound (subst (Fine tag watched w.entry) at (fine i))
        (λ h. ap (winning tag watched) at ∙ h)

  served_stands :
      (w : World) (i : ℕ) (a : Answer) (x : Flight)
      → w.flights i ≡ x
      → Sound w
      → Sound (record {
        entry = (served sha256 tag watched a w.entry x).1;
        flights = update w.flights i ((served sha256 tag watched a w.entry x).0);
      })
  unfolding Sound Fine
  served_stands w i a (asked op request) at sound =
      let (fine, single, closed) = sound in
      served_by (bytes_eq (request_key request) watched) w i op request a refl sound
        (subst (Fine tag watched w.entry) at (fine i))
  served_stands w i a (told op b) at sound = stays w i (told op b) at sound
  served_stands w i a (over op result) at sound = stays w i (over op result) at sound

  happen_stands : (event : Event) (w : World) → Sound w → Sound (happen sha256 tag watched event w)
  unfolding happen Sound
  happen_stands (serves i a) w sound = served_stands w i a (w.flights i) refl sound
  happen_stands (hears i m) w sound =
      let (fine, single, closed) = sound in
      let (after, won) = heard_stands m w.entry (w.flights i) (fine i) in
      quiet w i _ sound after won
  happen_stands (fails i) w sound =
      let (fine, single, closed) = sound in
      let (after, won) = failed_stands w.entry (w.flights i) (fine i) in quiet w i _ sound after won

  run_stands : (events : List Event) (w : World) → Sound w → Sound (run sha256 tag watched events w)
  unfolding run
  run_stands [] w sound = sound
  run_stands (event ∷ events) w sound =
      run_stands events (happen sha256 tag watched event w) (happen_stands event w sound)

-- Every operation has asked for the recovery generation, and nothing else has happened.
unfoldable pub IsStart : World → Type 0
IsStart w =
    (i : ℕ)
    → (op : Op) × (w.flights i ≡ asked op (Request.get generation_key))
      × (op.stage ≡ Stage.get_generation)

has_consumed-winning :
    (tag : ℕ → List ℕ) (watched : List ℕ) (x : Flight)
    → has_consumed watched x ≡ true
    → winning tag watched x ≡ true
unfolding has_consumed winning
has_consumed-winning tag watched (asked op request) h = cc
has_consumed-winning tag watched (told op a) h = cc
has_consumed-winning tag watched (over op result) h = h

start_stands :
    (sha256 : Sha256) (tag : ℕ → List ℕ) (watched : List ℕ)
    (fresh : (i j : ℕ) → tag i ≡ tag j → i ≡ j)
    (elsewhere : bytes_eq generation_key watched ≡ false) (w : World)
    → IsStart w
    → Sound sha256 tag watched fresh elsewhere w
unfolding Sound IsStart Fine AskedAt winning
start_stands sha256 tag watched fresh elsewhere w start = (
  λ i. let (op, at, stage) = start i in subst (Fine tag watched w.entry) (sym at) (inl stage),
  λ i j wi wj. absurd (none_won i wi),
  λ i wi. absurd (none_won i wi),
)
  where
    none_won : (i : ℕ) → winning tag watched (w.flights i) ≡ true → ⊥
    none_won i h =
        let (op, at, stage) = start i in
        let f : false ≡ true = ap (winning tag watched) (sym at) ∙ h in cc

-- Let the ledger give every write a new etag, and let an entry other than the generation's stand in it.
-- Of any number of operations of the service that start over it, whatever they are, however the
-- ledger's serving of them, their hearing of its answers and their failing are interleaved, whatever it
-- answers on other keys, and whatever the host's clock, channel and signatures do: if one has consumed
-- a grant whose state is that entry, no other has consumed it.
pub consumed_once :
    (sha256 : Sha256) (tag : ℕ → List ℕ) (watched : List ℕ) (w : World) (events : List Event)
    (i j : ℕ)
    → ((i j : ℕ) → tag i ≡ tag j → i ≡ j)
    → bytes_eq generation_key watched ≡ false
    → IsStart w
    → i ≢ j
    → has_consumed watched ((run sha256 tag watched events w).flights i) ≡ true
    → has_consumed watched ((run sha256 tag watched events w).flights j) ≡ false
unfolding Sound
consumed_once sha256 tag watched w events i j fresh elsewhere start apart won =
    let (fine, single, closed) =
      run_stands sha256 tag watched fresh elsewhere events w
        (start_stands sha256 tag watched fresh elsewhere w start) in
    elim (Bool-cases (has_consumed watched ((run sha256 tag watched events w).flights j))) [
      | inl too ↦ absurd (
          apart (
            single i j (has_consumed-winning tag watched _ won)
              (has_consumed-winning tag watched _ too)))
      | inr other ↦ other
    ]
