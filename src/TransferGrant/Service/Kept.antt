-- ===== src/TransferGrant/Service/Kept.antt =====
-- modules/common/transfer_grant_service.rs: what holds of every operation over one entry.
use kagi.Base.{
  ℕ, ◌≤◌, ◌≡◌, refl, ◌≢◌, ◌⊎◌, Bool, true, false, ◌&&◌, Option, none, some, List, ◌==◌,
  if◌then◌else◌, bytes_eq,
}
use kagi.Base.Outcome.{Result, ok, err}
use kagi.Pkce.{Sha256}
use kagi.TransferGrant.{Refusal}
use kagi.TransferGrant.Ledger.{State, issued, decode_state}
use kagi.TransferGrant.Service.{
  Op, Stage, Request, Answer, Advanced, issue, invalidate, st_ok, key_of, refuse, must, continue,
  ask, lapse,
}
use kagi.TransferGrant.Service.World.{
  Entry, Flight, asked, told, over, flight_of, is_key, has_consumed, Moment,
}

module _ (tag : ℕ → List ℕ) (watched : List ℕ) where
  -- No grant can be consumed by octets that do not say it is issued.
  unfoldable pub Closed : List ℕ → Type 0
  Closed value = (st : State) → decode_state value ≡ some st → st.state ≢ issued

  unfoldable pub IsOpen : List ℕ → Type 0
  IsOpen value = (st : State) × (decode_state value ≡ some st) × (st.state ≡ issued)

  -- A swap against a present etag is one against an entry that is still issued.
  unfoldable pub Fits : Entry → List ℕ → Type 0
  unfolding IsOpen
  Fits e etag = (k : ℕ) × (etag ≡ tag k) × (k ≤ e.version) × (k ≡ e.version → IsOpen e.value)

  -- An answer read from the entry, now or before.
  unfoldable pub ReadFrom : Entry → Answer → Type 0
  ReadFrom e a = (k : ℕ) × (a.etag ≡ tag k) × (k ≤ e.version) × (k ≡ e.version → a.value ≡ e.value)

  unfoldable pub AskedAt : Entry → Stage → Op → Request → Type 0
  unfolding Fits Closed
  AskedAt e stage op (Request.get key) =
      (stage ≡ Stage.get_generation) ⊎ ((stage ≡ Stage.get_state) × (key_of op.grant ≡ some key))
  AskedAt e stage op (Request.put_if_absent key value lapse) =
      ((stage ≡ Stage.claim) × (op.code ≡ issue))
      ⊎ ((stage ≡ Stage.set_generation) × (op.code ≡ invalidate))
  AskedAt e stage op (Request.compare_and_swap key etag value lapse) =
      ((stage ≡ Stage.mark)
        × (key_of op.grant ≡ some key)
        × (bytes_eq key watched ≡ true → Fits e etag × Closed value))
      ⊎ ((stage ≡ Stage.set_generation) × (op.code ≡ invalidate) × (bytes_eq key watched ≡ false))

  unfoldable pub ToldAt : Entry → Stage → Op → Answer → Type 0
  unfolding ReadFrom
  ToldAt e Stage.get_state op a =
      is_key (key_of op.grant) watched ≡ true → a.status ≡ st_ok → ReadFrom e a
  ToldAt e Stage.claim op a = op.code ≡ issue
  ToldAt e Stage.set_generation op a = op.code ≡ invalidate
  ToldAt e Stage.mark op a = Unit
  ToldAt e Stage.get_generation op a = Unit
  ToldAt e Stage.unset op a = Unit

  unfoldable pub Fine : Entry → Flight → Type 0
  unfolding AskedAt ToldAt
  Fine e (asked op request) = AskedAt e (op.stage) op request
  Fine e (told op a) = ToldAt e (op.stage) op a
  Fine e (over op result) = Unit

  abbrev pub is_none : Option Refusal → Bool
  is_none none = true
  is_none (some r) = false

  abbrev pub marking : Stage → Bool
  marking Stage.mark = true
  marking stage = false

  -- An operation whose swap has taken the entry, whether it knows yet or not.
  unfoldable pub winning : Flight → Bool
  unfolding has_consumed
  winning (asked op request) = false
  winning (told op a) =
      marking (op.stage)
      && a.status == st_ok
      && is_none op.pending
      && is_key (key_of op.grant) watched
  winning (over op result) = has_consumed watched (over op result)

  -- What an operation that hears its answer becomes: it holds as before, and wins only if it was to.
  unfoldable pub Good : Entry → Bool → Advanced → Type 0
  unfolding Fine winning
  Good e won adv = Fine e (flight_of adv) × (winning (flight_of adv) ≡ true → won ≡ true)

  pub refuse_keeps : (e : Entry) (won : Bool) (op : Op) (r : Refusal) → Good e won (refuse op r)
  unfolding Good has_consumed
  refuse_keeps e won op r = (tt, λ h. absurd (cc))

  pub if_keeps :
      (e : Entry) (won b : Bool) (x y : Advanced)
      → (b ≡ true → Good e won x)
      → (b ≡ false → Good e won y)
      → Good e won (if b then x else y)
  if_keeps e won true x y f g = f refl
  if_keeps e won false x y f g = g refl

  pub must_keeps :
      (e : Entry) (won : Bool) (o : Option (List ℕ)) (op : Op) (next : List ℕ → Advanced)
      → ((key : List ℕ) → o ≡ some key → Good e won (next key))
      → Good e won (must o op next)
  unfolding must
  must_keeps e won none op next f = refuse_keeps e won op Refusal.malformed
  must_keeps e won (some key) op next f = f key refl

  pub continue_keeps {ℓ} :
      {A : Type ℓ} (e : Entry) (won : Bool) (m : Result Refusal A) (op : Op) (next : A → Advanced)
      → ((a : A) → m ≡ ok a → Good e won (next a))
      → Good e won (continue m op next)
  unfolding continue
  continue_keeps e won (err r) op next f = refuse_keeps e won op r
  continue_keeps e won (ok a) op next f = f a refl

  pub ask_keeps :
      (sha256 : Sha256) (m : Moment) (e : Entry) (won : Bool) (op : Op) (request : Request)
      → AskedAt e (op.stage) op request
      → Good e won (ask sha256 m.suite m.sign_bytes m.sends op request)
  unfolding Good winning ask
  ask_keeps sha256 m e won op request h =
      if_keeps e won (m.sends request) (Advanced.waiting op request) _ (λ _. (h, λ w. absurd (cc)))
        (λ _. refuse_keeps e won op Refusal.ledger_unavailable)
