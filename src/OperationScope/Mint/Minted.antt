-- ===== src/OperationScope/Mint/Minted.antt =====
-- modules/common/operation_scope.rs: the scope that is minted.
use kagi.Base.{
  ℕ, ◌+◌, ◌^◌, ◌≤◌, ◌<◌, ◌≡◌, ◌≢◌, refl, Option, none, some, List, arith, ◌==◌, bytes_eq_refl,
}
use kagi.Base.Outcome.{ok, refuse_if, >>=-eq-ok}
use kagi.OperationScope.{Scope, Ask, Refusal, check, live_at, authorizes}
use kagi.OperationScope.Privilege.{IsIssuable, check-IsIssuable, exceeds_self}
use kagi.OperationScope.Mint.{MintRequest, decide_mint, scope_for}

-- What the request is about, asked by the actor that was authenticated.
abbrev pub ask_of : MintRequest → ℕ → List ℕ → Ask
ask_of r actor_class actor = record {
  kind = r.kind;
  ops = r.ops;
  actor_class = actor_class;
  actor = actor;
  tenant = r.tenant;
  service = r.service;
  object = r.object;
}

minted :
    (r : MintRequest) (requester : Option (ℕ × List ℕ)) (now_ms : ℕ) (s : Scope)
    → decide_mint r requester now_ms ≡ ok s
    → (now_ms ≢ 0)
      × ((actor_class : ℕ) × (actor : List ℕ) × (requester ≡ some (actor_class, actor))
          × (s ≡ scope_for r actor_class actor now_ms)
          × (check (scope_for r actor_class actor now_ms) ≡ ok tt))
unfolding decide_mint
minted r none now_ms s h =
    let (u, a, h1) = >>=-eq-ok (refuse_if (now_ms == 0) Refusal.no_clock) _ h in absurd (cc)
minted r (some (actor_class, actor)) now_ms s h =
    let (u, a, h1) = >>=-eq-ok (refuse_if (now_ms == 0) Refusal.no_clock) _ h in
    let (v, b, h2) = >>=-eq-ok (check (scope_for r actor_class actor now_ms)) _ h1 in
    (ground arith, (actor_class, actor, refl, cc, b))

authorizes_own :
    (r : MintRequest) (actor_class : ℕ) (actor : List ℕ) (now_ms : ℕ)
    → r.ops ≢ 0
    → r.ops < 2 ^ 32
    → authorizes (scope_for r actor_class actor now_ms) (ask_of r actor_class actor) ≡ ok tt
unfolding authorizes
authorizes_own r actor_class actor now_ms some_ops small = ground (
  arith,
  exceeds_self r.ops small,
  bytes_eq_refl actor,
  bytes_eq_refl r.tenant,
  bytes_eq_refl r.service,
  bytes_eq_refl r.object,
)

live_now :
    (s : Scope) (now_ms : ℕ)
    → now_ms ≢ 0
    → now_ms < 2 ^ 64
    → s.issued_ms ≡ now_ms
    → s.issued_ms < s.expiry_ms
    → live_at s now_ms ≡ ok tt
unfolding live_at
live_now s now_ms started small issued ordered = ground arith

-- With the operations of a `u32` and a clock of a `u64`, a scope that is minted is one this profile
-- issues, for the actor that was authenticated and no more than an hour. It is live when it is minted,
-- and covers what was asked for by that actor.
pub decide_mint_lem :
    (r : MintRequest) (requester : Option (ℕ × List ℕ)) (now_ms : ℕ) (s : Scope)
    → r.ops < 2 ^ 32
    → now_ms < 2 ^ 64
    → decide_mint r requester now_ms ≡ ok s
    → (requester ≡ some (s.actor_class, s.actor))
      × IsIssuable s
      × (s.issued_ms ≡ now_ms)
      × (s.expiry_ms ≤ now_ms + 3600000)
      × (live_at s now_ms ≡ ok tt)
      × (authorizes s (ask_of r s.actor_class s.actor) ≡ ok tt)
decide_mint_lem r requester now_ms s small fits h =
    let (started, (actor_class, actor, known, same, checked)) = minted r requester now_ms s h in
    let issuable = (check-IsIssuable (scope_for r actor_class actor now_ms) small).0 checked in
    let (valid, some_ops, within, level, an_actor, an_object, ordered, short) = issuable in
    rw same (
      known,
      issuable,
      refl,
      omega arith,
      live_now (scope_for r actor_class actor now_ms) now_ms started fits refl ordered,
      authorizes_own r actor_class actor now_ms some_ops small,
    )
