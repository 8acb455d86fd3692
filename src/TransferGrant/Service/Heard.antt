-- ===== src/TransferGrant/Service/Heard.antt =====
-- modules/common/transfer_grant_service.rs: what an operation becomes that hears its answer.
use kagi.Base.{
  ℕ, ◌<◌, ◌≡◌, refl, sym, ap, ◌∙◌, ◌≢◌, inl, inr, Bool, true, false, not, ◌&&◌, ◌||◌, Option, none,
  some, List, [], arith, leb, ◌==◌, ==_iff, if◌then◌else◌, bytes_eq, take,
}
use kagi.Base.Outcome.{Result, ok}
use kagi.Pkce.{Sha256}
use kagi.TransferGrant.{Refusal}
use kagi.TransferGrant.Ledger.{
  State, issued, consumed, expired_state, encode_state, decode_state, generation_key,
}
use kagi.TransferGrant.Service.{
  st_not_found, max_etag, Op, Stage, Request, Answer, Advanced, issue, consume, invalidate, st_ok,
  key_of, result_of, written, lapse, mark_state, judge, look_up, claim_grant, advance_generation,
  set_request, by_code, sign, current_state, current_generation, at_stage,
}
use kagi.TransferGrant.Service.World.{Entry, told, is_key, has_consumed, Moment}
use kagi.TransferGrant.Service.Decoded.{
  still_issued, state_read, code_kept, decoded, decode_state-known, decode-encode_state_state,
}
use kagi.TransferGrant.Service.Kept.{
  Closed, IsOpen, Fits, ReadFrom, AskedAt, ToldAt, winning, Good, refuse_keeps, if_keeps,
  must_keeps, continue_keeps, ask_keeps,
}

module _ (tag : ℕ → List ℕ) (watched : List ℕ) where
  done_keeps :
      (e : Entry) (won : Bool) (op : Op)
      → (op.code == consume) ≡ false
      → Good tag watched e won (Advanced.ended op (ok tt))
  unfolding Good winning has_consumed
  done_keeps e won op other = (
    tt,
    λ h.
        let f : false ≡ true = ap (λ b. b && is_key (key_of op.grant) watched) (sym other) ∙ h in
        absurd (cc),
  )

  written_keeps :
      (e : Entry) (won : Bool) (a : Answer) (op : Op) (done : Result Refusal (Unit {0}))
      (lost : Refusal)
      → (a.status == st_ok ≡ true → Good tag watched e won (Advanced.ended op done))
      → Good tag watched e won (written a op done lost)
  written_keeps e won a op done lost f = if_keeps tag watched e won (a.status == st_ok) _ _ f (λ _.
      if_keeps tag watched e won _ _ _ (λ _. refuse_keeps tag watched e won op lost)
        (λ _. refuse_keeps tag watched e won op Refusal.ledger_unavailable))

  not_consume :
      (code other : ℕ) → code ≡ other → (other == consume) ≡ false → (code == consume) ≡ false
  not_consume code other same apart = ap (λ c. c == consume) same ∙ apart

  set_asked :
      (e : Entry) (b : Bool) (op : Op) (etag value value' : List ℕ)
      → bytes_eq generation_key watched ≡ false
      → op.code ≡ invalidate
      → AskedAt tag watched e Stage.set_generation op (
          if b
          then Request.compare_and_swap generation_key etag value 0
          else Request.put_if_absent generation_key value' 0)
  unfolding AskedAt
  set_asked e true op etag value value' elsewhere same = inr (refl, same, elsewhere)
  set_asked e false op etag value value' elsewhere same = inr (refl, same)

  claim_keeps :
      (sha256 : Sha256) (m : Moment) (e : Entry) (won : Bool) (op : Op)
      → op.code ≡ issue
      → Good tag watched e won (claim_grant sha256 m.suite m.sign_bytes m.sends m.issuer op)
  unfolding claim_grant AskedAt
  claim_keeps sha256 m e won op same =
      let stamped = record op { grant = record (op.grant) { generation = op.generation } } in
      continue_keeps tag watched e won
        (sign sha256 m.suite m.sign_bytes m.sends (stamped.grant) m.issuer) stamped _
        (λ signed _.
          must_keeps tag watched e won (key_of op.grant) (record stamped { bytes = signed }) _
            (λ key _.
              ask_keeps tag watched sha256 m e won
                (record stamped { bytes = signed; stage = Stage.claim })
                (Request.put_if_absent key _ _) (inl (refl, same))))

  by_code_keeps :
      (sha256 : Sha256) (m : Moment) (e : Entry) (won : Bool) (a : Answer) (op : Op)
      → bytes_eq generation_key watched ≡ false
      → Good tag watched e won (by_code sha256 m.suite m.sign_bytes m.sends m.issuer a op)
  unfolding by_code claim_grant look_up advance_generation set_request AskedAt
  by_code_keeps sha256 m e won a op elsewhere =
      if_keeps tag watched e won (op.code == issue) _ _
        (λ same. claim_keeps sha256 m e won op ((==_iff op.code issue).0 same))
        (λ _.
          if_keeps tag watched e won (op.code == consume) _ _
            (λ _.
              if_keeps tag watched e won (not (op.grant.generation == op.generation)) _ _
                (λ _. refuse_keeps tag watched e won op Refusal.invalidated)
                (λ _.
                  must_keeps tag watched e won (key_of op.grant) op _
                    (λ key found. ask_keeps tag watched sha256 m e won _ _ (inr (refl, found)))))
            (λ _.
              if_keeps tag watched e won (op.code == invalidate) _ _
                (λ same.
                  if_keeps tag watched e won (leb op.target_generation op.generation) _ _
                    (λ _. refuse_keeps tag watched e won op Refusal.generation_not_advanced)
                    (λ _. ask_keeps tag watched sha256 m e won _ _ (
                      set_asked e (a.status == st_ok) (record op { stage = Stage.set_generation })
                        op.etag _ _ elsewhere ((==_iff op.code invalidate).0 same))))
                (λ _. refuse_keeps tag watched e won op Refusal.malformed)))

  -- What `mark_state` writes does not say that the grant is issued.
  marked_shut : (s : State) → s.state < 256 → s.state ≢ issued → Closed tag watched (encode_state s)
  unfolding Closed
  marked_shut s low other st e same = other (sym (decode-encode_state_state s low st e) ∙ same)

  mark_keeps :
      (sha256 : Sha256) (m : Moment) (e : Entry) (won : Bool) (a : Answer) (op : Op) (st : State)
      → (is_key (key_of op.grant) watched ≡ true → ReadFrom tag watched e a)
      → decode_state a.value ≡ some st
      → st.state ≡ issued
      → Good tag watched e won (mark_state sha256 m.suite m.sign_bytes m.sends a m.now op st)
  unfolding mark_state AskedAt ReadFrom Fits IsOpen
  mark_keeps sha256 m e won a op st read decoded fresh =
      let next = record st {
        state = if leb op.grant.expiry_ms m.now then expired_state else consumed;
      } in
      let op' = record op {
        pending = if leb op.grant.expiry_ms m.now then some Refusal.expired else none;
      } in
      must_keeps tag watched e won (key_of op.grant) op' _ (λ key found.
        ask_keeps tag watched sha256 m e won (record op' { stage = Stage.mark })
          (Request.compare_and_swap key a.etag (encode_state next) (lapse op.grant))
          (inl (
            refl,
            found,
            λ ours.
                let (k, tagged, old, same) = read (ap (λ o. is_key o watched) found ∙ ours) in
                (
                  (k, tagged, old, λ now. (st, ap decode_state (sym (same now)) ∙ decoded, fresh)),
                  closed (leb op.grant.expiry_ms m.now),
                ),
          )))
    where
      closed :
          (b : Bool)
          → Closed tag watched
              (encode_state (record st { state = if b then expired_state else consumed }))
      closed true =
          marked_shut (record st { state = expired_state }) (omega arith)
            (λ e. absurd (omega (arith, e)))
      closed false =
          marked_shut (record st { state = consumed }) (omega arith)
            (λ e. absurd (omega (arith, e)))

  judge_keeps :
      (sha256 : Sha256) (m : Moment) (e : Entry) (won : Bool) (a : Answer) (op : Op) (st : State)
      → (is_key (key_of op.grant) watched ≡ true → ReadFrom tag watched e a)
      → decode_state a.value ≡ some st
      → Good tag watched e won (judge sha256 m.suite m.sign_bytes m.sends a m.now op st)
  unfolding judge
  judge_keeps sha256 m e won a op st read decoded =
      if_keeps tag watched e won
        (not (bytes_eq st.digest (sha256 op.bytes)) || not (st.generation == op.grant.generation)) _
        _ (λ _. refuse_keeps tag watched e won op Refusal.unknown_grant)
        (λ _.
          if_keeps tag watched e won (st.state == consumed) _ _
            (λ _. refuse_keeps tag watched e won op Refusal.replayed)
            (λ live.
              if_keeps tag watched e won (st.state == expired_state) _ _
                (λ _. refuse_keeps tag watched e won op Refusal.expired)
                (λ fresh.
                  mark_keeps sha256 m e won a op st read decoded
                    (still_issued st.state (decode_state-known a.value st decoded) live fresh))))

  pending_keeps :
      (e : Entry) (a : Answer) (op : Op) (p : Option Refusal)
      → op.pending ≡ p
      → op.stage ≡ Stage.mark
      → (a.status == st_ok) ≡ true
      → Good tag watched e (winning tag watched (told op a)) (Advanced.ended op (result_of p))
  unfolding Good winning has_consumed
  pending_keeps e a op none pending at status = (
    tt,
    λ won.
        rw (at, status, pending)
          (second (op.code == consume) (is_key (key_of op.grant) watched) won),
  )
    where
      second : (b c : Bool) → (b && c) ≡ true → c ≡ true
      second true c h = h
      second false c h = absurd (cc)
  pending_keeps e a op (some r) pending at status = (tt, λ won. absurd (cc))

  pub state_keeps :
      (sha256 : Sha256) (m : Moment) (e : Entry) (a : Answer) (op : Op) (stage : Stage)
      → op.stage ≡ stage
      → bytes_eq generation_key watched ≡ false
      → ToldAt tag watched e stage op a
      → Good tag watched e
          (winning tag watched (told op a))
          (at_stage sha256 m.suite m.sign_bytes m.sends stage m.issuer a m.now op)
  unfolding at_stage ToldAt current_state
  state_keeps sha256 m e a op Stage.unset at elsewhere h =
      refuse_keeps tag watched e _ op Refusal.malformed
  state_keeps sha256 m e a op Stage.get_generation at elsewhere h =
      continue_keeps tag watched e _ (current_generation a) op _ (λ current _.
        by_code_keeps sha256 m e _ a
          (record op {
            etag = if a.status == st_ok then take max_etag a.etag else [];
            generation = current;
          })
          elsewhere)
  state_keeps sha256 m e a op Stage.claim at elsewhere h =
      written_keeps e _ a op (ok tt) Refusal.conflict
        (λ _. done_keeps e _ op (not_consume op.code issue h refl))
  state_keeps sha256 m e a op Stage.get_state at elsewhere h =
      continue_keeps tag watched e _ (current_state a) op _ (λ st read.
        let (status, found) =
          state_read (a.status == st_ok) (a.status == st_not_found) (decode_state a.value) read in
        judge_keeps sha256 m e _ a op st (λ ours. h ours ((==_iff a.status st_ok).0 status)) found)
  state_keeps sha256 m e a op Stage.mark at elsewhere h =
      written_keeps e _ a op (result_of op.pending) Refusal.replayed
        (λ status. pending_keeps e a op op.pending refl at status)
  state_keeps sha256 m e a op Stage.set_generation at elsewhere h =
      written_keeps e _ a _ (ok tt) Refusal.conflict (λ _.
        done_keeps e _ _ (code_kept (a.status == st_ok) op (not_consume op.code invalidate h refl)))
