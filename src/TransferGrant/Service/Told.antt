-- ===== src/TransferGrant/Service/Told.antt =====
-- modules/common/transfer_grant_service.rs: what the ledger's answers tell an operation.
use kagi.Base.{
  ℕ, suc, ◌≡◌, refl, sym, ap, ◌∙◌, ◌⊎◌, inl, inr, Bool, true, false, ◌&&◌, List, arith, ◌==◌,
  bytes_eq,
}
use kagi.TransferGrant.Service.{Op, Stage, Request, Answer, issue, invalidate, st_ok, st_conflict}
use kagi.TransferGrant.Service.World.{Entry, Flight, asked, told, over, bare, request_key, is_key}
use kagi.TransferGrant.Service.Kept.{Fits, ReadFrom, AskedAt, ToldAt, Fine, winning, is_none}

module _ (tag : ℕ → List ℕ) (watched : List ℕ) where
  -- An answer about another key tells an operation nothing of the entry.
  pub other_told :
      (e : Entry) (op : Op) (request : Request) (a : Answer)
      → AskedAt tag watched e (op.stage) op request
      → bytes_eq (request_key request) watched ≡ false
      → ToldAt tag watched e (op.stage) op a
        × (winning tag watched (told op a) ≡ true → false ≡ true)
  unfolding AskedAt ToldAt winning
  other_told e op (Request.get key) a (inl at) out = rw at (tt, λ h. h)
  other_told e op (Request.get key) a (inr (at, found)) out = rw at (
    (λ ours.
        let f : false ≡ true = sym out ∙ ap (λ o. is_key o watched) (sym found) ∙ ours in
        absurd (cc)),
    λ h. h,
  )
  other_told e op (Request.put_if_absent key value lapse) a (inl (at, code)) out =
      rw at (code, λ h. h)
  other_told e op (Request.put_if_absent key value lapse) a (inr (at, code)) out =
      rw at (code, λ h. h)
  other_told e op (Request.compare_and_swap key etag value lapse) a (inl (at, found, fits)) out =
      rw at (
        tt,
        rw (found, out)
            (λ h. sym (and_false (a.status == st_ok && is_none tag watched op.pending)) ∙ h),
      )
    where
      and_false : (b : Bool) → (b && false) ≡ false
      and_false true = refl
      and_false false = refl
  other_told e op (Request.compare_and_swap key etag value lapse) a (inr (at, code, other)) out =
      rw at (code, λ h. h)

  grow_asked :
      (e : Entry) (value : List ℕ) (op : Op) (request : Request)
      → AskedAt tag watched e (op.stage) op request
      → AskedAt tag watched
          (record { version = suc e.version; value = value })
          (op.stage)
          op
          request
  unfolding AskedAt Fits
  grow_asked e value op (Request.get key) h = h
  grow_asked e value op (Request.put_if_absent key v lapse) h = h
  grow_asked e value op (Request.compare_and_swap key etag v lapse) (inl (at, found, fits)) = inl (
    at,
    found,
    λ ours.
        let ((k, tagged, old, open_now), shut) = fits ours in
        ((k, tagged, omega arith, λ now. absurd (omega arith)), shut),
  )
  grow_asked e value op (Request.compare_and_swap key etag v lapse) (inr h) = inr h

  grow_told :
      (e : Entry) (value : List ℕ) (s : Stage) (op : Op) (a : Answer)
      → ToldAt tag watched e s op a
      → ToldAt tag watched (record { version = suc e.version; value = value }) s op a
  unfolding ToldAt ReadFrom
  grow_told e value Stage.unset op a h = h
  grow_told e value Stage.get_generation op a h = h
  grow_told e value Stage.claim op a h = h
  grow_told e value Stage.get_state op a h = λ ours status.
      let (k, tagged, old, same) = h ours status in
      (k, tagged, omega arith, λ now. absurd (omega arith))
  grow_told e value Stage.mark op a h = h
  grow_told e value Stage.set_generation op a h = h

  pub grow :
      (e : Entry) (value : List ℕ) (x : Flight)
      → Fine tag watched e x
      → Fine tag watched (record { version = suc e.version; value = value }) x
  unfolding Fine
  grow e value (asked op request) h = grow_asked e value op request h
  grow e value (told op a) h = grow_told e value (op.stage) op a h
  grow e value (over op result) h = tt

  -- Whatever is told, the operation has not won by it.
  unfoldable pub Idle : Entry → Op → Answer → Type 0
  unfolding ToldAt winning
  Idle e op a =
      ToldAt tag watched e (op.stage) op a × (winning tag watched (told op a) ≡ true → false ≡ true)

  pub get_told :
      (e : Entry) (op : Op) (key : List ℕ)
      → AskedAt tag watched e (op.stage) op (Request.get key)
      → Idle e op (record { status = st_ok; etag = tag e.version; value = e.value })
  unfolding Idle AskedAt ToldAt winning ReadFrom
  get_told e op key (inl at) = rw at (tt, λ h. h)
  get_told e op key (inr (at, found)) =
      rw at ((λ ours status. (e.version, refl, omega arith, λ now. refl)), λ h. h)

  pub conflict_told :
      (e : Entry) (op : Op)
      → ((op.stage ≡ Stage.claim) × (op.code ≡ issue))
        ⊎ ((op.stage ≡ Stage.set_generation) × (op.code ≡ invalidate))
        ⊎ (op.stage ≡ Stage.mark)
      → Idle e op (bare st_conflict)
  unfolding Idle ToldAt winning
  conflict_told e op (inl (at, code)) = rw at (code, λ h. h)
  conflict_told e op (inr (inl (at, code))) = rw at (code, λ h. h)
  conflict_told e op (inr (inr at)) = rw at (tt, λ h. h)
