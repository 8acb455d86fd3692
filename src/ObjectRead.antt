-- ===== src/ObjectRead.antt =====
-- modules/common/object_read.rs: a read of an object that may have to wait, held across steps. The
-- provider is a record of its six calls over a state of its own; an answer below zero is an errno.
pub mod Recording
pub mod Handles
pub mod Waiting
mod Examples
use kagi.Base.{ℕ, Bool, Option, none, some, leb, ltb, if◌then◌else◌}
use kagi.Base.Int.{ℤ, pos, negsuc, is_errno}

abbrev pub eagain : ℕ
eagain = 11

abbrev pub enxio : ℕ
enxio = 6

pub data Stage : Type 0 where
  idle head get range : Stage

pub data HeadView : Type 0 where
  size : ℕ → HeadView
  too_weak unreadable : HeadView

-- One ask of the provider: its answer, and the state that it leaves the provider in.
pub record ObjectReads (S : Type 0) : Type 0 where
  pub ask_head : S → ℤ × S
  pub view : ℕ → S → HeadView × S
  pub etag : ℕ → S → Option ℕ × S
  pub open_key : S → ℤ × S
  pub ask_range : ℕ → ℕ → S → ℤ × S
  pub close : ℕ → S → S

pub data Read : Type 0 where
  held : Read
  found : ℕ → Read
  absent weak_view unavailable : Read

-- The statuses of modules/common/auth_wire.rs that a read may be owed.
pub data Status : Type 0 where
  st_ok st_not_found st_unavailable : Status

pub status : Read → Option Status
status Read.held = none
status (Read.found n) = some Status.st_ok
status Read.absent = some Status.st_not_found
status Read.weak_view = some Status.st_unavailable
status Read.unavailable = some Status.st_unavailable

-- A handle is none while the code's is -1.
pub record ObjectRead : Type 0 where
  pub stage : Stage
  pub handle : Option ℕ
  pub want : ℕ

abbrev pub idle_read : ObjectRead
idle_read = record { stage = Stage.idle; handle = none; want = 0 }

abbrev pub start_read : ObjectRead
start_read = record { stage = Stage.head; handle = none; want = 0 }

pub is_live : ObjectRead → Bool
is_live r = elim r.stage [
  | Stage.idle ↦ Bool.false
  | Stage.head ↦ Bool.true
  | Stage.get ↦ Bool.true
  | Stage.range ↦ Bool.true
]

abbrev pub Answered : Type 0 → Type 0
Answered S = Read × ObjectRead × S

module _ {S : Type 0} (p : ObjectReads S) where
  abbrev pub close_held : Option ℕ → S → S
  close_held none s = s
  close_held (some h) s = p.close h s

  -- `ObjectRead::end`
  abbrev pub end_read : ObjectRead → Read → S → Answered S
  end_read r out s = (out, idle_read, close_held r.handle s)

  -- The answer to a `RANGE_GET`.
  abbrev pub range_answered : ObjectRead → ℤ → S → Answered S
  range_answered r (pos got) s =
      if leb got r.want then end_read r (Read.found got) s else end_read r Read.unavailable s
  range_answered r (negsuc n) s =
      if is_errno eagain (negsuc n) then (Read.held, r, s) else end_read r Read.unavailable s

  abbrev pub handle_of : Option ℕ → ℕ
  handle_of none = 0
  handle_of (some h) = h

  pub range_stage : ObjectRead → S → Answered S
  range_stage r s = let (rc, s) = p.ask_range (handle_of r.handle) r.want s in range_answered r rc s

  -- The answer to a `GET`.
  abbrev pub get_answered : ObjectRead → ℤ → S → Answered S
  get_answered r (pos h) s = range_stage (record r { handle = some h; stage = Stage.range }) s
  get_answered r (negsuc n) s =
      if is_errno eagain (negsuc n) then (Read.held, r, s) else end_read r Read.unavailable s

  pub get_stage : ObjectRead → S → Answered S
  unfolding range_stage
  get_stage r s = let (rc, s) = p.open_key s in get_answered r rc s

  abbrev pub viewed : ObjectRead → ℕ → HeadView → S → Answered S
  viewed r cap HeadView.too_weak s = end_read r Read.weak_view s
  viewed r cap HeadView.unreadable s = end_read r Read.unavailable s
  viewed r cap (HeadView.size want) s =
      if leb want cap
      then get_stage (record r { want = want; stage = Stage.get }) s
      else end_read r Read.unavailable s

  -- The answer to a `HEAD`.
  abbrev pub head_answered : ObjectRead → ℕ → ℤ → S → Answered S
  head_answered r cap (pos n) s = let (seen, s) = p.view n s in viewed r cap seen s
  head_answered r cap (negsuc n) s =
      if is_errno eagain (negsuc n)
      then (Read.held, r, s)
      else if is_errno enxio (negsuc n)
      then end_read r Read.absent s
      else end_read r Read.unavailable s

  pub head_stage : ObjectRead → ℕ → S → Answered S
  unfolding get_stage
  head_stage r cap s = let (rc, s) = p.ask_head s in head_answered r cap rc s

  -- `ObjectRead::step`: from the read's stage on, as far as the provider answers.
  abbrev pub from_stage : Stage → ObjectRead → ℕ → S → Answered S
  from_stage Stage.idle r cap s = (Read.unavailable, r, s)
  from_stage Stage.head r cap s = head_stage r cap s
  from_stage Stage.get r cap s = get_stage r s
  from_stage Stage.range r cap s = range_stage r s

  pub step : ObjectRead → ℕ → S → Answered S
  unfolding head_stage get_stage range_stage
  step r cap s = from_stage r.stage r cap s

pub data Etag : Type 0 where
  etag_held : Etag
  etag_found : ℕ → Etag
  etag_none : Etag

module _ {S : Type 0} (p : ObjectReads S) where
  abbrev pub named : Option ℕ × S → Etag × S
  named (none, s) = (Etag.etag_none, s)
  named (some n, s) = (Etag.etag_found n, s)

  abbrev pub etag_answered : ℤ → S → Etag × S
  etag_answered (pos n) s = if ltb 0 n then named (p.etag n s) else (Etag.etag_none, s)
  etag_answered (negsuc n) s =
      if is_errno eagain (negsuc n) then (Etag.etag_held, s) else (Etag.etag_none, s)

  pub etag_after_write : S → Etag × S
  etag_after_write s = let (rc, s) = p.ask_head s in etag_answered rc s
