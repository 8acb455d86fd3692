-- ===== src/CarrierAuth/Presented.antt =====
-- modules/common/carrier_auth.rs: a carrier that is presented again.
use kagi.Base.{
  ℕ, suc, ◌≤◌, ◌<◌, ◌≡◌, refl, ap, ◌∙◌, ◌≢◌, inl, inr, Bool, true, false, ◌||◌, ◌&&◌, some, List,
  [], ◌∷◌, arith, ltb, ltb→lt, if◌then◌else◌, Bool-cases, length, get_elem?,
}
use kagi.CarrierAuth.{Seen, replay_id_max, is_nil, expire, was_seen, slot_key, remember, replayed}
use kagi.CarrierAuth.Slots.{
  get_elem?-set, get_elem?-set_here, get_elem?-expire, length-expire, was_seen_held, remember_lem,
}

-- A carrier presented: its replay identifier, its expiry, and the time.
pub record Presented : Type 0 where
  pub id : List ℕ
  pub expires_at : ℕ
  pub now : ℕ

unfoldable pub after_presented : List Seen → Presented → List Seen
unfolding replayed
after_presented seen shown = (replayed seen (shown.id) (shown.expires_at) (shown.now)).1

unfoldable pub run_presented : List Seen → List Presented → List Seen
unfolding after_presented
run_presented seen [] = seen
run_presented seen (shown ∷ rest) = run_presented (after_presented seen shown) rest

-- Some slot is empty or expires before `e`.
pub has_room : ℕ → List Seen → Bool
has_room e [] = false
has_room e (slot ∷ seen) = ltb (slot_key slot) e || has_room e seen

-- Every carrier is presented before `e`, to a window that has room.
unfoldable pub is_roomy : ℕ → List Seen → List Presented → Bool
unfolding has_room after_presented
is_roomy e seen [] = true
is_roomy e seen (shown ∷ rest) =
    ltb (shown.now) e
    && has_room e (expire (shown.now) seen)
    && is_roomy e (after_presented seen shown) rest

room_at :
    (e : ℕ) (seen : List Seen)
    → has_room e seen ≡ true
    → (k : ℕ) × (t : Seen) × (get_elem? seen k ≡ some t) × (slot_key t < e)
unfolding has_room
room_at e [] h = cc
room_at e (slot ∷ seen) h = elim (Bool-cases (ltb (slot_key slot) e)) [
  | inl here ↦ (0, slot, refl, ltb→lt (slot_key slot) e here)
  | inr later ↦ let (k, t, at, low) = room_at e seen (ground (arith, later)) in (suc k, t, at, low)
]

pub Holds : Seen → List Seen → Type 0
Holds slot seen = (i : ℕ) × (get_elem? seen i ≡ some slot)

key_of : (slot : Seen) → is_nil (slot.id) ≡ false → slot_key slot ≡ slot.expires_at
key_of slot full = rw full refl

-- An entry that expires later than some other is not the one that is given up.
remember-Holds :
    (slot entry : Seen) (seen : List Seen)
    → is_nil (slot.id) ≡ false
    → has_room (slot.expires_at) seen ≡ true
    → Holds slot seen
    → Holds slot (remember entry seen)
unfolding Holds
remember-Holds slot entry [] full room (i, at) = cc
remember-Holds slot entry (s ∷ seen) full room (i, at) =
    let (m, old, held, least, taken) = remember_lem entry s seen in
    let (k, t, there, low) = room_at (slot.expires_at) (s ∷ seen) room in
    let apart : i ≢ m = λ e.
      let same : slot ≡ old = cc in
      let le = least k t there in
      absurd (omega (arith, le, low, ap slot_key same, key_of slot full)) in
    (i, rw taken (get_elem?-set (s ∷ seen) i m entry apart ∙ at))

abbrev pub decided : Bool → Bool → List Seen → List Seen → List Seen → Bool × List Seen
decided b c x y z = if b then (true, x) else if c then (true, y) else (false, z)

pub if_answer :
    (P : Bool × List Seen → Type 0) (b c : Bool) (x y z : List Seen)
    → P (true, x)
    → P (true, y)
    → P (false, z)
    → P (decided b c x y z)
if_answer P true c x y z f g h = f
if_answer P false true x y z f g h = g
if_answer P false false x y z f g h = h

after_presented-Holds :
    (slot : Seen) (seen : List Seen) (shown : Presented)
    → is_nil (slot.id) ≡ false
    → shown.now < slot.expires_at
    → has_room (slot.expires_at) (expire (shown.now) seen) ≡ true
    → Holds slot seen
    → Holds slot (after_presented seen shown)
unfolding after_presented replayed Holds
after_presented-Holds slot seen shown full live room (i, at) =
    let stays = get_elem?-expire (shown.now) seen i slot at live in
    if_answer (λ t. Holds slot (t.1)) (is_nil (shown.id) || ltb replay_id_max (length (shown.id)))
      (was_seen (shown.id) (expire (shown.now) seen)) _ _ _ (i, at) (i, stays)
      (remember-Holds slot _ (expire (shown.now) seen) full room (i, stays))

run_presented-Holds :
    (slot : Seen) (seen : List Seen) (shown : List Presented)
    → is_nil (slot.id) ≡ false
    → is_roomy (slot.expires_at) seen shown ≡ true
    → Holds slot seen
    → Holds slot (run_presented seen shown)
unfolding run_presented is_roomy
run_presented-Holds slot seen [] full room held = held
run_presented-Holds slot seen (s ∷ shown) full room held =
    let (first, later) =
      both (ltb (s.now) (slot.expires_at) && has_room (slot.expires_at) (expire (s.now) seen))
        (is_roomy (slot.expires_at) (after_presented seen s) shown) room in
    let (now, here) =
      both (ltb (s.now) (slot.expires_at)) (has_room (slot.expires_at) (expire (s.now) seen))
        first in
    run_presented-Holds slot (after_presented seen s) shown full later
      (after_presented-Holds slot seen s full (ltb→lt (s.now) (slot.expires_at) now) here held)
  where
    both : (b c : Bool) → (b && c) ≡ true → (b ≡ true) × (c ≡ true)
    both true c e = (refl, e)
    both false c e = cc

held-replayed :
    (slot : Seen) (seen : List Seen) (expires_at now : ℕ)
    → is_nil (slot.id) ≡ false
    → now < slot.expires_at
    → Holds slot seen
    → (replayed seen (slot.id) expires_at now).0 ≡ true
unfolding replayed Holds
held-replayed slot seen expires_at now full live (i, at) =
    rw (was_seen_held (expire now seen) i slot (get_elem?-expire now seen i slot at live) full) (
      either_true (is_nil (slot.id) || ltb replay_id_max (length (slot.id))) seen (expire now seen)
        (remember (record { id = slot.id; expires_at = expires_at }) (expire now seen)))
  where
    either_true : (b : Bool) (x y z : List Seen) → (decided b true x y z).0 ≡ true
    either_true true x y z = refl
    either_true false x y z = refl

remembered : (entry : Seen) (seen : List Seen) → 1 ≤ length seen → Holds entry (remember entry seen)
unfolding Holds
remembered entry [] wide = absurd (omega arith)
remembered entry (s ∷ seen) wide =
    let (m, old, held, least, taken) = remember_lem entry s seen in
    (m, rw taken (get_elem?-set_here (s ∷ seen) m entry held))

accepted_by :
    (slot : Seen) (n c d : Bool) (x y z : List Seen)
    → Holds slot z
    → (decided (n || c) d x y z).0 ≡ false
    → (n ≡ false) × Holds slot ((decided (n || c) d x y z).1)
accepted_by slot true c d x y z h e = cc
accepted_by slot false true d x y z h e = cc
accepted_by slot false false true x y z h e = cc
accepted_by slot false false false x y z h e = (refl, h)

accepted-Holds :
    (seen : List Seen) (id : List ℕ) (expires_at now : ℕ)
    → 1 ≤ length seen
    → (replayed seen id expires_at now).0 ≡ false
    → (is_nil id ≡ false)
      × Holds (record { id = id; expires_at = expires_at }) ((replayed seen id expires_at now).1)
unfolding replayed
accepted-Holds seen id expires_at now wide e =
    accepted_by (record { id = id; expires_at = expires_at }) (is_nil id)
      (ltb replay_id_max (length id)) (was_seen id (expire now seen)) _ _ _
      (remembered _ (expire now seen) (omega (arith, length-expire now seen))) e

-- A carrier that a window of one slot or more accepted is refused, whatever expiry it then
-- claims, at any time before the expiry it was accepted with, after any further carriers that were
-- each presented before that expiry to a window with an empty slot or one that expires earlier.
pub refused_again :
    (seen : List Seen) (id : List ℕ) (expires_at now : ℕ) (between : List Presented)
    (claimed later : ℕ)
    → 1 ≤ length seen
    → (replayed seen id expires_at now).0 ≡ false
    → is_roomy expires_at ((replayed seen id expires_at now).1) between ≡ true
    → later < expires_at
    → (replayed (run_presented ((replayed seen id expires_at now).1) between) id claimed later).0
      ≡ true
refused_again seen id expires_at now between claimed later wide accepted room live =
    let (full, held) = accepted-Holds seen id expires_at now wide accepted in
    held-replayed (record { id = id; expires_at = expires_at })
      (run_presented ((replayed seen id expires_at now).1) between) claimed later full live
      (run_presented-Holds (record { id = id; expires_at = expires_at })
        ((replayed seen id expires_at now).1) between full room held)
