-- ===== src/CarrierAuth/Window.antt =====
-- modules/common/carrier_auth.rs: the window's width and its slots.
use kagi.Base.{
  ℕ, zero, suc, ◌≡◌, refl, sym, ap, ◌∙◌, ◌⊎◌, inl, inr, Bool, true, false, not, ◌||◌, ◌&&◌, some,
  List, [], ◌∷◌, arith, leb, ltb, ◌==◌, ==_iff, if◌then◌else◌, Bool-cases, length, length-set,
  length-replicate, get_elem?, set,
}
use kagi.CarrierAuth.{
  Seen, empty_slot, new_window, replay_id_max, is_nil, expire, was_seen, remember, replayed,
}
use kagi.CarrierAuth.Slots.{
  get_elem?-set, get_elem?-set_here, length-expire, was_seen_held, remember_lem,
}
use kagi.CarrierAuth.Presented.{Presented, after_presented, run_presented, decided}

-- A carrier is in one slot at most.
Single : List Seen → Type 0
Single seen =
    (i j : ℕ) (s t : Seen)
    → get_elem? seen i ≡ some s
    → get_elem? seen j ≡ some t
    → is_nil (s.id) ≡ false
    → s.id ≡ t.id
    → i ≡ j

-- What stands after `expire` and is not empty stood there before.
expire-get_elem? :
    (now : ℕ) (seen : List Seen) (i : ℕ) (slot : Seen)
    → get_elem? (expire now seen) i ≡ some slot
    → is_nil (slot.id) ≡ false
    → get_elem? seen i ≡ some slot
unfolding expire
expire-get_elem? now [] i slot e full = cc
expire-get_elem? now (s ∷ seen) zero slot e full =
    kept (not (is_nil (s.id)) && leb (s.expires_at) now) e
  where
    kept : (b : Bool) → some (if b then empty_slot else s) ≡ some slot → some s ≡ some slot
    kept true e =
        let same : empty_slot ≡ slot = cc in
        let f : true ≡ false = ap (λ t. is_nil (t.id)) same ∙ full in cc
    kept false e = e
expire-get_elem? now (s ∷ seen) (suc i) slot e full = expire-get_elem? now seen i slot e full

expire-Single : (now : ℕ) (seen : List Seen) → Single seen → Single (expire now seen)
unfolding Single
expire-Single now seen single i j s t ei ej full same =
    single i j s t (expire-get_elem? now seen i s ei full)
      (expire-get_elem? now seen j t ej (ap is_nil (sym same) ∙ full)) full same

-- What stands in a slot after a write stood there before, or is what was written.
placed :
    (entry : Seen) (seen : List Seen) (m k : ℕ) (old u : Seen)
    → get_elem? seen m ≡ some old
    → get_elem? (set seen m entry) k ≡ some u
    → ((k ≡ m) × (u ≡ entry)) ⊎ (get_elem? seen k ≡ some u)
placed entry seen m k old u held e = elim (Bool-cases (k == m)) [
  | inl at ↦
      let here : k ≡ m = (==_iff k m).0 at in
      let written : some entry ≡ some u =
        sym (get_elem?-set_here seen m entry held)
        ∙ ap (λ t. get_elem? (set seen m entry) t) (sym here)
        ∙ e in
      inl (here, cc)
  | inr apart ↦ inr (sym (get_elem?-set seen k m entry (λ same. ground arith)) ∙ e)
]

-- What is new to a window is stored in a single slot.
set-Single :
    (entry : Seen) (seen : List Seen) (m : ℕ) (old : Seen)
    → was_seen (entry.id) seen ≡ false
    → get_elem? seen m ≡ some old
    → Single seen
    → Single (set seen m entry)
unfolding Single
set-Single entry seen m old new held single i j s t ei ej full same =
    by_place (placed entry seen m i old s held ei) (placed entry seen m j old t held ej)
  where
    not_new :
        (k : ℕ) (u : Seen) → get_elem? seen k ≡ some u → is_nil (u.id) ≡ false → u.id ≡ entry.id → ⊥
    not_new k u e full' same' =
        let twice : true ≡ false =
          sym (was_seen_held seen k u e full') ∙ ap (λ t. was_seen t seen) same' ∙ new in
        cc

    by_place :
        ((i ≡ m) × (s ≡ entry)) ⊎ (get_elem? seen i ≡ some s)
        → ((j ≡ m) × (t ≡ entry)) ⊎ (get_elem? seen j ≡ some t)
        → i ≡ j
    by_place (inl (at, s_is)) (inl (at', t_is)) = at ∙ sym at'
    by_place (inl (at, s_is)) (inr e) =
        absurd (not_new j t e (ap is_nil (sym same) ∙ full) (sym same ∙ ap (λ u. u.id) s_is))
    by_place (inr e) (inl (at', t_is)) = absurd (not_new i s e full (same ∙ ap (λ u. u.id) t_is))
    by_place (inr e) (inr e') = single i j s t e e' full same

-- The window of an authenticator `n` carriers wide.
pub IsWindow : ℕ → List Seen → Type 0
unfolding Single
IsWindow n seen = (length seen ≡ n) × Single seen

remember-IsWindow :
    (n : ℕ) (entry : Seen) (seen : List Seen)
    → was_seen (entry.id) seen ≡ false
    → IsWindow n seen
    → IsWindow n (remember entry seen)
unfolding IsWindow remember
remember-IsWindow n entry [] new (wide, single) = (wide, single)
remember-IsWindow n entry (s ∷ seen) new (wide, single) =
    let (m, old, held, least, taken) = remember_lem entry s seen in
    rw taken
      (length-set (s ∷ seen) m entry ∙ wide, set-Single entry (s ∷ seen) m old new held single)

decided-IsWindow :
    (n : ℕ) (b c : Bool) (x y z : List Seen)
    → IsWindow n x
    → IsWindow n y
    → (c ≡ false → IsWindow n z)
    → IsWindow n ((decided b c x y z).1)
decided-IsWindow n true c x y z f g h = f
decided-IsWindow n false true x y z f g h = g
decided-IsWindow n false false x y z f g h = h refl

after_presented-IsWindow :
    (n : ℕ) (seen : List Seen) (shown : Presented)
    → IsWindow n seen
    → IsWindow n (after_presented seen shown)
unfolding after_presented replayed IsWindow
after_presented-IsWindow n seen shown window =
    decided-IsWindow n (is_nil (shown.id) || ltb replay_id_max (length (shown.id)))
      (was_seen (shown.id) (expire (shown.now) seen)) seen (expire (shown.now) seen) _ window
      (expired window) (λ new. remember-IsWindow n _ (expire (shown.now) seen) new (expired window))
  where
    expired : IsWindow n seen → IsWindow n (expire (shown.now) seen)
    expired (wide, single) =
        (length-expire (shown.now) seen ∙ wide, expire-Single (shown.now) seen single)

new_window_empty : (n i : ℕ) (s : Seen) → get_elem? (new_window n) i ≡ some s → is_nil (s.id) ≡ true
new_window_empty zero i s e = cc
new_window_empty (suc n) zero s e = let same : empty_slot ≡ s = cc in rw (← same) refl
new_window_empty (suc n) (suc i) s e = new_window_empty n i s e

run_from :
    (n : ℕ) (seen : List Seen) (shown : List Presented)
    → IsWindow n seen
    → IsWindow n (run_presented seen shown)
unfolding run_presented
run_from n seen [] window = window
run_from n seen (s ∷ shown) window =
    run_from n (after_presented seen s) shown (after_presented-IsWindow n seen s window)

-- Whatever carriers are presented to a new authenticator, its window keeps its width and holds no
-- carrier's identifier in two slots.
pub run_presented-IsWindow :
    (n : ℕ) (shown : List Presented) → IsWindow n (run_presented (new_window n) shown)
unfolding IsWindow
run_presented-IsWindow n shown = run_from n (new_window n) shown (
  length-replicate n empty_slot,
  λ i j s t ei ej full same. let both : true ≡ false = sym (new_window_empty n i s ei) ∙ full in cc,
)
