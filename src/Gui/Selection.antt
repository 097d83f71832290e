-- ===== src/Gui/Selection.antt =====
-- The selection of the graphical client points to the card that the user chose, whatever happens to
-- the list of the devices.
use handfast.Base.{
  ℕ, suc, zero, String, false, Option, none, some, List, [], ◌∷◌, ◌≡◌, refl, ap, arith, Bool-cases,
  inl, inr, str_eq, str_eq_iff,
}
use handfast.Gui.Model.{DeviceCard, upsert_card, change_card, remove_card, position_of}

abbrev pub ids : List DeviceCard → List String
ids [] = []
ids (d ∷ ds) = d.id ∷ ids ds

abbrev pub at : ℕ → List String → Option String
at i [] = none
at zero (x ∷ xs) = some x
at (suc i) (x ∷ xs) = at i xs

-- Nothing is selected, or the index is that of a card with the id.
abbrev pub Points : List String → Option ℕ → Option String → Type 0
Points names none none = Unit
Points names none (some id) = ⊥
Points names (some i) none = ⊥
Points names (some i) (some id) = at i names ≡ some id

-- A change of a card that keeps its id.
abbrev pub KeepsId : (DeviceCard → DeviceCard) → Type 0
KeepsId f = (d : DeviceCard) → (f d).id ≡ d.id

pub ids-change :
    (id : String) (f : DeviceCard → DeviceCard) (ds : List DeviceCard)
    → KeepsId f
    → ids (change_card id f ds) ≡ ids ds
unfolding change_card
ids-change id f [] k = refl
ids-change id f (d ∷ ds) k = elim (Bool-cases (str_eq d.id id)) [
  | inl e ↦ rw (e, k d) refl
  | inr e ↦ rw e (ap (◌∷◌ d.id) (ids-change id f ds k))
]

pub at-upsert :
    (i : ℕ) (x : String) (c : DeviceCard) (ds : List DeviceCard)
    → at i (ids ds) ≡ some x
    → at i (ids (upsert_card c ds)) ≡ some x
unfolding upsert_card
at-upsert i x c [] h = cc
at-upsert zero x c (d ∷ ds) h = ground (arith, str_eq_iff d.id c.id)
at-upsert (suc i) x c (d ∷ ds) h = elim (Bool-cases (str_eq d.id c.id)) [
  | inl e ↦ rw e h
  | inr e ↦ rw e (at-upsert i x c ds h)
]

at-remove :
    (i : ℕ) (x lost : String) (ds : List DeviceCard)
    → str_eq x lost ≡ false
    → at i (ids ds) ≡ some x
    → (j : ℕ) × (at j (ids (remove_card lost ds)) ≡ some x)
unfolding remove_card
at-remove i x lost [] n h = cc
at-remove zero x lost (d ∷ ds) n h = (0, ground (arith, str_eq_iff d.id lost, str_eq_iff x lost))
at-remove (suc i) x lost (d ∷ ds) n h = elim (Bool-cases (str_eq d.id lost)) [
  | inl e ↦ (i, rw e h)
  | inr e ↦ let (j, k) = at-remove i x lost ds n h in (suc j, rw e k)
]

position_of-at :
    (i : ℕ) (x : String) (ds : List DeviceCard)
    → at i (ids ds) ≡ some x
    → (j : ℕ) × (position_of x ds ≡ some j) × (at j (ids ds) ≡ some x)
unfolding position_of
position_of-at i x [] h = cc
position_of-at zero x (d ∷ ds) h = (0, ground (arith, str_eq_iff d.id x), h)
position_of-at (suc i) x (d ∷ ds) h = elim (Bool-cases (str_eq d.id x)) [
  | inl e ↦ (0, rw e refl, ap some ((str_eq_iff d.id x).0 e))
  | inr e ↦ let (j, p, k) = position_of-at i x ds h in (suc j, rw (e, p) refl, k)
]

-- The search for the id of the selected card finds it after the loss of another.
pub Points-remove :
    (lost : String) (ds : List DeviceCard) (selected : Option ℕ) (x : String)
    → str_eq x lost ≡ false
    → Points (ids ds) selected (some x)
    → Points (ids (remove_card lost ds)) (position_of x (remove_card lost ds)) (some x)
Points-remove lost ds none x n h = absurd h
Points-remove lost ds (some i) x n h =
    let (j, k) = at-remove i x lost ds n h in
    let (l, p, q) = position_of-at j x (remove_card lost ds) k in rw p q

pub Points-upsert :
    (c : DeviceCard) (ds : List DeviceCard) (selected : Option ℕ) (selected_id : Option String)
    → Points (ids ds) selected selected_id
    → Points (ids (upsert_card c ds)) selected selected_id
Points-upsert c ds none none h = tt
Points-upsert c ds none (some x) h = h
Points-upsert c ds (some i) none h = h
Points-upsert c ds (some i) (some x) h = at-upsert i x c ds h
