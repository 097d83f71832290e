-- ===== src/Device/Snapshot/Sorted.antt =====
-- The sort of the lists that a client gets: it keeps the entries, and puts them in order.
use Prim.Native.Nat.{Ordering, compare as compare_nat}
use Prim.Native.Char.{code}
use Prim.Native.String.{compare, then}
use Prim.Native.String.compare as Clause
use mathlib.Core.List.{Perm}
use mathlib.Core.List.Perm
use handfast.Base.{
  ℕ, String, Bool, true, false, List, [], ◌∷◌, map, ◌≡◌, refl, ap, sym, subst, arith, Bool-cases,
  inl, inr,
}
use handfast.Device.Snapshot.{text_le, insert_by, sort_by}

abbrev opposite : Ordering → Ordering
opposite Ordering.lt = Ordering.gt
opposite Ordering.eq = Ordering.eq
opposite Ordering.gt = Ordering.lt

opposite-then : (o p : Ordering) → then (opposite o) (opposite p) ≡ opposite (then o p)
opposite-then Ordering.lt p = refl
opposite-then Ordering.eq p = refl
opposite-then Ordering.gt p = refl

compare_nat-opposite : (m n : ℕ) → compare_nat n m ≡ opposite (compare_nat m n)
compare_nat-opposite m n = ground arith

compare-opposite : (s t : String) → compare t s ≡ opposite (compare s t)
compare-opposite String.[] String.[] = refl
compare-opposite String.[] (String.◌∷◌ d t) = rw (Clause.cons-nil d t, Clause.nil-cons d t) refl
compare-opposite (String.◌∷◌ c s) String.[] = rw (Clause.cons-nil c s, Clause.nil-cons c s) refl
compare-opposite (String.◌∷◌ c s) (String.◌∷◌ d t) =
    rw
      (
        Clause.cons-cons c d s t,
        Clause.cons-cons d c t s,
        compare_nat-opposite (code c) (code d),
        compare-opposite s t,
      )
      (opposite-then (compare_nat (code c) (code d)) (compare s t))

abbrev is_le : Ordering → Bool
is_le Ordering.gt = false
is_le Ordering.lt = true
is_le Ordering.eq = true

opposite_le : (o : Ordering) → is_le o ≡ false → is_le (opposite o) ≡ true
opposite_le Ordering.gt h = refl
opposite_le Ordering.eq h = refl
opposite_le Ordering.lt h = cc

text_le_total : (s t : String) → text_le s t ≡ false → text_le t s ≡ true
text_le_total s t h =
    subst (λ (o : Ordering). is_le o ≡ true) (sym (compare-opposite s t))
      (opposite_le (compare s t) h)

module _ {ℓ} {A : Type ℓ} (key : A → String) where
  -- Each entry is at most the next one, by the order of the keys.
  abbrev pub IsSorted : List A → Type 0
  IsSorted [] = Unit
  IsSorted (x ∷ []) = Unit
  IsSorted (x ∷ y ∷ ys) = (text_le (key x) (key y) ≡ true) × IsSorted (y ∷ ys)

  insert_by-IsSorted : (x : A) (ys : List A) → IsSorted ys → IsSorted (insert_by key x ys)
  unfolding insert_by
  insert_by-IsSorted x [] h = tt
  insert_by-IsSorted x (y ∷ []) h = elim (Bool-cases (text_le (key x) (key y))) [
    | inl e ↦ rw e (e, tt)
    | inr e ↦ rw e (text_le_total (key x) (key y) e, tt)
  ]
  insert_by-IsSorted x (y ∷ z ∷ zs) h =
      let rest = insert_by-IsSorted x (z ∷ zs) h.1 in
      elim (Bool-cases (text_le (key x) (key y))) [
        | inl e ↦ rw e (e, h)
        | inr e ↦ elim (Bool-cases (text_le (key x) (key z))) [
          | inl f ↦ rw (e, f) (text_le_total (key x) (key y) e, (f, h.1))
          | inr f ↦ let r = rw f at rest in rw (e, f) (h.0, r)
        ]
      ]

  pub sort_by-IsSorted : (xs : List A) → IsSorted (sort_by key xs)
  unfolding sort_by
  sort_by-IsSorted [] = tt
  sort_by-IsSorted (x ∷ xs) = insert_by-IsSorted x (sort_by key xs) (sort_by-IsSorted xs)

  insert_by-perm : (x : A) (ys : List A) → Perm (insert_by key x ys) (x ∷ ys)
  unfolding insert_by
  insert_by-perm x [] = Perm.refl (x ∷ [])
  insert_by-perm x (y ∷ ys) = elim (Bool-cases (text_le (key x) (key y))) [
    | inl e ↦ rw e (Perm.refl (x ∷ y ∷ ys))
    | inr e ↦ rw e (Perm.trans (Perm.cons y (insert_by-perm x ys)) (Perm.swap x y ys))
  ]

  pub sort_by-perm : (xs : List A) → Perm (sort_by key xs) xs
  unfolding sort_by
  sort_by-perm [] = Perm.refl []
  sort_by-perm (x ∷ xs) =
      Perm.trans (insert_by-perm x (sort_by key xs)) (Perm.cons x (sort_by-perm xs))

module _ {ℓ κ} {A : Type ℓ} {B : Type κ} (key : B → String) (f : A → B) where
  insert_by-map :
      (x : A) (ys : List A)
      → insert_by key (f x) (map f ys) ≡ map f (insert_by (λ y. key (f y)) x ys)
  unfolding insert_by
  insert_by-map x [] = refl
  insert_by-map x (y ∷ ys) = elim (Bool-cases (text_le (key (f x)) (key (f y)))) [
    | inl e ↦ rw e refl
    | inr e ↦ rw e (ap (◌∷◌ (f y)) (insert_by-map x ys))
  ]

  -- To sort the images is to sort by the keys of the images.
  pub sort_by-map : (xs : List A) → sort_by key (map f xs) ≡ map f (sort_by (λ y. key (f y)) xs)
  unfolding sort_by
  sort_by-map [] = refl
  sort_by-map (x ∷ xs) = rw (sort_by-map xs) (insert_by-map x (sort_by (λ y. key (f y)) xs))
