-- ===== src/Base/Bytes.antt =====
-- Streams of chunks, and the search for a byte.
use Prim.Native.Nat.{ℕ, suc, ◌≤◌}
use mathlib.Core.Path.{◌≡◌, refl}
use mathlib.Core.Logic.{◌≢◌, ◌⊎◌, inl, inr}
use mathlib.Core.Option
use mathlib.Core.Option.{Option, none, some}
use mathlib.Core.List.{List, [], ◌∷◌, ◌++◌}
use native.Mathlib.Omega.{arith}
use native.Mathlib.Decide.{ℕ_discrete}
use handfast.Base.Tests.{◌==◌, if◌then◌else◌}
use handfast.Base.Lists.{length, All}

-- The bytes of a stream that arrives in chunks.
abbrev pub concat {ℓ} : {A : Type ℓ} → List (List A) → List A
concat [] = []
concat (c ∷ cs) = c ++ concat cs

-- No chunk is empty: a read of no bytes is the end of the stream.
abbrev pub Chunked {ℓ} : {A : Type ℓ} → List (List A) → Type ℓ
Chunked = All (λ c. c ≢ [])

-- `iter().position(|byte| *byte == b)`
unfoldable pub position : ℕ → List ℕ → Option ℕ
position b [] = none
position b (x ∷ xs) = if x == b then some 0 else Option.map suc (position b xs)

abbrev pub Free : ℕ → List ℕ → Type 0
Free b = All (λ x. x ≢ b)

pub Free-append : (b : ℕ) (xs ys : List ℕ) → Free b xs → Free b ys → Free b (xs ++ ys)
Free-append b [] ys p q = q
Free-append b (x ∷ xs) ys p q = (p.0, Free-append b xs ys p.1 q)

pub Free-suffix : (b : ℕ) (xs ys : List ℕ) → Free b (xs ++ ys) → Free b ys
Free-suffix b [] ys p = p
Free-suffix b (x ∷ xs) ys p = Free-suffix b xs ys p.1

pub position-append :
    (b : ℕ) (xs ys : List ℕ) → Free b xs → position b (xs ++ b ∷ ys) ≡ some (length xs)
unfolding position
position-append b [] ys p = ground arith
position-append b (x ∷ xs) ys p = ground (arith, p.0, position-append b xs ys p.1)

pub Free-position : (b : ℕ) (xs : List ℕ) → Free b xs → position b xs ≡ none
unfolding position
Free-position b [] p = refl
Free-position b (x ∷ xs) p = ground (arith, p.0, Free-position b xs p.1)

module _ (b : ℕ) where
  -- The part of a stream before a byte starts with any chunk that has no such byte.
  pub Free-align :
      (c r p m : List ℕ)
      → Free b c
      → c ++ r ≡ p ++ b ∷ m
      → (p' : List ℕ) × (p ≡ c ++ p') × (r ≡ p' ++ b ∷ m)
  Free-align [] r p m f e = (p, refl, e)
  Free-align (x ∷ c) r [] m f e = absurd (f.0 (cc))
  Free-align (x ∷ c) r (y ∷ p) m f e =
      let (p', e1, e2) = Free-align c r p m f.1 (cc) in (p', cc, e2)

  -- The first place of the byte is unique.
  pub first_unique :
      (q t p m : List ℕ) → Free b q → Free b p → q ++ b ∷ t ≡ p ++ b ∷ m → (q ≡ p) × (t ≡ m)
  first_unique [] t [] m f g e = (refl, cc)
  first_unique [] t (y ∷ p) m f g e = absurd (g.0 (cc))
  first_unique (x ∷ q) t [] m f g e = absurd (f.0 (cc))
  first_unique (x ∷ q) t (y ∷ p) m f g e =
      let (e1, e2) = first_unique q t p m f.1 g.1 (cc) in (cc, e2)

  pub Free-or-Cut :
      (xs : List ℕ)
      → Free b xs ⊎ ((before after : List ℕ) × Free b before × (xs ≡ before ++ b ∷ after))
  Free-or-Cut [] = inl tt
  Free-or-Cut (x ∷ xs) = elim (ℕ_discrete x b) [
    | yes e ↦ inr ([], xs, tt, cc)
    | no n ↦ elim (Free-or-Cut xs) [
      | inl f ↦ inl (n, f)
      | inr (q, t, f, e) ↦ inr (x ∷ q, t, (n, f), cc)
    ]
  ]

  -- A part that has no such byte ends before the first one.
  pub Free-length-le : (q u p m : List ℕ) → Free b p → q ++ b ∷ u ≡ p ++ m → length p ≤ length q
  Free-length-le q u [] m f e = omega arith
  Free-length-le [] u (y ∷ p) m f e = absurd (f.0 (cc))
  Free-length-le (x ∷ q) u (y ∷ p) m f e = omega (arith, Free-length-le q u p m f.1 (cc))

pub append-align :
    (c r p m : List ℕ)
    → length c ≤ length p
    → c ++ r ≡ p ++ m
    → (p' : List ℕ) × (p ≡ c ++ p') × (r ≡ p' ++ m)
append-align [] r p m h e = (p, refl, e)
append-align (x ∷ c) r [] m h e = absurd (omega arith)
append-align (x ∷ c) r (y ∷ p) m h e =
    let (p', e1, e2) = append-align c r p m (omega arith) (cc) in (p', cc, e2)

pub Free-prefix : (b : ℕ) (xs ys : List ℕ) → Free b (xs ++ ys) → Free b xs
Free-prefix b [] ys p = tt
Free-prefix b (x ∷ xs) ys p = (p.0, Free-prefix b xs ys p.1)
