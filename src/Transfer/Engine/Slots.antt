-- ===== src/Transfer/Engine/Slots.antt =====
-- The names of files, and the search for a free one.
use handfast.Base.{
  ℕ, zero, suc, ◌+◌, ◌-◌, ◌<◌, ◌≡◌, ◌≢◌, ◌↔◌, ◌⊎◌, inl, inr, refl, subst, Bool, true, false, Option,
  none, some, List, [], ◌∷◌, arith, Bool-cases,
}
use handfast.Transfer.Engine.{
  Files, Io, max_name_collisions, name_eq, write_file, taken, stem_extension, candidate,
  try_numbers, free_destination,
}

pub name_eq_iff : (a b : List ℕ) → (name_eq a b ≡ true) ↔ (a ≡ b)
unfolding name_eq
name_eq_iff [] [] = ((λ _. refl), (λ _. refl))
name_eq_iff [] (d ∷ ds) = ((λ h. cc), (λ e. cc))
name_eq_iff (c ∷ cs) [] = ((λ h. cc), (λ e. cc))
name_eq_iff (c ∷ cs) (d ∷ ds) =
    ((λ h. ground (arith, name_eq_iff cs ds)), (λ e. ground (arith, name_eq_iff cs ds)))

pub write_file_self :
    (n : List ℕ) (c : Option (List ℕ)) (files : Files) → write_file n c files n ≡ c
unfolding write_file
write_file_self n c files = rw ((name_eq_iff n n).1 refl)

pub write_file_ne :
    (n m : List ℕ) (c : Option (List ℕ)) (files : Files) → n ≢ m → write_file n c files m ≡ files m
unfolding write_file
write_file_ne n m c files h = ground (arith, name_eq_iff n m)

module _ (sys : Io) (files : Files) (first : List ℕ) (parts : List ℕ × Option (List ℕ)) where
  try_taken :
      (rounds n : ℕ)
      → taken sys files (candidate parts n) ≡ true
      → try_numbers sys files first parts (suc rounds) n
        ≡ try_numbers sys files first parts rounds (suc n)
  unfolding try_numbers
  try_taken rounds n e = rw e

  try_free :
      (rounds n : ℕ)
      → taken sys files (candidate parts n) ≡ false
      → try_numbers sys files first parts (suc rounds) n ≡ candidate parts n
  unfolding try_numbers
  try_free rounds n e = rw e

  -- Where some number is free, the name that is found is free.
  try_numbers-free :
      (rounds n k : ℕ)
      → k < rounds
      → taken sys files (candidate parts (n + k)) ≡ false
      → taken sys files (try_numbers sys files first parts rounds n) ≡ false
  try_numbers-free zero n k l h = absurd (omega arith)
  try_numbers-free (suc rounds) n zero l h =
      let e : taken sys files (candidate parts n) ≡ false =
        rw (let z : n ≡ n + 0 = omega arith in z) h in
      rw (try_free rounds n e) e
  try_numbers-free (suc rounds) n (suc k) l h =
      elim (Bool-cases (taken sys files (candidate parts n))) [
        | inl e ↦ rw (try_taken rounds n e) (
            try_numbers-free rounds (suc n) k (omega arith)
              (subst (λ m. taken sys files (candidate parts m) ≡ false) (omega arith) h))
        | inr e ↦ rw (try_free rounds n e) e
      ]

-- Some name that `finish_receive` may use is free.
abbrev pub HasSlot : Io → Files → List ℕ → Type 0
HasSlot sys files name =
    (taken sys files name ≡ false)
    ⊎ ((n : ℕ) × (0 < n)
        × (n < max_name_collisions)
        × (taken sys files (candidate (stem_extension name) n) ≡ false))

pub plain_free :
    (sys : Io) (files : Files) (name : List ℕ)
    → taken sys files name ≡ false
    → free_destination sys files name ≡ name
unfolding free_destination
plain_free sys files name e = rw e

plain_taken :
    (sys : Io) (files : Files) (name : List ℕ)
    → taken sys files name ≡ true
    → free_destination sys files name
      ≡ try_numbers sys files name (stem_extension name) (max_name_collisions - 1) 1
unfolding free_destination
plain_taken sys files name e = rw e

pub free_destination-free :
    (sys : Io) (files : Files) (name : List ℕ)
    → HasSlot sys files name
    → taken sys files (free_destination sys files name) ≡ false
free_destination-free sys files name h = elim (Bool-cases (taken sys files name)) [
  | inr e ↦ rw (plain_free sys files name e) e
  | inl e ↦ rw (plain_taken sys files name e) (elim h [
    | inl e' ↦ absurd (ne e e')
    | inr (n, p, l, f) ↦
        try_numbers-free sys files name (stem_extension name) (max_name_collisions - 1) 1 (n - 1)
          (omega arith)
          (subst (λ m. taken sys files (candidate (stem_extension name) m) ≡ false) (omega arith) f)
  ])
]
  where
    ne : {b : Bool} → b ≡ true → b ≡ false → ⊥
    ne p q = cc

-- A name that is not taken has no file.
pub free-none :
    (sys : Io) (files : Files) (name : List ℕ) → taken sys files name ≡ false → files name ≡ none
unfolding taken
free-none sys files name h = ground arith

-- A name with no file is not the name of a staging file.
pub none-apart : (files : Files) (p q c : List ℕ) → files p ≡ none → files q ≡ some c → p ≢ q
none-apart files p q c hp hq e = cc
