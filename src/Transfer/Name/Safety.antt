-- ===== src/Transfer/Name/Safety.antt =====
-- A sanitized name is a bare component: it cannot leave the save directory.
use handfast.Base.{
  ℕ, zero, suc, ◌≤◌, ◌≢◌, ◌⊎◌, inl, inr, Option, none, some, List, [], ◌∷◌, map, take, length,
  length-take-le, All, arith, Bool-cases,
}
use handfast.Transfer.Name.{
  max_file_name_len, is_separator, extend, split, is_usable, pick, clean, is_trailing, keep,
  trim_end, or_fallback, unwrap_name, sanitize_file_name,
}

abbrev NoSeparator : ℕ → Type 0
NoSeparator c = (c ≢ 47) × (c ≢ 92)

-- No separator, no control byte, none of the characters that are hostile on Windows.
abbrev pub IsClean : ℕ → Type 0
IsClean c =
    (c ≢ 47)
    × (c ≢ 92)
    × (32 ≤ c)
    × (c ≢ 127)
    × (c ≢ 60)
    × (c ≢ 62)
    × (c ≢ 58)
    × (c ≢ 34)
    × (c ≢ 124)
    × (c ≢ 63)
    × (c ≢ 42)

-- Neither "", "." nor "..".
abbrev pub IsBare : List ℕ → Type 0
IsBare [] = ⊥
IsBare (c ∷ []) = c ≢ 46
IsBare (c ∷ d ∷ []) = (c ≢ 46) ⊎ (d ≢ 46)
IsBare (_ ∷ _ ∷ _ ∷ _) = Unit

pub record IsSafe (name : List ℕ) : Type 0 where
  pub clean_chars : All IsClean name
  pub bare : IsBare name
  pub short : length name ≤ max_file_name_len

extend-All :
    (c : ℕ) (ss : List (List ℕ))
    → NoSeparator c
    → All (All NoSeparator) ss
    → All (All NoSeparator) (extend c ss)
unfolding extend
extend-All c [] h a = ((h, tt), tt)
extend-All c (s ∷ ss) h a = ((h, a.0), a.1)

split-NoSeparator : (cs : List ℕ) → All (All NoSeparator) (split cs)
unfolding split
split-NoSeparator [] = (tt, tt)
split-NoSeparator (c ∷ cs) = elim (Bool-cases (is_separator c)) [
  | inl e ↦ rw e (tt, split-NoSeparator cs)
  | inr e ↦ rw e (extend-All c (split cs) (ground arith) (split-NoSeparator cs))
]

unwrap-pick :
    (p : Option (List ℕ)) (ss : List (List ℕ))
    → All NoSeparator (unwrap_name p)
    → All (All NoSeparator) ss
    → All NoSeparator (unwrap_name (pick p ss))
unfolding pick
unwrap-pick p [] h a = h
unwrap-pick p (s ∷ ss) h a = elim (Bool-cases (is_usable s)) [
  | inl e ↦ rw e (unwrap-pick (some s) ss a.0 a.1)
  | inr e ↦ rw e (unwrap-pick p ss h a.1)
]

clean-IsClean : (c : ℕ) → NoSeparator c → IsClean (clean c)
unfolding clean
clean-IsClean c h = ground arith

map-clean : (cs : List ℕ) → All NoSeparator cs → All IsClean (map clean cs)
map-clean [] h = tt
map-clean (c ∷ cs) h = (clean-IsClean c h.0, map-clean cs h.1)

keep-All : (c : ℕ) (cs : List ℕ) → IsClean c → All IsClean cs → All IsClean (keep c cs)
unfolding keep
keep-All c [] h a = elim (Bool-cases (is_trailing c)) [ inl e ↦ rw e tt | inr e ↦ rw e (h, tt) ]
keep-All c (d ∷ cs) h a = (h, a)

trim_end-All : (cs : List ℕ) → All IsClean cs → All IsClean (trim_end cs)
unfolding trim_end
trim_end-All [] a = tt
trim_end-All (c ∷ cs) a = keep-All c (trim_end cs) a.0 (trim_end-All cs a.1)

take-All : (n : ℕ) (cs : List ℕ) → All IsClean cs → All IsClean (take n cs)
take-All zero cs a = tt
take-All (suc n) [] a = tt
take-All (suc n) (c ∷ cs) a = (a.0, take-All n cs a.1)

-- A text that does not end in a dot or a space.
abbrev pub EndsPlain : List ℕ → Type 0
EndsPlain [] = Unit
EndsPlain (c ∷ []) = (c ≢ 46) × (c ≢ 32)
EndsPlain (c ∷ d ∷ cs) = EndsPlain (d ∷ cs)

keep-EndsPlain : (c : ℕ) (cs : List ℕ) → EndsPlain cs → EndsPlain (keep c cs)
unfolding keep
keep-EndsPlain c [] h = elim (Bool-cases (is_trailing c)) [
  | inl e ↦ rw e tt
  | inr e ↦ rw e (ground arith)
]
keep-EndsPlain c (d ∷ cs) h = h

trim_end-EndsPlain : (cs : List ℕ) → EndsPlain (trim_end cs)
unfolding trim_end
trim_end-EndsPlain [] = tt
trim_end-EndsPlain (c ∷ cs) = keep-EndsPlain c (trim_end cs) (trim_end-EndsPlain cs)

or_fallback-IsSafe :
    (cs : List ℕ) → All IsClean cs → EndsPlain cs → IsSafe (or_fallback (take max_file_name_len cs))
or_fallback-IsSafe [] a p = record { clean_chars = omega arith; bare = tt; short = omega arith }
or_fallback-IsSafe (c ∷ []) a p = record {
  clean_chars = take-All max_file_name_len (c ∷ []) a;
  bare = p.0;
  short = omega arith;
}
or_fallback-IsSafe (c ∷ d ∷ []) a p = record {
  clean_chars = take-All max_file_name_len (c ∷ d ∷ []) a;
  bare = inr p.0;
  short = omega arith;
}
or_fallback-IsSafe (c ∷ d ∷ e ∷ cs) a p = record {
  clean_chars = take-All max_file_name_len (c ∷ d ∷ e ∷ cs) a;
  bare = tt;
  short = length-take-le max_file_name_len (c ∷ d ∷ e ∷ cs);
}

-- Whatever the peer sends, the sanitized name has no separator, control byte or hostile character,
-- is none of "", "." and "..", and has at most `max_file_name_len` characters.
pub sanitize-IsSafe : (raw : List ℕ) → IsSafe (sanitize_file_name raw)
unfolding sanitize_file_name
sanitize-IsSafe raw =
    or_fallback-IsSafe (trim_end (map clean (unwrap_name (pick none (split raw)))))
      (trim_end-All _
        (map-clean _ (unwrap-pick none (split raw) (omega arith) (split-NoSeparator raw))))
      (trim_end-EndsPlain (map clean (unwrap_name (pick none (split raw)))))
