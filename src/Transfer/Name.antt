-- ===== src/Transfer/Name.antt =====
-- crates/daemon/src/transfer.rs: peer-supplied file names. A name is the list of its code points.
pub mod Safety
pub mod Kept
use handfast.Base.{
  ℕ, suc, Bool, true, false, not, ◌&&◌, ◌||◌, Option, none, some, List, [], ◌∷◌, map, take, ltb,
  ◌==◌, if◌then◌else◌,
}

abbrev pub max_file_name_len : ℕ
max_file_name_len = 240

-- "received-file"
abbrev pub fallback_name : List ℕ
fallback_name = 114 ∷ 101 ∷ 99 ∷ 101 ∷ 105 ∷ 118 ∷ 101 ∷ 100 ∷ 45 ∷ 102 ∷ 105 ∷ 108 ∷ 101 ∷ []

-- '/' and '\'
abbrev pub is_separator : ℕ → Bool
is_separator c = c == 47 || c == 92

-- A segment that grows at its front.
unfoldable pub extend : ℕ → List (List ℕ) → List (List ℕ)
extend c [] = (c ∷ []) ∷ []
extend c (s ∷ rest) = (c ∷ s) ∷ rest

-- `raw.split(['/', '\\'])`
unfoldable pub split : List ℕ → List (List ℕ)
unfolding extend
split [] = [] ∷ []
split (c ∷ cs) = let rest = split cs in if is_separator c then [] ∷ rest else extend c rest

-- Not "", "." or "..".
unfoldable pub is_usable : List ℕ → Bool
is_usable [] = false
is_usable (c ∷ []) = not (c == 46)
is_usable (c ∷ d ∷ []) = not (c == 46 && d == 46)
is_usable _ = true

-- The loop over the segments: the last usable one.
unfoldable pub pick : Option (List ℕ) → List (List ℕ) → Option (List ℕ)
unfolding is_usable
pick picked [] = picked
pick picked (s ∷ rest) = pick (if is_usable s then some s else picked) rest

-- `< > : " | ? *`
unfoldable pub is_hostile : ℕ → Bool
is_hostile c = c == 60 || c == 62 || c == 58 || c == 34 || c == 124 || c == 63 || c == 42

-- The `map` over the characters: '_' for a hostile one and for a control byte.
unfoldable pub clean : ℕ → ℕ
unfolding is_hostile
clean c = if is_hostile c then 95 else if ltb c 0x20 || c == 0x7f then 95 else c

abbrev pub is_trailing : ℕ → Bool
is_trailing c = c == 46 || c == 32

-- One character in front of what `trim_end` left.
unfoldable pub keep : ℕ → List ℕ → List ℕ
keep c [] = if is_trailing c then [] else c ∷ []
keep c (d ∷ rest) = c ∷ d ∷ rest

-- `trim_end_matches(['.', ' '])`
unfoldable pub trim_end : List ℕ → List ℕ
unfolding keep
trim_end [] = []
trim_end (c ∷ cs) = keep c (trim_end cs)

abbrev pub or_fallback : List ℕ → List ℕ
or_fallback [] = fallback_name
or_fallback (c ∷ cs) = c ∷ cs

abbrev pub unwrap_name : Option (List ℕ) → List ℕ
unwrap_name none = fallback_name
unwrap_name (some s) = s

unfoldable pub sanitize_file_name : List ℕ → List ℕ
unfolding split pick clean trim_end
sanitize_file_name raw =
    or_fallback
      (take max_file_name_len (trim_end (map clean (unwrap_name (pick none (split raw))))))
