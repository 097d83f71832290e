-- ===== src/Transfer/Name/Kept.antt =====
-- Names that need no cleaning are kept.
use handfast.Base.{
  ℕ, zero, suc, ◌≤◌, ◌≡◌, refl, ap, ◌∙◌, none, List, [], ◌∷◌, map, take, length, All, arith, true,
}
use handfast.Transfer.Name.{
  max_file_name_len, split, is_usable, pick, clean, keep, trim_end, or_fallback, sanitize_file_name,
  unwrap_name,
}
use handfast.Transfer.Name.Safety.{IsClean, IsBare, EndsPlain, IsSafe}

split-clean : (c : ℕ) (cs : List ℕ) → All IsClean (c ∷ cs) → split (c ∷ cs) ≡ (c ∷ cs) ∷ []
unfolding split
split-clean c [] h = ground arith
split-clean c (d ∷ cs) h = ground (arith, split-clean d cs h.1)

clean-id : (c : ℕ) → IsClean c → clean c ≡ c
unfolding clean
clean-id c h = ground arith

map-clean-id : (cs : List ℕ) → All IsClean cs → map clean cs ≡ cs
map-clean-id [] h = refl
map-clean-id (c ∷ cs) h = cc (clean-id c h.0, map-clean-id cs h.1)

trim_end-id : (cs : List ℕ) → EndsPlain cs → trim_end cs ≡ cs
unfolding trim_end
trim_end-id [] h = refl
trim_end-id (c ∷ []) h = ground arith
trim_end-id (c ∷ d ∷ cs) h = rw (trim_end-id (d ∷ cs) h, keep)

take-id : (n : ℕ) (cs : List ℕ) → length cs ≤ n → take n cs ≡ cs
take-id zero [] h = refl
take-id zero (c ∷ cs) h = absurd (omega arith)
take-id (suc n) [] h = refl
take-id (suc n) (c ∷ cs) h = ap (◌∷◌ c) (take-id n cs (omega arith))

usable-bare : (cs : List ℕ) → IsBare cs → is_usable cs ≡ true
unfolding is_usable
usable-bare [] h = absurd h
usable-bare (c ∷ []) h = ground arith
usable-bare (c ∷ d ∷ []) h = ground arith
usable-bare (c ∷ d ∷ e ∷ cs) h = refl

finish : (c : ℕ) (cs name : List ℕ) → name ≡ c ∷ cs → or_fallback name ≡ c ∷ cs
finish c cs name e = rw e

picked : (c : ℕ) (cs : List ℕ) → IsSafe (c ∷ cs) → unwrap_name (pick none (split (c ∷ cs))) ≡ c ∷ cs
unfolding pick
picked c cs s = rw (split-clean c cs s.clean_chars, pick, usable-bare (c ∷ cs) s.bare)

-- `sanitize_file_name` leaves a safe name that does not end in a dot or a space as it is.
pub sanitize_keeps : (name : List ℕ) → IsSafe name → EndsPlain name → sanitize_file_name name ≡ name
unfolding sanitize_file_name
sanitize_keeps [] s p = absurd s.bare
sanitize_keeps (c ∷ cs) s p = finish c cs _ (
    ap (λ n. take max_file_name_len (trim_end (map clean n))) (picked c cs s)
    ∙ ap (λ n. take max_file_name_len (trim_end n)) (map-clean-id (c ∷ cs) s.clean_chars)
    ∙ ap (take max_file_name_len) (trim_end-id (c ∷ cs) p)
    ∙ take-id max_file_name_len (c ∷ cs) s.short)
