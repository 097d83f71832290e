-- ===== src/Base/Text.antt =====
-- Texts as lists of code points: `str::trim`.
use handfast.Base.Tests.{leb, ◌==◌, if◌then◌else◌}
use Prim.Native.Nat.{ℕ}
use mathlib.Core.Bool.{Bool, ◌&&◌, ◌||◌}
use mathlib.Core.List.{List, [], ◌∷◌}

-- Unicode `White_Space`, as `char::is_whitespace`.
unfoldable pub is_whitespace : ℕ → Bool
is_whitespace c =
    (leb 9 c && leb c 13)
    || c == 32
    || c == 0x85
    || c == 0xA0
    || c == 0x1680
    || (leb 0x2000 c && leb c 0x200A)
    || c == 0x2028
    || c == 0x2029
    || c == 0x202F
    || c == 0x205F
    || c == 0x3000

unfoldable pub trim_start : List ℕ → List ℕ
unfolding is_whitespace
trim_start [] = []
trim_start (c ∷ cs) = let rest = trim_start cs in if is_whitespace c then rest else c ∷ cs

-- A character in front of a text that has no whitespace at its end.
unfoldable pub before : ℕ → List ℕ → List ℕ
unfolding is_whitespace
before c [] = if is_whitespace c then [] else c ∷ []
before c (d ∷ cs) = c ∷ d ∷ cs

unfoldable pub trim_end : List ℕ → List ℕ
unfolding before
trim_end [] = []
trim_end (c ∷ cs) = before c (trim_end cs)

-- `str::trim`
unfoldable pub trim : List ℕ → List ℕ
unfolding trim_start trim_end
trim text = trim_end (trim_start text)
