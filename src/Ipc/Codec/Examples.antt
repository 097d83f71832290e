-- ===== src/Ipc/Codec/Examples.antt =====
-- The codec's theorems at concrete streams: two messages in one read, as the daemon writes them.
use handfast.Base.{◌≡◌, refl, ℕ, List, [], ◌∷◌, ◌++◌, concat, arith}
use handfast.Ipc.Codec.{ok, err, frame_too_large, next, write_all, next_all}
use handfast.Ipc.Codec.Frames.{next_refuses_too_large}
use handfast.Ipc.Codec.Pipelined.{next_all-write_all}

abbrev hello : List ℕ
hello = b'h' ∷ b'i' ∷ []

abbrev answer : List ℕ
answer = b'1' ∷ []

abbrev pipelined : List ℕ
pipelined = 2 ∷ 0 ∷ 0 ∷ 0 ∷ b'h' ∷ b'i' ∷ 1 ∷ 0 ∷ 0 ∷ 0 ∷ b'1' ∷ []

pipelined_written : write_all (hello ∷ answer ∷ []) ≡ ok pipelined
unfolding write_all
pipelined_written = refl

next_all-write_all_example :
    (buf' : List ℕ) × (reads' : List (List ℕ)) × (next_all (hello ∷ answer ∷ []) [] (pipelined ∷ [])
      ≡ ok (hello ∷ answer ∷ [], buf', reads'))
    × (buf' ++ concat reads' ≡ [])
next_all-write_all_example =
    next_all-write_all (hello ∷ answer ∷ []) pipelined [] [] (pipelined ∷ []) pipelined_written
      ((λ e. cc), tt) refl

next_refuses_too_large_example :
    next [] ((255 ∷ 255 ∷ 255 ∷ []) ∷ (255 ∷ 7 ∷ []) ∷ []) ≡ err (frame_too_large 4294967295)
next_refuses_too_large_example =
    next_refuses_too_large 255 255 255 255 (7 ∷ []) (omega arith) []
      ((255 ∷ 255 ∷ 255 ∷ []) ∷ (255 ∷ 7 ∷ []) ∷ []) ((λ e. cc), ((λ e. cc), tt)) refl
