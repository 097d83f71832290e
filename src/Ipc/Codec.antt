-- ===== src/Ipc/Codec.antt =====
-- crates/ipc/src/codec.rs: length-prefixed frames. A stream is the chunks that `read_buf` will yield;
-- an empty chunk, or no chunk left, is the end of the stream. A payload is its JSON bytes.
pub mod Frames
pub mod Pipelined
pub mod Examples
use handfast.Base.{
  ℕ, ◌+◌, ◌*◌, ◌/◌, ◌%◌, List, [], ◌∷◌, ◌++◌, length, take, drop, ltb, leb, if◌then◌else◌,
}

abbrev pub max_frame_bytes : ℕ
max_frame_bytes = 16 * 1024 * 1024

pub data CodecError : Type 0 where
  frame_too_large : ℕ → CodecError
  closed : CodecError

pub data Result {ℓ} (A : Type ℓ) : Type ℓ where
  ok : A → Result A
  err : CodecError → Result A

infixl 5 ◌>>=◌
abbrev pub ◌>>=◌ {ℓ κ} : {A : Type ℓ} {B : Type κ} → Result A → (A → Result B) → Result B
err e >>= f = err e
ok a >>= f = f a

-- `(len as u32).to_le_bytes()`
unfoldable pub to_le_bytes : ℕ → List ℕ
to_le_bytes n = n % 256 ∷ n / 256 % 256 ∷ n / 65536 % 256 ∷ n / 16777216 % 256 ∷ []

-- `u32::from_le_bytes`
abbrev pub from_le_bytes : ℕ → ℕ → ℕ → ℕ → ℕ
from_le_bytes a b c d = a + 256 * b + 65536 * c + 16777216 * d

-- The bytes that `write_frame` puts on the stream.
unfoldable pub write_frame : List ℕ → Result (List ℕ)
unfolding to_le_bytes
write_frame payload =
    if ltb max_frame_bytes (length payload)
    then err (frame_too_large (length payload))
    else ok (to_le_bytes (length payload) ++ payload)

-- What the buffer holds: a frame and the bytes behind it, too large a length, or less than a frame.
pub data Buffered : Type 0 where
  frame : List ℕ → List ℕ → Buffered
  too_large : ℕ → Buffered
  partial : Buffered

-- The head of the loop of `FrameReader::next`, behind the length prefix.
unfoldable pub carve_declared : ℕ → List ℕ → Buffered
carve_declared declared tail =
    if ltb max_frame_bytes declared
    then too_large declared
    else if leb declared (length tail)
    then frame (take declared tail) (drop declared tail)
    else partial

unfoldable pub carve : List ℕ → Buffered
unfolding carve_declared
carve (a ∷ b ∷ c ∷ d ∷ tail) = carve_declared (from_le_bytes a b c d) tail
carve _ = partial

-- A payload, the buffer that is left and the chunks that are left.
abbrev pub Read : Type 0
Read = List ℕ × List ℕ × List (List ℕ)

-- One round: what the buffer gives, or the result of reading on.
unfoldable pub settle : Buffered → List (List ℕ) → Result Read → Result Read
settle (frame payload buf) reads more = ok (payload, buf, reads)
settle (too_large size) reads more = err (frame_too_large size)
settle partial reads more = more

-- `FrameReader::next`
unfoldable pub next : List ℕ → List (List ℕ) → Result Read
unfolding carve settle
next buf [] = settle (carve buf) [] (err closed)
next buf ([] ∷ reads) = settle (carve buf) ([] ∷ reads) (err closed)
next buf ((b ∷ bs) ∷ reads) = settle (carve buf) ((b ∷ bs) ∷ reads) (next (buf ++ b ∷ bs) reads)

-- The frames of several messages, and as many calls of `next`.
unfoldable pub write_all : List (List ℕ) → Result (List ℕ)
unfolding write_frame
write_all [] = ok []
write_all (p ∷ ps) = write_frame p >>= λ bytes. write_all ps >>= λ rest. ok (bytes ++ rest)

unfoldable pub next_all :
    List (List ℕ) → List ℕ → List (List ℕ) → Result (List (List ℕ) × List ℕ × List (List ℕ))
unfolding next
next_all [] buf reads = ok ([], buf, reads)
next_all (_ ∷ ps) buf reads = next buf reads >>= λ out.
    next_all ps out.1 out.2 >>= λ more. ok (out.0 ∷ more.0, more.1, more.2)
