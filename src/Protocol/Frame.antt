-- ===== src/Protocol/Frame.antt =====
-- crates/protocol/src/packet.rs: newline framing, written and read incrementally.
-- A reader is the chunks that `fill_buf` will yield. serde_json enters as the record `Serde`.
pub mod Reading
pub mod Refusal
pub mod RoundTrip
pub mod Examples
use handfast.Base.{
  ℕ, ◌+◌, suc, List, [], ◌∷◌, ◌++◌, Option, none, some, length, take, drop, position, ltb,
  if◌then◌else◌,
}
use handfast.Protocol.Types.{max_packet_len}
use handfast.Protocol.Packet.{Packet}

pub data FrameError : Type 0 where
  closed truncated oversized malformed : FrameError

pub data Result {ℓ} (A : Type ℓ) : Type ℓ where
  ok : A → Result A
  err : FrameError → Result A

infixl 5 ◌>>=◌
abbrev pub ◌>>=◌ {ℓ κ} : {A : Type ℓ} {B : Type κ} → Result A → (A → Result B) → Result B
err e >>= f = err e
ok a >>= f = f a

abbrev pub Reader : Type 0
Reader = List (List ℕ)

-- The end of the stream, with what was read so far.
unfoldable pub at_eof : List ℕ → FrameError
at_eof [] = closed
at_eof (_ ∷ _) = truncated

-- What is left of the stream when `n` bytes of its first chunk are consumed.
unfoldable pub consume : ℕ → List ℕ → Reader → Reader
consume n chunk rest = elim (drop n chunk) [ [] ↦ rest | b ∷ bs ↦ (b ∷ bs) ∷ rest ]

-- One round of the loop of `Packet::read_frame` on a chunk that is not empty: `line` is what was
-- read before it, and `more` what the next rounds return.
unfoldable pub scan : List ℕ → List ℕ → Reader → Result (List ℕ × Reader) → Result (List ℕ × Reader)
unfolding consume
scan line chunk rest more = elim (position 10 chunk) [
  | some pos ↦
      if ltb max_packet_len (length line + pos)
      then err oversized
      else ok (line ++ take pos chunk, consume (suc pos) chunk rest)
  | none ↦ if ltb max_packet_len (length line + length chunk) then err oversized else more
]

unfoldable pub read_loop : List ℕ → Reader → Result (List ℕ × Reader)
unfolding at_eof scan
read_loop line [] = err (at_eof line)
read_loop line ([] ∷ rest) = err (at_eof line)
read_loop line ((b ∷ bs) ∷ rest) = scan line (b ∷ bs) rest (read_loop (line ++ b ∷ bs) rest)

unfoldable pub read_frame : Reader → Result (List ℕ × Reader)
unfolding read_loop
read_frame r = read_loop [] r

-- `serde_json::to_vec` and `serde_json::from_slice` at packets.
pub record Serde : Type 0 where
  pub to_vec : Packet → Option (List ℕ)
  pub from_slice : List ℕ → Option Packet

module _ (s : Serde) where
  -- `encode_into`, which appends to the buffer.
  unfoldable pub encode_into : Packet → List ℕ → Result (List ℕ)
  encode_into p buf = elim (s.to_vec p) [
    | none ↦ err malformed
    | some json ↦
        if ltb max_packet_len (length json) then err oversized else ok (buf ++ json ++ 10 ∷ [])
  ]

  -- Parsing of one payload.
  unfoldable pub parse : List ℕ → Result Packet
  parse payload = elim (s.from_slice payload) [ none ↦ err malformed | some p ↦ ok p ]

  unfoldable pub read_from : Reader → Result (Packet × Reader)
  unfolding read_frame parse
  read_from r = read_frame r >>= λ out. parse out.0 >>= λ p. ok (p, out.1)

  -- The packets that a connection's writer loop puts on the wire, one after the other.
  unfoldable pub write_all : List Packet → Result (List ℕ)
  unfolding encode_into
  write_all [] = ok []
  write_all (p ∷ ps) = encode_into p [] >>= λ frame. write_all ps >>= λ rest. ok (frame ++ rest)

  -- As many reads by the reader loop.
  unfoldable pub read_all : List Packet → Reader → Result (List Packet × Reader)
  unfolding read_from
  read_all [] r = ok ([], r)
  read_all (_ ∷ ps) r =
      read_from r >>= λ out. read_all ps out.1 >>= λ more. ok (out.0 ∷ more.0, more.1)
