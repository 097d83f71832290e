-- ===== src/Protocol/Frame/RoundTrip.antt =====
-- Packets written to a connection are read back, whatever the chunks in which they arrive.
use handfast.Base.{
  ℕ, ◌≤◌, ◌≡◌, refl, ap, ◌∙◌, List, [], ◌∷◌, ◌++◌, some, length, concat, Chunked, Free, All,
  append_assoc, arith,
}
use handfast.Protocol.Types.{max_packet_len}
use handfast.Protocol.Packet.{Packet}
use handfast.Protocol.Frame.{
  Serde, Result, ok, err, ◌>>=◌, Reader, encode_into, parse, read_from, read_all, write_all,
}
use handfast.Protocol.Frame.Reading.{read_frame-Found}

-- What the program relies on in serde_json at a packet: that it parses back from its JSON, and that
-- compact JSON has no newline, which strings escape. Not every packet parses back: serde_json refuses
-- what is nested more than 128 deep, and may round a float.
pub record IsCompact (s : Serde) (p : Packet) : Type 0 where
  pub parses : (json : List ℕ) → s.to_vec p ≡ some json → s.from_slice json ≡ some p
  pub one_line : (json : List ℕ) → s.to_vec p ≡ some json → Free 10 json

pub bind-eq-ok :
    {A B : Type 0} {out : B} (first : Result A) (next : A → Result B)
    → (first >>= next) ≡ ok out
    → (a : A) × (next a ≡ ok out) × (first ≡ ok a)
bind-eq-ok (err e) f h = cc
bind-eq-ok (ok a) f h = (a, h, refl)

module _ (s : Serde) where
  -- The bytes of one frame that was encoded.
  encode_into-ok :
      (p : Packet) (buf frame : List ℕ)
      → encode_into s p buf ≡ ok frame
      → (json : List ℕ) × (s.to_vec p ≡ some json)
        × (length json ≤ max_packet_len)
        × (frame ≡ buf ++ json ++ 10 ∷ [])
  unfolding encode_into
  encode_into-ok p buf frame h = ground arith

  -- One frame is read as its packet.
  pub read_from-encode_into :
      (p : Packet) (frame more : List ℕ) (r : Reader)
      → IsCompact s p
      → encode_into s p [] ≡ ok frame
      → Chunked r
      → concat r ≡ frame ++ more
      → (r' : Reader) × (read_from s r ≡ ok (p, r')) × (concat r' ≡ more) × Chunked r'
  unfolding read_from parse
  read_from-encode_into p frame more r laws h c e =
      let (json, e1, fits, ef) = encode_into-ok p [] frame h in
      let found =
        read_frame-Found json more r (laws.one_line json e1) c fits
          (e ∙ ap (λ f. f ++ more) ef ∙ append_assoc json (10 ∷ []) more) in
      (found.rest, rw (found.returned, laws.parses json e1, parse), found.following, found.chunked)

  -- Packets that serde_json, for each of them, writes on one line and reads back, are read back from the
  -- wire, in order, whatever the chunks in which their frames arrive, and what follows the frames stays
  -- in the reader.
  pub read_all-write_all :
      (ps : List Packet) (bytes more : List ℕ) (r : Reader)
      → All (IsCompact s) ps
      → write_all s ps ≡ ok bytes
      → Chunked r
      → concat r ≡ bytes ++ more
      → (r' : Reader) × (read_all s ps r ≡ ok (ps, r')) × (concat r' ≡ more) × Chunked r'
  unfolding write_all read_all
  read_all-write_all [] bytes more r laws h c e = (r, refl, cc, c)
  read_all-write_all (p ∷ ps) bytes more r laws h c e =
      let (frame, h2, h1) =
        bind-eq-ok (encode_into s p []) (λ frame. write_all s ps >>= λ rest. ok (frame ++ rest))
          h in
      let (rest, h4, h3) = bind-eq-ok (write_all s ps) (λ rest. ok (frame ++ rest)) h2 in
      let eb : bytes ≡ frame ++ rest = cc in
      let (r1, g1, g2, g3) =
        read_from-encode_into p frame (rest ++ more) r laws.0 h1 c
          (e ∙ ap (λ f. f ++ more) eb ∙ append_assoc frame rest more) in
      let (r2, k1, k2, k3) = read_all-write_all ps rest more r1 laws.1 h3 g3 g2 in
      (r2, rw (g1, k1), k2, k3)
