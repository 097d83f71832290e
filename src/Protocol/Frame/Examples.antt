-- ===== src/Protocol/Frame/Examples.antt =====
-- The framing theorems at a concrete stream: a serializer of pings, and two of them in three reads.
use handfast.Base.{
  ℕ, zero, suc, ◌≡◌, refl, ℤ, pos, String, List, [], ◌∷◌, Option, none, some, length, concat, Free,
  Chunked, arith, str_eq, str_eq_iff, Bool-cases, inl, inr, subst, if◌then◌else◌, ap,
}
use handfast.Json.{Value, null, Fields}
use handfast.Protocol.Types.{type_ping}
use handfast.Protocol.Packet.{Packet}
use handfast.Protocol.Frame.{Serde, Reader, ok, read_all, write_all}
use handfast.Protocol.Frame.RoundTrip.{IsCompact, read_all-write_all}

abbrev ones : ℕ → List ℕ
ones zero = []
ones (suc n) = b'1' ∷ ones n

abbrev ping : ℕ → Packet
ping n = record {
  id = pos n;
  ptype = type_ping;
  body = null;
  payload_size = none;
  payload_transfer_info = none;
}

-- Pings with no body, their ids in unary digits: all that the examples send.
abbrev ping_to_vec : ℤ → String → Value → Option ℤ → Option Fields → Option (List ℕ)
ping_to_vec (pos n) t null none none = if str_eq t type_ping then some (ones n) else none
ping_to_vec _ _ _ _ _ = none

abbrev pings : Serde
pings = record {
  to_vec = λ p. ping_to_vec p.id p.ptype p.body p.payload_size p.payload_transfer_info;
  from_slice = λ json. some (ping (length json));
}

ones-Free : (n : ℕ) → Free 10 (ones n)
ones-Free zero = tt
ones-Free (suc n) = (omega arith, ones-Free n)

length-ones : (n : ℕ) → length (ones n) ≡ n
length-ones zero = refl
length-ones (suc n) = ap suc (length-ones n)

ping_to_vec-parses :
    (i : ℤ) (t : String) (b : Value) (s : Option ℤ) (f : Option Fields) (json : List ℕ)
    → ping_to_vec i t b s f ≡ some json
    → Free 10 json
      × (ping (length json)
          ≡ record { id = i; ptype = t; body = b; payload_size = s; payload_transfer_info = f })
ping_to_vec-parses (pos n) t null none none json e = elim (Bool-cases (str_eq t type_ping)) [
  | inl h ↦
      let e' : some (ones n) ≡ some json = rw h at e in
      let ej : ones n ≡ json = cc in
      let et : t ≡ type_ping = (str_eq_iff t type_ping).0 h in
      (subst (Free 10) ej (ones-Free n), rw (← ej, length-ones n, et))
  | inr h ↦ let e' : none ≡ some json = rw h at e in cc
]
ping_to_vec-parses _ _ _ _ _ json e = cc

ping-IsCompact : (n : ℕ) → IsCompact pings (ping n)
ping-IsCompact n = record {
  parses = λ json e. ap some (ping_to_vec-parses (pos n) type_ping null none none json e).1;
  one_line = λ json e. (ping_to_vec-parses (pos n) type_ping null none none json e).0;
}

-- "11\n111\n1" in three chunks, cut inside the second frame.
abbrev wire : Reader
wire = (49 ∷ 49 ∷ 10 ∷ 49 ∷ []) ∷ (49 ∷ []) ∷ (49 ∷ 10 ∷ 49 ∷ []) ∷ []

wire-Chunked : Chunked wire
wire-Chunked = ((λ e. cc), ((λ e. cc), ((λ e. cc), tt)))

frames_written : write_all pings (ping 2 ∷ ping 3 ∷ []) ≡ ok (49 ∷ 49 ∷ 10 ∷ 49 ∷ 49 ∷ 49 ∷ 10 ∷ [])
unfolding write_all
frames_written = refl

read_all-write_all_example :
    (r' : Reader) × (read_all pings (ping 2 ∷ ping 3 ∷ []) wire ≡ ok (ping 2 ∷ ping 3 ∷ [], r'))
    × (concat r' ≡ 49 ∷ [])
    × Chunked r'
read_all-write_all_example =
    read_all-write_all pings (ping 2 ∷ ping 3 ∷ []) (49 ∷ 49 ∷ 10 ∷ 49 ∷ 49 ∷ 49 ∷ 10 ∷ [])
      (49 ∷ []) wire (ping-IsCompact 2, (ping-IsCompact 3, tt)) frames_written wire-Chunked refl
