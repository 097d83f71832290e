-- ===== src/Protocol/Packet.antt =====
-- crates/protocol/src/packet.rs: the packet, and its constructors and accessors.
-- `NEXT_PACKET_ID` is passed along as the bit pattern of the atomic counter.
pub mod Laws
mod Examples
use handfast.Base.{
  ℕ, ◌^◌, ℤ, pos, i64_of_bits, wrapping_add, String, Bool, false, Option, none, some, ltb, not,
  ◌==◌, if◌then◌else◌,
}
use handfast.Json.{Value, Fields, number, pos_int, end, field, get_field, as_u64, ◌>>=◌}

pub record Packet : Type 0 where
  pub id : ℤ
  pub ptype : String
  pub body : Value
  pub payload_size : Option ℤ
  pub payload_transfer_info : Option Fields

-- `fetch_add(1).wrapping_add(1)`: the id, and the counter afterwards.
unfoldable pub next_packet_id : ℕ → ℤ × ℕ
unfolding i64_of_bits
next_packet_id counter = (i64_of_bits (wrapping_add counter 1), wrapping_add counter 1)

-- `Packet::new`
unfoldable pub new : ℕ → String → Value → Packet × ℕ
unfolding next_packet_id
new counter ptype body =
    let (id, counter') = next_packet_id counter in
    (
      record {
        id = id;
        ptype = ptype;
        body = body;
        payload_size = none;
        payload_transfer_info = none;
      },
      counter',
    )

unfoldable pub with_payload : Packet → ℤ → ℕ → Packet
with_payload p size port = record p {
  payload_size = some size;
  payload_transfer_info = some (field "port" (number (pos_int port)) end);
}

is_zero : ℤ → Bool
is_zero (pos n) = n == 0
is_zero _ = false

unfoldable pub has_payload : Packet → Bool
unfolding is_zero
has_payload p = elim p.payload_size [ none ↦ false | some size ↦ not (is_zero size) ]

-- `u16::try_from`
abbrev u16_try_from : ℕ → Option ℕ
u16_try_from n = if ltb n (2 ^ 16) then some n else none

unfoldable pub payload_transfer_port : Packet → Option ℕ
unfolding get_field as_u64
payload_transfer_port p = p.payload_transfer_info >>= get_field "port" >>= as_u64 >>= u16_try_from
