-- ===== src/Protocol/Packet/Laws.antt =====
-- The packet ids, and the payload announcement.
use handfast.Base.{ℕ, ◌+◌, ◌^◌, ◌<◌, ◌≡◌, ◌≢◌, ◌<ℤ◌, ◌↔◌, true, pos, some, arith}
use handfast.Protocol.Packet.{
  Packet, next_packet_id, with_payload, has_payload, payload_transfer_port,
}

-- Packet ids strictly increase as long as fewer than 2^63 - 1 packets were made.
pub next_packet_id_increases :
    (counter : ℕ)
    → counter + 2 < 2 ^ 63
    → (next_packet_id counter).0 <ℤ (next_packet_id (next_packet_id counter).1).0
unfolding next_packet_id
next_packet_id_increases counter h = ground arith

-- Two different values of the 64-bit counter give different ids, also where the counter has wrapped.
pub next_packet_id_injective :
    (a b : ℕ) → a < 2 ^ 64 → b < 2 ^ 64 → a ≢ b → (next_packet_id a).0 ≢ (next_packet_id b).0
unfolding next_packet_id
next_packet_id_injective a b ha hb n e = n (ground arith)

-- The receiver reads back the announced port, and streams exactly when the size is not zero.
pub with_payload_lem :
    (p : Packet) (size port : ℕ)
    → port < 2 ^ 16
    → (payload_transfer_port (with_payload p (pos size) port) ≡ some port)
      × ((has_payload (with_payload p (pos size) port) ≡ true) ↔ (size ≢ 0))
unfolding payload_transfer_port with_payload has_payload
with_payload_lem p size port h = (ground arith, ((λ e. ground arith), (λ n. ground arith)))
