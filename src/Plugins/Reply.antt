-- ===== src/Plugins/Reply.antt =====
-- What the handlers of the plugins share: replies, and texts of a body.
use handfast.Base.{ℕ, String, List, [], ◌∷◌}
use handfast.Json.{Value, unwrap_or, get_str}
use handfast.Protocol.Packet.{Packet, new}

-- The packets that a handler returns, and the counter of the packet ids behind them.
pub record Reply : Type 0 where
  pub packets : List Packet
  pub counter : ℕ

-- A plugin's state after a packet, and its reply.
abbrev pub Handled : Type 0 → Type 0
Handled S = S × Reply

-- `Vec::new()`
abbrev pub silent : ℕ → Reply
silent counter = record { packets = []; counter = counter }

-- `vec![Packet::new(ptype, body)]`
unfoldable pub reply_with : String → Value → ℕ → Reply
unfolding new
reply_with ptype body counter = record {
  packets = (new counter ptype body).0 ∷ [];
  counter = (new counter ptype body).1;
}

-- `body.get(key).and_then(Value::as_str).unwrap_or("")`
unfoldable pub text_or_empty : String → Value → String
unfolding get_str unwrap_or
text_or_empty key body = unwrap_or (get_str key body) ""
