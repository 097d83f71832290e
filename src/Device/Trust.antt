-- ===== src/Device/Trust.antt =====
-- crates/daemon/src/device.rs: pairing, from the request to the trust row. `now` is the clock, in
-- seconds for the trust rows as for the deadlines.
use handfast.Base.{
  ℕ, ◌+◌, String, Bool, true, false, Option, none, some, ◌∷◌, ltb, if◌then◌else◌, ◌&&◌, lookup,
  insert, remove, str_eq, not,
}
use handfast.Json.{◌>>=◌, is_some, unwrap_or, get_bool}
use handfast.Protocol.Types.{type_pair}
use handfast.Protocol.Packet.{Packet}
use handfast.Device.State.{
  DeviceState, Manager, Answer, ok, err, DeviceRow, not_connected, unknown_device, already_paired,
  no_pending_request, already_expired, device_state_changed, pairing_request, expire_pairing,
  upsert_device, kv_get, is_connected, send_out, update, publish, spawn, send_new, pair_body,
}
use handfast.Protocol.Packet.{new}

abbrev pub incoming_pair_timeout : ℕ
incoming_pair_timeout = 30

-- `if paired { "paired" } else { "unpaired" }`
abbrev pub pair_state : Bool → String
pair_state paired = if paired then "paired" else "unpaired"

module _ {P : Type 0} where
  -- `live_fingerprint.clone().or_else(|| pinned_fingerprint.clone()).unwrap_or_default()`
  unfoldable pub fingerprint_to_pin : DeviceState P → String
  unfolding unwrap_or
  fingerprint_to_pin s = elim s.live_fingerprint [
    | some fp ↦ fp
    | none ↦ unwrap_or s.pinned_fingerprint ""
  ]

  -- The device, and its row in the store.
  unfoldable pub pinned : Bool → DeviceState P → DeviceState P
  unfolding fingerprint_to_pin
  pinned paired s = record s {
    pinned_fingerprint = if paired then some (fingerprint_to_pin s) else none;
  }

  unfoldable pub trust_row : ℕ → String → Bool → DeviceState P → DeviceRow
  unfolding fingerprint_to_pin
  trust_row now id paired s = record {
    device_id = id;
    name = s.identity.name;
    device_type = s.identity.device_type;
    cert_fingerprint = if paired then fingerprint_to_pin s else "";
    paired = paired;
    last_seen = some now;
  }

  unfoldable pub persist_trust : ℕ → String → Bool → Manager P → Manager P
  unfolding lookup insert pinned trust_row upsert_device
  persist_trust now id paired m = elim (lookup id m.devices) [
    | none ↦ m
    | some s ↦ publish (device_state_changed id (pair_state paired)) (record m {
      devices = insert id (pinned paired s) m.devices;
      store = upsert_device (trust_row now id paired s) m.store;
    })
  ]

  abbrev pub reply : ℕ → Answer Bool → Manager P → Manager P
  reply token a m = record m { answers = (token, a) ∷ m.answers }

  -- `pending_pair_reply.take()`
  abbrev pub no_reply : DeviceState P → DeviceState P
  no_reply s = record s { pending_pair_reply = none }

  unfoldable pub connected : String → Manager P → Bool
  unfolding lookup
  connected id m = elim (lookup id m.devices) [ none ↦ false | some s ↦ is_connected s ]

  -- `kv_get("pairing.auto_accept").ok().flatten().is_some_and(|v| v == "1")`
  unfoldable pub auto_accept : Manager P → Bool
  unfolding kv_get
  auto_accept m = elim (kv_get "pairing.auto_accept" m.store) [
    | none ↦ false
    | some v ↦ str_eq v "1"
  ]

  -- `self.devices.get(id).map(|s| s.identity.name.clone()).unwrap_or_default()`
  unfoldable pub name_of : String → Manager P → String
  unfolding lookup
  name_of id m = elim (lookup id m.devices) [ none ↦ "" | some s ↦ s.identity.name ]

  -- The remote wants to pair.
  unfoldable pub incoming_request : ℕ → String → Manager P → Manager P
  unfolding connected auto_accept name_of persist_trust send_new insert
  incoming_request now id m =
      if auto_accept m && connected id m
      then send_new id type_pair (pair_body true) (persist_trust now id true m)
      else if not (connected id m)
      then send_new id type_pair (pair_body false) m
      else spawn (expire_pairing id) (
          publish (pairing_request id (name_of id m)) (record m {
            incoming_pairs = insert id (now + incoming_pair_timeout) m.incoming_pairs;
          }))

  -- The remote revoked the pairing, or declined.
  unfoldable pub revoked : ℕ → String → Manager P → Manager P
  unfolding persist_trust remove
  revoked now id m =
      publish (device_state_changed id "unpaired")
        (persist_trust now id false (record m { incoming_pairs = remove id m.incoming_pairs }))

  -- The answer to a pairing that this side began.
  unfoldable pub answered : ℕ → String → Bool → ℕ → Manager P → Manager P
  unfolding update persist_trust
  answered now id wants_pair token m =
      let m' = reply token (ok wants_pair) (record m { devices = update id no_reply m.devices }) in
      if wants_pair then persist_trust now id true m' else m'

  unfoldable pub pending_reply : String → Manager P → Option ℕ
  unfolding lookup
  pending_reply id m = lookup id m.devices >>= λ s. s.pending_pair_reply

  unfoldable pub on_pair_packet : ℕ → String → Packet → Manager P → Manager P
  unfolding get_bool pending_reply answered incoming_request revoked
  on_pair_packet now id packet m = elim (get_bool "pair" packet.body) [
    | none ↦ m
    | some wants_pair ↦ elim (pending_reply id m) [
      | some token ↦ answered now id wants_pair token m
      | none ↦ if wants_pair then incoming_request now id m else revoked now id m
    ]
  ]

  -- The user's decision on a request that is parked until `deadline`.
  unfoldable pub decide : ℕ → String → Bool → ℕ → Manager P → Answer Unit × Manager P
  unfolding persist_trust send_new
  decide now id accept deadline m = if ltb deadline now then (err already_expired, m) else (
    ok tt,
    publish (device_state_changed id (pair_state accept)) (
        send_new id type_pair (pair_body accept)
          (if accept then persist_trust now id true m else m)),
  )

  unfoldable pub answer_incoming_pairing : ℕ → String → Bool → Manager P → Answer Unit × Manager P
  unfolding lookup remove decide
  answer_incoming_pairing now id accept m = elim (lookup id m.incoming_pairs) [
    | none ↦ (err no_pending_request, m)
    | some deadline ↦
        decide now id accept deadline (record m { incoming_pairs = remove id m.incoming_pairs })
  ]

  -- `Command::PairingTimeout`
  unfoldable pub on_pairing_timeout : String → Manager P → Manager P
  unfolding lookup remove send_new
  on_pairing_timeout id m = elim (lookup id m.incoming_pairs) [
    | none ↦ m
    | some _ ↦
        send_new id type_pair (pair_body false)
          (record m { incoming_pairs = remove id m.incoming_pairs })
  ]

  -- The caller waits for the device, or is told that the request could not be sent.
  unfoldable pub requested : String → ℕ → Answer Unit → DeviceState P → Manager P → Manager P
  unfolding insert
  requested id token (ok _) s m = record m { devices = insert id s m.devices }
  requested id token (err e) s m =
      reply token (err e) (record m { devices = insert id (no_reply s) m.devices })

  -- The request that `begin_pairing` sends.
  unfoldable pub request_pairing : String → ℕ → DeviceState P → Manager P → Manager P
  unfolding new send_out requested
  request_pairing id token s m =
      let (request, counter') = new m.counter type_pair (pair_body true) in
      let (sent, s') = send_out request (record s { pending_pair_reply = some token }) in
      requested id token sent s' (record m { counter = counter' })

  unfoldable pub begin_pairing : String → ℕ → Manager P → Manager P
  unfolding lookup request_pairing
  begin_pairing id token m = elim (lookup id m.devices) [
    | none ↦ reply token (err unknown_device) m
    | some s ↦
        if not (is_connected s)
        then reply token (err not_connected) m
        else if is_some s.pinned_fingerprint
        then reply token (err already_paired) m
        else request_pairing id token s m
  ]

  unfoldable pub unpair : ℕ → String → Manager P → Manager P
  unfolding send_new persist_trust
  unpair now id m = persist_trust now id false (send_new id type_pair (pair_body false) m)
