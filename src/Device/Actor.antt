-- ===== src/Device/Actor.antt =====
-- crates/daemon/src/device.rs: packets, the dispatch to the plugins, and the loop of the actor.
pub mod History
pub mod Stays
pub mod Consent
use handfast.Base.{
  ℕ, String, Bool, true, false, Option, none, some, List, [], ◌∷◌, ◌++◌, if◌then◌else◌, str_eq,
  lookup, insert, drop, ◌&&◌,
}
use handfast.Json.{Value, is_some, unwrap_or, get, get_str}
use handfast.Protocol.Types.{
  type_identity, type_pair, type_share, type_notification, type_clipboard,
}
use handfast.Protocol.Packet.{Packet}
use handfast.Device.State.{
  Identity, Outbound, DeviceState, Manager, Event, notification_received, clipboard_updated,
  contains, update, publish, send_to,
}
use handfast.Device.Trust.{
  on_pair_packet, answer_incoming_pairing, on_pairing_timeout, begin_pairing, unpair,
}
use handfast.Device.Links.{on_announce, on_connected, on_closed}
use handfast.Device.Sending.{SendEnv, send_file}
use handfast.Device.Transfers.{
  spawn_receive, on_share_payload, cancel_transfer, on_transfer_outcome,
}

-- What the manager uses of a plugin: the packet types of its metadata, and `handle`, with the
-- counter of `Packet::new`.
pub record PluginApi (P : Type 0) : Type 0 where
  pub incoming : P → List String
  pub handle : P → Packet → ℕ → P × List Packet × ℕ
  -- the instances that the factories create
  pub created : List P
  -- `serde_json::from_value::<Identity>`
  pub parse_identity : Value → Option Identity

pub data Command : Type 0 where
  announce : String → Identity → Command
  connected : String → String → Command
  packet_from : String → Packet → Command
  conn_closed : String → Command
  start_pairing : String → ℕ → Command
  unpairs : String → Command
  pairing_answer : String → Bool → Command
  pairing_timeout : String → Command
  cancels : ℕ → Command
  share_payload : String → Packet → Option String → Command
  transfer_outcome : ℕ → Option String → Command
  sends_file : SendEnv → String → Command
  -- `ListDevices` and `ListTransfers`
  lists : Command

abbrev text_of : String → Packet → String
text_of key packet = unwrap_or (get_str key packet.body) ""

module _ {P : Type 0} where
  unfoldable pub emit_side_events : Packet → Manager P → Manager P
  unfolding get_str unwrap_or
  emit_side_events packet m =
      if str_eq packet.ptype type_notification
      then publish
          (notification_received (text_of "id" packet) (text_of "appName" packet)
            (text_of "title" packet) (text_of "text" packet))
          m
      else if str_eq packet.ptype type_clipboard
      then elim (get_str "content" packet.body) [
        | none ↦ m
        | some text ↦ publish (clipboard_updated text) m
      ]
      else m

  unfoldable pub send_replies : String → List Packet → Manager P → Manager P
  unfolding send_to
  send_replies id [] m = m
  send_replies id (p ∷ ps) m = send_replies id ps (send_to id p m)

module _ {P : Type 0} (api : PluginApi P) where
  -- One plugin of the loop of `dispatch_to_plugins`.
  unfoldable pub dispatch_one : Packet → ℕ → P → P × List Packet × ℕ
  unfolding contains
  dispatch_one packet counter p =
      if contains packet.ptype (api.incoming p)
      then api.handle p packet counter
      else (p, [], counter)

  unfoldable pub dispatch_all : Packet → ℕ → List P → List P × List Packet × ℕ
  unfolding dispatch_one
  dispatch_all packet counter [] = ([], [], counter)
  dispatch_all packet counter (p ∷ ps) =
      let (p', out, counter') = dispatch_one packet counter p in
      let (ps', outs, counter'') = dispatch_all packet counter' ps in
      (p' ∷ ps', out ++ outs, counter'')

  unfoldable pub dispatch_to_plugins : String → Packet → Manager P → List Packet × Manager P
  unfolding lookup insert dispatch_all
  dispatch_to_plugins id packet m = elim (lookup id m.devices) [
    | none ↦ ([], m)
    | some s ↦
        let (plugins', replies, counter') = dispatch_all packet m.counter s.plugins in
        (
          replies,
          record m {
            devices = insert id (record s { plugins = plugins' }) m.devices;
            counter = counter';
          },
        )
  ]

  unfoldable pub on_identity : String → Packet → Manager P → Manager P
  unfolding update
  on_identity id packet m = elim (api.parse_identity packet.body) [
    | none ↦ m
    | some i ↦ record m { devices = update id (λ s. record s { identity = i }) m.devices }
  ]

  unfoldable pub route : String → Packet → Manager P → Manager P
  unfolding dispatch_to_plugins emit_side_events send_replies
  route id packet m =
      let (replies, m1) = dispatch_to_plugins id packet m in
      send_replies id replies (emit_side_events packet m1)

  unfoldable pub on_packet : ℕ → String → Packet → Manager P → Manager P
  unfolding on_identity on_pair_packet spawn_receive route get
  on_packet now id packet m =
      if str_eq packet.ptype type_identity
      then on_identity id packet m
      else if str_eq packet.ptype type_pair
      then on_pair_packet now id packet m
      else if str_eq packet.ptype type_share && is_some (get "filename" packet.body)
      then spawn_receive id packet false m
      else route id packet m

  -- One round of `run`. The answers that only report, and the temporary copies that a send removes,
  -- are left out.
  unfoldable pub run_command : ℕ → Command → Manager P → Manager P
  unfolding on_announce on_connected on_packet on_closed begin_pairing unpair
      answer_incoming_pairing on_pairing_timeout cancel_transfer on_share_payload
      on_transfer_outcome send_file
  run_command now (announce ip i) m = on_announce api.created ip i m
  run_command now (connected id fingerprint) m = on_connected api.created id fingerprint m
  run_command now (packet_from id packet) m = on_packet now id packet m
  run_command now (conn_closed id) m = on_closed id m
  run_command now (start_pairing id token) m = begin_pairing id token m
  run_command now (unpairs id) m = unpair now id m
  run_command now (pairing_answer id accept) m = (answer_incoming_pairing now id accept m).1
  run_command now (pairing_timeout id) m = on_pairing_timeout id m
  run_command now (cancels n) m = (cancel_transfer n m).1
  run_command now (share_payload id header why) m = on_share_payload id header why m
  run_command now (transfer_outcome n why) m = on_transfer_outcome n why m
  run_command now (sends_file env id) m = (send_file env id m).2
  run_command now lists m = m

-- The writer task of a connection takes the packet at the front.
unfoldable pub sent : Outbound → Outbound
sent q = record q { queue = drop 1 q.queue }

-- The writer task ends, on a write error.
unfoldable pub write_failed : Outbound → Outbound
write_failed q = record q { closed = true }

module _ {P : Type 0} where
  unfoldable pub at_queue : (Outbound → Outbound) → DeviceState P → DeviceState P
  at_queue f s = elim s.outbound [ none ↦ s | some q ↦ record s { outbound = some (f q) } ]

  unfoldable pub on_queue : (Outbound → Outbound) → String → Manager P → Manager P
  unfolding update at_queue
  on_queue f id m = record m { devices = update id (at_queue f) m.devices }
