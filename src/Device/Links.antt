-- ===== src/Device/Links.antt =====
-- crates/daemon/src/device.rs: announcements, connections, and the devices that the store knows.
pub mod Keeps
pub mod Restart
use handfast.Base.{
  ℕ, String, Bool, true, false, Option, none, some, List, [], ◌∷◌, if◌then◌else◌, Assoc, lookup,
  insert, remove, str_eq, not, ◌||◌,
}
use handfast.Json.{◌>>=◌, is_some}
use handfast.Protocol.Types.{proto_version}
use handfast.Device.State.{
  Identity, Outbound, DeviceState, DeviceRow, Event, Manager, Answer, err, closed_during_pairing,
  device_found, device_state_changed, log_record, dial, connection, new_device, is_connected,
  update, publish, spawn,
}
use handfast.Device.Trust.{reply, no_reply, connected, pending_reply}

-- An identity with no capabilities.
abbrev pub shell_identity : String → String → String → Identity
shell_identity id name kind = record {
  device_id = id;
  name = name;
  device_type = kind;
  protocol_version = proto_version;
  incoming = [];
  outgoing = [];
  tcp_source_port = 0;
}

module _ {P : Type 0} where
  -- What an announcement from `ip` does to a device.
  unfoldable pub announced : String → Identity → DeviceState P → DeviceState P
  announced ip i s = record s { identity = i; addr = some (ip, i.tcp_source_port) }

  -- The pinning gate: a paired device presents another certificate.
  unfoldable pub mismatches : String → DeviceState P → Bool
  mismatches fingerprint s = elim s.pinned_fingerprint [
    | none ↦ false
    | some pinned ↦ not (str_eq pinned fingerprint)
  ]

  -- A device whose connection is up, with an empty queue.
  unfoldable pub online : String → DeviceState P → DeviceState P
  online fingerprint s = record s {
    outbound = some (record { queue = []; closed = false });
    live_fingerprint = some fingerprint;
  }

module _ {P : Type 0} (created : List P) where
  -- `entry_for_announcement`: whether to dial, and the manager.
  unfoldable pub entry_for_announcement : String → Identity → Manager P → Bool × Manager P
  unfolding lookup insert announced new_device
  entry_for_announcement ip i m = elim (lookup i.device_id m.devices) [
    | none ↦ (
      true,
      publish (device_found i.device_id i.name) (record m {
        devices = insert i.device_id (announced ip i (new_device created i)) m.devices;
      }),
    )
    | some s ↦ (
      not (is_connected s),
      record m { devices = insert i.device_id (announced ip i s) m.devices },
    )
  ]

  -- `on_announce`: the dialled peer must present the announced id, or no `Connected` follows.
  unfoldable pub on_announce : String → Identity → Manager P → Manager P
  unfolding entry_for_announcement lookup
  on_announce ip i m =
      let (wanted, m') = entry_for_announcement ip i m in
      if not wanted then m' else elim (lookup i.device_id m'.devices >>= λ s. s.addr) [
        | none ↦ m'
        | some addr ↦ spawn (dial addr i.device_id) m'
      ]

  unfoldable pub on_connected : String → String → Manager P → Manager P
  unfolding lookup insert mismatches online new_device
  on_connected id fingerprint m = elim (lookup id m.devices) [
    | some s ↦
        if mismatches fingerprint s
        then publish (log_record "error" id) m
        else publish (device_state_changed id "online") (
            spawn (connection id fingerprint)
              (record m { devices = insert id (online fingerprint s) m.devices }))
    | none ↦ publish (device_found id "unknown") (
        spawn (connection id fingerprint) (record m {
          devices =
              insert id (online fingerprint (new_device created (shell_identity id id "unknown")))
                m.devices;
        }))
  ]

  -- `row.paired.then(|| row.cert_fingerprint.clone())`
  unfoldable pub restored : DeviceRow → DeviceState P
  unfolding new_device
  restored row =
      record (new_device created (shell_identity row.device_id row.name row.device_type)) {
        pinned_fingerprint = if row.paired then some row.cert_fingerprint else none;
      }

  -- The loop of `load_persisted` over the rows of the store.
  unfoldable pub load_rows :
      String → Assoc DeviceRow → Assoc (DeviceState P) → Assoc (DeviceState P)
  unfolding insert restored
  load_rows self_id [] devices = devices
  load_rows self_id ((_, row) ∷ rows) devices = load_rows self_id rows (
      if str_eq row.device_id self_id then devices else insert row.device_id (restored row) devices)

  -- `load_persisted`, with whether it succeeds.
  unfoldable pub load_persisted : String → Manager P → Bool × Manager P
  unfolding load_rows
  load_persisted self_id m =
      if m.store.faulty
      then (false, m)
      else (true, record m { devices = load_rows self_id m.store.rows m.devices })

module _ {P : Type 0} where
  -- A device whose connection is down.
  unfoldable pub offline : DeviceState P → DeviceState P
  offline s = record s { outbound = none; live_fingerprint = none; pending_pair_reply = none }

  -- The caller that waits for the device's answer is told.
  unfoldable pub tell_closed : Option ℕ → Manager P → Manager P
  tell_closed none m = m
  tell_closed (some token) m = reply token (err closed_during_pairing) m

  unfoldable pub on_closed : String → Manager P → Manager P
  unfolding update remove offline tell_closed pending_reply
  on_closed id m = publish (device_state_changed id "offline") (
      tell_closed (pending_reply id m) (record m {
        incoming_pairs = remove id m.incoming_pairs;
        devices = update id offline m.devices;
      }))
