-- ===== src/Device/State.antt =====
-- crates/daemon/src/device.rs: the state of the manager, its events, and the outbound queues; with
-- the device rows of crates/core/src/store.rs and the identities of crates/protocol/src/identity.rs.
-- A transfer id `t{n}` is kept as n, a certificate fingerprint as its hexadecimal text, and a
-- one-shot reply channel as a number that stands for its caller.
use handfast.Base.{
  ℕ, String, Bool, true, false, Option, none, some, List, [], ◌∷◌, ◌++◌, length, ltb, if◌then◌else◌,
  Assoc, lookup, insert, str_eq,
}
use handfast.Json.{is_some}
use handfast.Protocol.Packet.{Packet, new}
use handfast.Json.{Value, bool, object, end, field}

pub record Identity : Type 0 where
  pub device_id : String
  pub name : String
  pub device_type : String
  pub protocol_version : ℕ
  pub incoming : List String
  pub outgoing : List String
  pub tcp_source_port : ℕ

unfoldable pub contains : String → List String → Bool
contains s [] = false
contains s (t ∷ ts) = if str_eq t s then true else contains s ts

-- `Identity::supports_incoming`, and the same of the other list.
unfoldable pub supports_incoming : Identity → String → Bool
unfolding contains
supports_incoming i pkt_type = contains pkt_type i.incoming

unfoldable pub supports_outgoing : Identity → String → Bool
unfolding contains
supports_outgoing i pkt_type = contains pkt_type i.outgoing

-- The sender half of `mpsc::channel(64)`: what the writer task has not taken, and whether that task
-- has ended.
pub record Outbound : Type 0 where
  pub queue : List Packet
  pub closed : Bool

abbrev pub queue_capacity : ℕ
queue_capacity = 64

-- `P` is the plugin instances.
pub record DeviceState (P : Type 0) : Type 0 where
  pub identity : Identity
  pub addr : Option (String × ℕ)
  pub live_fingerprint : Option String
  pub pinned_fingerprint : Option String
  pub outbound : Option Outbound
  pub pending_pair_reply : Option ℕ
  pub plugins : List P

pub data Event : Type 0 where
  device_found : String → String → Event
  device_lost : String → Event
  transfer_progress : ℕ → ℕ → ℕ → Event
  share_received : String → String → Event
  daemon_shutdown : Event
  device_state_changed : String → String → Event
  pairing_request : String → String → Event
  notification_received : String → String → String → String → Event
  clipboard_updated : String → Event
  -- the level, and the device that the message names
  log_record : String → String → Event
  transfer_added : ℕ → String → String → String → ℕ → Event
  transfer_finished : ℕ → Event
  transfer_failed : ℕ → String → Event

-- What the manager spawns.
pub data Task : Type 0 where
  dial : String × ℕ → String → Task
  connection : String → String → Task
  expire_pairing : String → Task
  receive : ℕ → String → String → ℕ → Bool → Task
  sweep : ℕ → Task
  -- the transfer, the local file, the temporary copy, the size and the port
  upload : ℕ → String → Option String → ℕ → ℕ → Task

pub data PairError : Type 0 where
  not_connected channel_full channel_closed unknown_device already_paired closed_during_pairing
        no_pending_request already_expired unknown_transfer not_active :
      PairError

pub data Answer (A : Type 0) : Type 0 where
  ok : A → Answer A
  err : PairError → Answer A

pub record DeviceRow : Type 0 where
  pub device_id : String
  pub name : String
  pub device_type : String
  pub cert_fingerprint : String
  pub paired : Bool
  pub last_seen : Option ℕ

-- The SQLite file; `faulty` when its statements fail.
pub record Store : Type 0 where
  pub rows : Assoc DeviceRow
  pub kv : Assoc String
  pub faulty : Bool

-- `upsert_device`, whose error is only logged.
unfoldable pub upsert_device : DeviceRow → Store → Store
unfolding insert
upsert_device row st =
    if st.faulty then st else record st { rows = insert row.device_id row st.rows }

-- `kv_get(...).ok().flatten()`
unfoldable pub kv_get : String → Store → Option String
unfolding lookup
kv_get key st = if st.faulty then none else lookup key st.kv

pub record TransferRecord : Type 0 where
  pub device_id : String
  pub direction : String
  pub file_name : String
  pub total : ℕ
  pub state : String
  pub done : ℕ
  pub reason : Option String
  pub cancel : Bool

-- What does not change (the own identity, the certificate, the save target) is left out, as is the
-- engine, which has its own state.
pub record Manager (P : Type 0) : Type 0 where
  pub devices : Assoc (DeviceState P)
  pub store : Store
  -- newest first, as `answers` and `tasks`
  pub events : List Event
  pub answers : List (ℕ × Answer Bool)
  pub tasks : List Task
  -- the transfers by number
  pub transfers : List (ℕ × TransferRecord)
  pub next_transfer_seq : ℕ
  pub incoming_pairs : Assoc ℕ
  -- `NEXT_PACKET_ID`
  pub counter : ℕ

-- `try_send` on a queue: the packet is at its end, or lost.
unfoldable pub try_send : Packet → Outbound → Answer Unit × Outbound
try_send p q =
    if q.closed
    then (err channel_closed, q)
    else if ltb (length q.queue) queue_capacity
    then (ok tt, record q { queue = q.queue ++ p ∷ [] })
    else (err channel_full, q)

module _ {P : Type 0} where
  -- `DeviceState::new`, with the instances that the factories create.
  unfoldable pub new_device : List P → Identity → DeviceState P
  new_device created i = record {
    identity = i;
    addr = none;
    live_fingerprint = none;
    pinned_fingerprint = none;
    outbound = none;
    pending_pair_reply = none;
    plugins = created;
  }

  -- `Manager::new`
  unfoldable pub fresh : Store → Manager P
  fresh st = record {
    devices = [];
    store = st;
    events = [];
    answers = [];
    tasks = [];
    transfers = [];
    next_transfer_seq = 0;
    incoming_pairs = [];
    counter = 0;
  }

  abbrev pub is_connected : DeviceState P → Bool
  is_connected s = is_some s.outbound

  unfoldable pub send_out : Packet → DeviceState P → Answer Unit × DeviceState P
  unfolding try_send
  send_out p s = elim s.outbound [
    | none ↦ (err not_connected, s)
    | some q ↦ ((try_send p q).0, record s { outbound = some (try_send p q).1 })
  ]

  -- `devices.get_mut(id)`: what `f` does to the device, if it is there.
  unfoldable pub update :
      String → (DeviceState P → DeviceState P) → Assoc (DeviceState P) → Assoc (DeviceState P)
  unfolding lookup insert
  update id f devices = elim (lookup id devices) [
    | none ↦ devices
    | some s ↦ insert id (f s) devices
  ]

  abbrev pub publish : Event → Manager P → Manager P
  publish e m = record m { events = e ∷ m.events }

  abbrev pub spawn : Task → Manager P → Manager P
  spawn t m = record m { tasks = t ∷ m.tasks }

  -- `if let Some(state) = self.devices.get(id) { let _ = state.send_out(p); }`
  unfoldable pub send_to : String → Packet → Manager P → Manager P
  unfolding send_out update
  send_to id p m = record m { devices = update id (λ s. (send_out p s).1) m.devices }

  -- `Packet::new`, with the counter that the manager carries.
  unfoldable pub send_new : String → String → Value → Manager P → Manager P
  unfolding new send_to
  send_new id ptype body m =
      let (p, counter') = new m.counter ptype body in send_to id p (record m { counter = counter' })

-- `json!({ "pair": b })`
abbrev pub pair_body : Bool → Value
pair_body b = object (field "pair" (bool b) end)
