-- ===== src/Device/Sending.antt =====
-- crates/daemon/src/device.rs, send_file: a local file is announced to a device. What the file
-- system answers and which ports can be bound is a parameter; a temporary copy of a remote file is named
-- by its path.
pub mod Keeps
pub mod Cleaned
pub mod Registered
pub mod Announced
pub mod Examples
use handfast.Base.{
  ℕ, zero, suc, ℤ, i64_of_bits, ◌%◌, ◌^◌, String, Bool, true, false, not, Option, none, some, List,
  [], ◌∷◌, ◌==◌, if◌then◌else◌, lookup, insert,
}
use handfast.Json.{Value, Fields, number, pos_int, string, object, field, end}
use handfast.Protocol.Types.{type_share}
use handfast.Protocol.Packet.{Packet, new, with_payload}
use handfast.Device.State.{
  DeviceState, Manager, Answer, PairError, Task, upload, transfer_finished, publish, spawn,
  send_out, is_connected, TransferRecord,
}
use handfast.Device.Transfers.{new_transfer_id, register_transfer, change}

pub record FileMeta : Type 0 where
  pub is_file : Bool
  pub len : ℕ
  pub modified_ms : ℕ

-- A file that is at hand: its path, its name, and the temporary copy that it may be.
pub record Source : Type 0 where
  pub local : String
  pub file_name : String
  pub cleanup : Option String

-- What the calls of one send return, `none` for an error: the source of the file, its metadata, the
-- ports that can be bound, and the port that the system chooses.
pub record SendEnv : Type 0 where
  pub source : Option Source
  pub metadata : Option FileMeta
  pub binds : ℕ → Bool
  pub ephemeral : Option ℕ

-- As many ports as `n` from `p` on.
abbrev ports : ℕ → ℕ → List ℕ
ports zero p = []
ports (suc n) p = p ∷ ports n (suc p)

unfoldable pub first_bound : SendEnv → List ℕ → Option ℕ
first_bound env [] = env.ephemeral
first_bound env (p ∷ ps) = let rest = first_bound env ps in if env.binds p then some p else rest

-- crates/daemon/src/payload.rs, `PayloadListener::bind`: the ports 1739 to 1764, and then any.
unfoldable pub bind : SendEnv → Option ℕ
unfolding first_bound
bind env = first_bound env (ports 26 1739)

pub data SendError : Type 0 where
  no_source cannot_stat not_regular unknown offline no_port : SendError
  not_sent : PairError → SendError

pub data SendResult : Type 0 where
  ok : ℕ → SendResult
  err : SendError → SendResult

-- `size as i64`
unfoldable pub as_i64 : ℕ → ℤ
unfolding i64_of_bits
as_i64 size = i64_of_bits (size % 2 ^ 64)

abbrev pub temps : Source → List String
temps src = elim src.cleanup [ none ↦ [] | some tmp ↦ tmp ∷ [] ]

abbrev pub finished_now : TransferRecord → TransferRecord
finished_now r = record r { state = "finished" }

-- The fields that a share header has in any case.
unfoldable pub share_fields : FileMeta → Fields
share_fields meta = field "lastModified" (number (pos_int meta.modified_ms)) (
    field "numberOfFiles" (number (pos_int 1))
      (field "totalPayloadSize" (number (pos_int meta.len)) end))

unfoldable pub empty_header : Source → FileMeta → Value
unfolding share_fields
empty_header src meta = object (field "filename" (string src.file_name) (share_fields meta))

unfoldable pub full_header : Source → FileMeta → Value
unfolding share_fields
full_header src meta = object (
    field "filename" (string src.file_name)
      (field "creationTime" (number (pos_int meta.modified_ms)) (share_fields meta)))

-- The result of a send, the temporary copies that it removed, and the manager.
abbrev pub Sent : Type 0 → Type 0
Sent P = SendResult × List String × Manager P

module _ {P : Type 0} where
  -- The manager after a packet was made and offered to the queue of a device.
  abbrev pub offered : String → DeviceState P → ℕ → Manager P → Manager P
  offered id s counter' m = record m { devices = insert id s m.devices; counter = counter' }

  -- An empty file: a header with no payload, and a transfer that is finished at once.
  unfoldable pub register_empty : Source → String → Manager P → Sent P
  unfolding new_transfer_id register_transfer change
  register_empty src id m =
      let (n, m1) = new_transfer_id m in
      let m2 = register_transfer n id "outgoing" src.file_name 0 m1 in
      (
        ok n,
        [],
        publish (transfer_finished n)
            (record m2 { transfers = change n finished_now m2.transfers }),
      )

  -- After the header was offered.
  unfoldable pub finish_empty : Answer Unit → Source → String → Manager P → Sent P
  unfolding register_empty
  finish_empty (Answer.err e) src id m = (err (not_sent e), [], m)
  finish_empty (Answer.ok _) src id m = register_empty src id m

  unfoldable pub send_empty : Source → FileMeta → String → DeviceState P → Manager P → Sent P
  unfolding new empty_header send_out insert finish_empty
  send_empty src meta id s m =
      let (header, counter') = new m.counter type_share (empty_header src meta) in
      let (answer, s') = send_out header s in
      let m' = offered id s' counter' m in finish_empty answer src id m'

  unfoldable pub register_upload : Source → ℕ → ℕ → String → Manager P → Sent P
  unfolding new_transfer_id register_transfer
  register_upload src size port id m =
      let (n, m1) = new_transfer_id m in
      (
        ok n,
        [],
        spawn (upload n src.local src.cleanup size port)
            (register_transfer n id "outgoing" src.file_name size m1),
      )

  unfoldable pub finish_full : Answer Unit → Source → ℕ → ℕ → String → Manager P → Sent P
  unfolding register_upload
  finish_full (Answer.err e) src size port id m = (err (not_sent e), temps src, m)
  finish_full (Answer.ok _) src size port id m = register_upload src size port id m

  unfoldable pub send_full : Source → FileMeta → ℕ → String → DeviceState P → Manager P → Sent P
  unfolding new full_header with_payload send_out insert finish_full as_i64
  send_full src meta port id s m =
      let (bare, counter') = new m.counter type_share (full_header src meta) in
      let (answer, s') = send_out (with_payload bare (as_i64 meta.len) port) s in
      let m' = offered id s' counter' m in finish_full answer src meta.len port id m'

  unfoldable pub send_regular :
      SendEnv → Source → FileMeta → String → DeviceState P → Manager P → Sent P
  unfolding send_empty send_full bind
  send_regular env src meta id s m =
      if not (is_connected s)
      then (err offline, temps src, m)
      else if meta.len == 0
      then send_empty src meta id s m
      else elim (bind env) [
        | none ↦ (err no_port, [], m)
        | some port ↦ send_full src meta port id s m
      ]

  unfoldable pub send_source : SendEnv → Source → String → Manager P → Sent P
  unfolding lookup send_regular
  send_source env src id m = elim env.metadata [
    | none ↦ (err cannot_stat, temps src, m)
    | some meta ↦
        if not meta.is_file then (err not_regular, temps src, m) else elim (lookup id m.devices) [
          | none ↦ (err unknown, temps src, m)
          | some s ↦ send_regular env src meta id s m
        ]
  ]

  unfoldable pub send_file : SendEnv → String → Manager P → Sent P
  unfolding send_source
  send_file env id m = elim env.source [
    | none ↦ (err no_source, [], m)
    | some src ↦ send_source env src id m
  ]
