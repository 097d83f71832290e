-- ===== src/Device/Transfers.antt =====
-- crates/daemon/src/device.rs: the registry of transfers, and the shares that start a receive task.
use handfast.Base.{
  ℕ, suc, pos, negsuc, String, Bool, true, false, Option, none, some, List, [], ◌∷◌, ◌==◌,
  if◌then◌else◌, str_eq, lookup, not,
}
use handfast.Json.{is_some, unwrap_or, get_str}
use handfast.Protocol.Packet.{Packet}
use handfast.Device.State.{
  Manager, TransferRecord, Answer, ok, err, unknown_transfer, not_active, transfer_added,
  transfer_finished, transfer_failed, receive, sweep, publish, spawn,
}
use handfast.Transfer.Engine.{unknown_size}

abbrev pub Transfers : Type 0
Transfers = List (ℕ × TransferRecord)

unfoldable pub find_transfer : ℕ → Transfers → Option TransferRecord
find_transfer n [] = none
find_transfer n ((k, r) ∷ ts) = if k == n then some r else find_transfer n ts

-- `transfers.get_mut(id)`
unfoldable pub change : ℕ → (TransferRecord → TransferRecord) → Transfers → Transfers
change n f [] = []
change n f ((k, r) ∷ ts) =
    let rest = change n f ts in if k == n then (k, f r) ∷ ts else (k, r) ∷ rest

abbrev pub finished_record : TransferRecord → TransferRecord
finished_record r = record r { state = "finished"; reason = none }

abbrev pub failed_record : String → TransferRecord → TransferRecord
failed_record why r = record r { state = "failed"; reason = some why }

-- The `filename` of a share header.
unfoldable pub share_name : Packet → String
unfolding get_str unwrap_or
share_name header = unwrap_or (get_str "filename" header.body) "received-file"

-- A negative announced size stands for an unknown one.
unfoldable pub announced_size : Packet → ℕ
announced_size header = elim header.payload_size [
  | none ↦ 0
  | some (pos n) ↦ n
  | some (negsuc _) ↦ unknown_size
]

module _ {P : Type 0} where
  -- The number of a new transfer, and the manager.
  unfoldable pub new_transfer_id : Manager P → ℕ × Manager P
  new_transfer_id m =
      (suc m.next_transfer_seq, record m { next_transfer_seq = suc m.next_transfer_seq })

  unfoldable pub register_transfer : ℕ → String → String → String → ℕ → Manager P → Manager P
  register_transfer n device_id direction file_name total m =
      let added : TransferRecord = record {
        device_id = device_id;
        direction = direction;
        file_name = file_name;
        total = total;
        state = "active";
        done = 0;
        reason = none;
        cancel = false;
      } in
      publish (transfer_added n device_id direction file_name total)
        (record m { transfers = (n, added) ∷ m.transfers })

  unfoldable pub cancel_transfer : ℕ → Manager P → Answer Unit × Manager P
  unfolding find_transfer change
  cancel_transfer n m = elim (find_transfer n m.transfers) [
    | none ↦ (err unknown_transfer, m)
    | some r ↦ if not (str_eq r.state "active") then (err not_active, m) else (
      ok tt,
      record m { transfers = change n (λ r. record r { cancel = true }) m.transfers },
    )
  ]

  -- `none` for success. The engine's sweep of the staging file is a task.
  unfoldable pub on_transfer_outcome : ℕ → Option String → Manager P → Manager P
  unfolding change
  on_transfer_outcome n none m =
      publish (transfer_finished n) (record m { transfers = change n finished_record m.transfers })
  on_transfer_outcome n (some why) m =
      publish (transfer_failed n why)
        (record (spawn (sweep n) m) { transfers = change n (failed_record why) m.transfers })

  unfoldable pub spawn_receive : String → Packet → Bool → Manager P → Manager P
  unfolding lookup share_name announced_size new_transfer_id register_transfer
  spawn_receive id header with_data m =
      if not (is_some (lookup id m.devices))
      then m
      else let size = announced_size header in
        let (n, m1) = new_transfer_id m in
        let total = if size == unknown_size then 0 else size in
        spawn (receive n id (share_name header) size with_data)
          (register_transfer n id "incoming" (share_name header) total m1)

  -- `none` when the data connection is up, or why it could not be made.
  unfoldable pub on_share_payload : String → Packet → Option String → Manager P → Manager P
  unfolding spawn_receive share_name new_transfer_id register_transfer change
  on_share_payload id header none m = spawn_receive id header true m
  on_share_payload id header (some why) m =
      let (n, m1) = new_transfer_id m in
      let m2 = register_transfer n id "incoming" (share_name header) 0 m1 in
      publish (transfer_failed n why)
        (record m2 { transfers = change n (failed_record why) m2.transfers })
