-- ===== src/Device/Sending/Registered.antt =====
-- What a send of a file leaves in the manager when the queue of the device takes its header.
use handfast.Base.{
  ℕ, suc, String, true, false, none, some, [], ◌∷◌, ◌==◌, ◌<◌, lookup, ◌≡◌, ◌≢◌, ◌⊎◌, inl, inr,
  refl, ap, ltb, length, ◌++◌, ◌∙◌, arith, str_eq_iff, Option-cases, Bool-cases,
}
use handfast.Json.{number, pos_int, field, end, get_str, unwrap_or}
use handfast.Protocol.Types.{type_share}
use handfast.Protocol.Packet.{Packet, new, with_payload}
use handfast.Device.State.{
  DeviceState, Manager, Answer, PairError, not_connected, channel_closed, channel_full, Outbound,
  queue_capacity, upload, send_out, try_send, TransferRecord,
}
use handfast.Device.Transfers.{
  Transfers, find_transfer, change, new_transfer_id, register_transfer, share_name,
}
use handfast.Device.Sending.{
  FileMeta, Source, SendEnv, Sent, offered, full_header, empty_header, register_upload,
  register_empty, bind, as_i64, finished_now,
}
use handfast.Device.Invariant.{inserted}

-- What stands in the manager after a send under the number n, for the packet that was offered.
pub record IsAnnounced {P : Type 0} (env : SendEnv) (src : Source) (meta : FileMeta) (id : String)
    (q : Outbound) (m : Manager P) (header : Packet) (n : ℕ) (out : Sent P) : Type 0 where
  pub numbered : n ≡ suc m.next_transfer_seq
  pub kept : out.1 ≡ []
  pub added : TransferRecord
  pub listed : find_transfer n out.2.transfers ≡ some added
  pub of_device : added.device_id ≡ id
  pub of_file : added.file_name ≡ src.file_name
  pub of_size : added.total ≡ meta.len
  pub others : (k : ℕ) → k ≢ n → find_transfer k out.2.transfers ≡ find_transfer k m.transfers
  pub after : DeviceState P
  pub reached : lookup id out.2.devices ≡ some after
  pub queued : after.outbound ≡ some (record q { queue = q.queue ++ header ∷ [] })
  pub shared : header.ptype ≡ type_share
  pub named : share_name header ≡ src.file_name
  pub payload :
      ((meta.len ≡ 0)
        × (added.state ≡ "finished")
        × (header.payload_size ≡ none)
        × (out.2.tasks ≡ m.tasks))
      ⊎ ((port : ℕ) × (meta.len ≢ 0)
          × (bind env ≡ some port)
          × (added.state ≡ "active")
          × (header.payload_size ≡ some (as_i64 meta.len))
          × (header.payload_transfer_info ≡ some (field "port" (number (pos_int port)) end))
          × (out.2.tasks ≡ upload n src.local src.cleanup meta.len port ∷ m.tasks))

find-first : (n : ℕ) (r : TransferRecord) (ts : Transfers) → find_transfer n ((n, r) ∷ ts) ≡ some r
unfolding find_transfer
find-first n r ts = let same : (n == n) ≡ true = ground arith in rw same refl

find-other :
    (n k : ℕ) (r : TransferRecord) (ts : Transfers)
    → k ≢ n
    → find_transfer k ((n, r) ∷ ts) ≡ find_transfer k ts
unfolding find_transfer
find-other n k r ts d = let differs : (n == k) ≡ false = ground arith in rw differs refl

change-first :
    (n : ℕ) (f : TransferRecord → TransferRecord) (r : TransferRecord) (ts : Transfers)
    → change n f ((n, r) ∷ ts) ≡ (n, f r) ∷ ts
unfolding change
change-first n f r ts = let same : (n == n) ≡ true = ground arith in rw same refl

-- The queue of a device takes a packet, or the send fails.
pub record Takes {P : Type 0} (p : Packet) (s : DeviceState P) : Type 0 where
  pub q : Outbound
  pub connected : s.outbound ≡ some q
  pub not_closed : q.closed ≡ false
  pub room : length q.queue < queue_capacity
  pub taken :
      send_out p s
      ≡ (Answer.ok tt, record s { outbound = some (record q { queue = q.queue ++ p ∷ [] }) })

module _ {P : Type 0} where
  pub send_out-cases :
      (p : Packet) (s : DeviceState P)
      → Takes p s ⊎ ((e : PairError) × (s' : DeviceState P) × (send_out p s ≡ (Answer.err e, s')))
  unfolding send_out try_send
  send_out-cases p s = elim (Option-cases s.outbound) [
    | inl g ↦ inr (not_connected, s, simp (g, send_out))
    | inr (q, g) ↦ elim (Bool-cases q.closed) [
      | inl c ↦ inr (channel_closed, record s { outbound = some q }, rw (g, send_out) (simp (c)))
      | inr c ↦ elim (Bool-cases (ltb (length q.queue) queue_capacity)) [
        | inl r ↦ inl (record {
          q = q;
          connected = g;
          not_closed = c;
          room = ground arith;
          taken = rw (g, send_out) (simp (c, r));
        })
        | inr r ↦ inr (channel_full, record s { outbound = some q }, rw (g, send_out) (simp (c, r)))
      ]
    ]
  ]

  abbrev pub Grown : DeviceState P → Outbound → Packet → DeviceState P
  Grown s q p = record s { outbound = some (record q { queue = q.queue ++ p ∷ [] }) }

  pub upload-announced :
      (env : SendEnv) (src : Source) (meta : FileMeta) (port : ℕ) (id : String) (s : DeviceState P)
      (q : Outbound) (m : Manager P)
      → (meta.len == 0) ≡ false
      → bind env ≡ some port
      → IsAnnounced env src meta id q m
          (with_payload (new m.counter type_share (full_header src meta)).0 (as_i64 meta.len) port)
          (suc m.next_transfer_seq)
          (register_upload src meta.len port id (
            offered id
              (Grown s q (
                with_payload
                  (new m.counter type_share (full_header src meta)).0
                  (as_i64 meta.len)
                  port))
              (new m.counter type_share (full_header src meta)).1
              m))
  unfolding register_upload new_transfer_id register_transfer new with_payload full_header
      share_name get_str unwrap_or
  upload-announced env src meta port id s q m z b = record {
    numbered = refl;
    kept = refl;
    added = _;
    listed = find-first (suc m.next_transfer_seq) _ m.transfers;
    of_device = refl;
    of_file = refl;
    of_size = refl;
    others = λ k d. find-other (suc m.next_transfer_seq) k _ m.transfers d;
    after = _;
    reached = inserted id id _ m.devices ((str_eq_iff id id).1 refl);
    queued = refl;
    shared = refl;
    named = refl;
    payload = inr (port, (λ e. ground (arith, z, e)), b, refl, refl, refl, refl);
  }

  pub empty-announced :
      (env : SendEnv) (src : Source) (meta : FileMeta) (id : String) (s : DeviceState P)
      (q : Outbound) (m : Manager P)
      → (meta.len == 0) ≡ true
      → IsAnnounced env src meta id q m
          (new m.counter type_share (empty_header src meta)).0
          (suc m.next_transfer_seq)
          (register_empty src id (
            offered id
              (Grown s q (new m.counter type_share (empty_header src meta)).0)
              (new m.counter type_share (empty_header src meta)).1
              m))
  unfolding register_empty new_transfer_id register_transfer new empty_header share_name get_str
      unwrap_or
  empty-announced env src meta id s q m z =
      let whole = change-first (suc m.next_transfer_seq) finished_now _ m.transfers in
      record {
        numbered = refl;
        kept = refl;
        added = _;
        listed =
            ap (find_transfer (suc m.next_transfer_seq)) whole
            ∙ find-first (suc m.next_transfer_seq) _ m.transfers;
        of_device = refl;
        of_file = refl;
        of_size = ground (arith, z);
        others = λ k d.
            ap (find_transfer k) whole ∙ find-other (suc m.next_transfer_seq) k _ m.transfers d;
        after = _;
        reached = inserted id id _ m.devices ((str_eq_iff id id).1 refl);
        queued = refl;
        shared = refl;
        named = refl;
        payload = inl (ground (arith, z), refl, refl, refl);
      }
