-- ===== src/Device/Sending/Announced.antt =====
-- What a send of a file that succeeds has told the device, and what it has registered.
use handfast.Base.{
  ℕ, suc, String, true, false, not, Option, none, some, [], ◌==◌, ◌<◌, lookup, ◌≡◌, inl, inr, refl,
  sym, subst, ap, length, arith, if◌then◌else◌, if_cases, Option-cases,
}
use handfast.Protocol.Types.{type_share}
use handfast.Protocol.Packet.{Packet, new, with_payload}
use handfast.Device.State.{DeviceState, Manager, Answer, Outbound, queue_capacity, is_connected}
use handfast.Device.Transfers.{new_transfer_id}
use handfast.Device.Sending.{
  FileMeta, Source, SendEnv, ok, err, unknown, cannot_stat, not_regular, no_source, Sent, send_full,
  send_empty, send_regular, send_source, send_file, offered, finish_full, finish_empty, full_header,
  empty_header, register_upload, register_empty, bind, as_i64, temps,
}
use handfast.Device.Sending.Registered.{
  IsAnnounced, Takes, send_out-cases, upload-announced, empty-announced,
}

-- A send under the number n that went well: what it found, and what it left.
pub record IsSent {P : Type 0} (env : SendEnv) (id : String) (m : Manager P) (n : ℕ) (out : Sent P)
    : Type 0 where
  pub src : Source
  pub fetched : env.source ≡ some src
  pub meta : FileMeta
  pub read : env.metadata ≡ some meta
  pub regular : meta.is_file ≡ true
  pub before : DeviceState P
  pub known : lookup id m.devices ≡ some before
  pub q : Outbound
  pub connected : before.outbound ≡ some q
  pub not_closed : q.closed ≡ false
  pub room : length q.queue < queue_capacity
  pub header : Packet
  pub announced : IsAnnounced env src meta id q m header n out

module _ {P : Type 0} where
  abbrev Claims : SendEnv → String → Manager P → ℕ → Sent P → Type 0
  Claims env id m n out = out.0 ≡ ok n → IsSent env id m n out

  module _ (env : SendEnv) (src : Source) (meta : FileMeta) (id : String) (s : DeviceState P)
      (m : Manager P) (n : ℕ) (fetched : env.source ≡ some src) (read : env.metadata ≡ some meta)
      (regular : meta.is_file ≡ true) (known : lookup id m.devices ≡ some s) where
    sent :
        (header : Packet) (k : ℕ) (out : Sent P) (t : Takes header s)
        → out.0 ≡ ok k
        → IsAnnounced env src meta id t.q m header k out
        → Claims env id m n out
    sent header k out t o a h = record {
      src = src;
      fetched = fetched;
      meta = meta;
      read = read;
      regular = regular;
      before = s;
      known = known;
      q = t.q;
      connected = t.connected;
      not_closed = t.not_closed;
      room = t.room;
      header = header;
      announced =
          let same : k ≡ n = cc in
          subst (λ j. IsAnnounced env src meta id t.q m header j out) same a;
    }

    send_full-Claims :
        (port : ℕ)
        → (meta.len == 0) ≡ false
        → bind env ≡ some port
        → Claims env id m n (send_full src meta port id s m)
    unfolding send_full finish_full register_upload new_transfer_id
    send_full-Claims port z b = elim (send_out-cases header s) [
      | inl t ↦ subst (Claims env id m n) (sym (ap ended t.taken)) (
          sent header (suc m.next_transfer_seq) _ t refl
            (upload-announced env src meta port id s t.q m z b))
      | inr (e, s', f) ↦ subst (Claims env id m n) (sym (ap ended f)) (λ h. absurd (cc))
    ]
      where
        header : Packet
        header =
            with_payload (new m.counter type_share (full_header src meta)).0 (as_i64 meta.len) port

        ended : Answer Unit × DeviceState P → Sent P
        ended r =
            finish_full r.0 src meta.len port id
              (offered id r.1 (new m.counter type_share (full_header src meta)).1 m)

    send_empty-Claims : (meta.len == 0) ≡ true → Claims env id m n (send_empty src meta id s m)
    unfolding send_empty finish_empty register_empty new_transfer_id
    send_empty-Claims z = elim (send_out-cases header s) [
      | inl t ↦ subst (Claims env id m n) (sym (ap ended t.taken)) (
          sent header (suc m.next_transfer_seq) _ t refl
            (empty-announced env src meta id s t.q m z))
      | inr (e, s', f) ↦ subst (Claims env id m n) (sym (ap ended f)) (λ h. absurd (cc))
    ]
      where
        header : Packet
        header = (new m.counter type_share (empty_header src meta)).0

        ended : Answer Unit × DeviceState P → Sent P
        ended r =
            finish_empty r.0 src id
              (offered id r.1 (new m.counter type_share (empty_header src meta)).1 m)

    send_regular-Claims : Claims env id m n (send_regular env src meta id s m)
    unfolding send_regular
    send_regular-Claims =
        if_cases (Claims env id m n) (not (is_connected s)) _ _ (λ _ h. absurd (cc))
          (λ _. if_cases (Claims env id m n) (meta.len == 0) _ _ send_empty-Claims (λ z.
            elim (Option-cases (bind env)) [
              | inl b ↦ rw (b) (λ h. absurd (cc))
              | inr (port, b) ↦ rw (b) (send_full-Claims port z b)
            ]))

  -- A send that returns a number has announced the file: the file was found and is a regular one, and
  -- the device is known, with an open queue that had room. Nothing was removed. The number is the next
  -- one; the transfer stands in the registry under it, with the device, the file's name and its size,
  -- and every other transfer is as it was. The queue of the device has grown by one share header,
  -- in which spawn_receive finds the file's name. If the file is empty, the transfer is finished,
  -- the header announces no payload, and no task was started; else the transfer is active, the header
  -- tells the size, as the source converts it, and the port that was bound, and the upload of that
  -- many bytes at that port was started with the temporary copy.
  pub send_file-announces :
      (env : SendEnv) (id : String) (m : Manager P) (n : ℕ)
      → (send_file env id m).0 ≡ ok n
      → IsSent env id m n (send_file env id m)
  unfolding send_file send_source
  send_file-announces env id m n = elim (Option-cases env.source) [
    | inl e ↦ subst (Claims env id m n) (sym (ap fetched e)) (λ h. absurd (cc))
    | inr (src, e) ↦
        subst (Claims env id m n) (sym (ap fetched e)) (elim (Option-cases env.metadata) [
          | inl f ↦ subst (Claims env id m n) (sym (ap (read src) f)) (λ h. absurd (cc))
          | inr (meta, f) ↦ subst (Claims env id m n) (sym (ap (read src) f)) (
              if_cases (Claims env id m n) (not meta.is_file) _ _ (λ _ h. absurd (cc))
                (λ r. elim (Option-cases (lookup id m.devices)) [
                  | inl l ↦ rw (l) (λ h. absurd (cc))
                  | inr (s, l) ↦
                      rw (l) (send_regular-Claims env src meta id s m n e f (ground arith) l)
                ]))
        ])
  ]
    where
      fetched : Option Source → Sent P
      fetched o = elim o [ none ↦ (err no_source, [], m) | some src ↦ send_source env src id m ]

      read : Source → Option FileMeta → Sent P
      read src o = elim o [
        | none ↦ (err cannot_stat, temps src, m)
        | some meta ↦
            if not meta.is_file
            then (err not_regular, temps src, m)
            else elim (lookup id m.devices) [
              | none ↦ (err unknown, temps src, m)
              | some s ↦ send_regular env src meta id s m
            ]
      ]
