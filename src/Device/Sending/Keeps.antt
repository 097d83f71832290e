-- ===== src/Device/Sending/Keeps.antt =====
-- A send of a file changes one device, by a packet that is offered to its queue.
use handfast.Base.{
  ℕ, String, Option, none, some, ◌==◌, ◌≡◌, refl, inl, inr, [], Assoc, lookup, insert, if_cases,
  Option-cases, not, sym, ap, ◌∙◌,
}
use handfast.Protocol.Types.{type_share}
use handfast.Protocol.Packet.{Packet, new, with_payload}
use handfast.Device.State.{DeviceState, Manager, Answer, send_out, is_connected}
use handfast.Device.Transfers.{new_transfer_id, register_transfer}
use handfast.Device.Invariant.{IsSound, IsValid, changed-IsSound, send_out-Harmless}
use handfast.Device.Pins.{pin, pin_of, insert-pin, send_out-KeepsPin}
use handfast.Device.Sending.{
  FileMeta, Source, SendEnv, Sent, err, no_port, bind, offered, empty_header, full_header,
  register_empty, finish_empty, send_empty, register_upload, finish_full, send_full, send_regular,
  send_source, send_file, as_i64,
}

module _ {P : Type 0} (Q : Assoc (DeviceState P) → Assoc ℕ → Type 0) where
  abbrev Holds : Sent P → Type 0
  Holds r = Q r.2.devices r.2.incoming_pairs

  -- What every packet that may be offered to the device keeps.
  abbrev Offers : String → Manager P → Type 0
  Offers id m =
      (p : Packet) (s : DeviceState P)
      → lookup id m.devices ≡ some s
      → Q (insert id (send_out p s).1 m.devices) m.incoming_pairs

  finish_empty-Holds :
      (a : Answer Unit) (src : Source) (id : String) (m : Manager P)
      → Q m.devices m.incoming_pairs
      → Holds (finish_empty a src id m)
  unfolding finish_empty register_empty register_transfer new_transfer_id
  finish_empty-Holds (Answer.err e) src id m h = h
  finish_empty-Holds (Answer.ok _) src id m h = h

  finish_full-Holds :
      (a : Answer Unit) (src : Source) (size port : ℕ) (id : String) (m : Manager P)
      → Q m.devices m.incoming_pairs
      → Holds (finish_full a src size port id m)
  unfolding finish_full register_upload register_transfer new_transfer_id
  finish_full-Holds (Answer.err e) src size port id m h = h
  finish_full-Holds (Answer.ok _) src size port id m h = h

  send_empty-Holds :
      (src : Source) (meta : FileMeta) (id : String) (s : DeviceState P) (m : Manager P)
      → lookup id m.devices ≡ some s
      → Offers id m
      → Holds (send_empty src meta id s m)
  unfolding send_empty
  send_empty-Holds src meta id s m l h =
      let (header, counter') = new m.counter type_share (empty_header src meta) in
      let (answer, s') = send_out header s in
      finish_empty-Holds answer src id (offered id s' counter' m) (h header s l)

  send_full-Holds :
      (src : Source) (meta : FileMeta) (port : ℕ) (id : String) (s : DeviceState P) (m : Manager P)
      → lookup id m.devices ≡ some s
      → Offers id m
      → Holds (send_full src meta port id s m)
  unfolding send_full
  send_full-Holds src meta port id s m l h =
      let (bare, counter') = new m.counter type_share (full_header src meta) in
      let header = with_payload bare (as_i64 meta.len) port in
      let (answer, s') = send_out header s in
      finish_full-Holds answer src meta.len port id (offered id s' counter' m) (h header s l)

  send_regular-Holds :
      (env : SendEnv) (src : Source) (meta : FileMeta) (id : String) (s : DeviceState P)
      (m : Manager P)
      → Q m.devices m.incoming_pairs
      → lookup id m.devices ≡ some s
      → Offers id m
      → Holds (send_regular env src meta id s m)
  unfolding send_regular
  send_regular-Holds env src meta id s m q l h =
      if_cases Holds (not (is_connected s)) _ _ (λ _. q)
        (λ _.
          if_cases Holds (meta.len == 0) _ _ (λ _. send_empty-Holds src meta id s m l h)
            (λ _. ported (bind env)))
    where
      ported :
          (port : Option ℕ)
          → Holds (elim port [ none ↦ (err no_port, [], m) | some p ↦ send_full src meta p id s m ])
      ported none = q
      ported (some p) = send_full-Holds src meta p id s m l h

  pub send_file-Holds :
      (env : SendEnv) (id : String) (m : Manager P)
      → Q m.devices m.incoming_pairs
      → Offers id m
      → Holds (send_file env id m)
  unfolding send_file send_source
  send_file-Holds env id m q h = elim (Option-cases env.source) [
    | inl e ↦ rw (e, send_file) q
    | inr (src, e) ↦ elim (Option-cases env.metadata) [
      | inl f ↦ rw (e, send_file) (rw (f, send_source) q)
      | inr (meta, f) ↦
          rw (e, send_file)
            (rw (f, send_source)
              (if_cases Holds (not meta.is_file) _ _ (λ _. q)
                (λ _. elim (Option-cases (lookup id m.devices)) [
                  | inl l ↦ rw (l) q
                  | inr (s, l) ↦ rw (l) (send_regular-Holds env src meta id s m q l h)
                ])))
    ]
  ]

module _ {P : Type 0} where
  pub send_file-IsValid :
      (env : SendEnv) (id : String) (m : Manager P) → IsValid m → IsValid (send_file env id m).2
  send_file-IsValid env id m v = send_file-Holds IsSound env id m v (λ p s l.
      changed-IsSound id s (λ t. (send_out p t).1) (send_out-Harmless p) m.devices m.incoming_pairs
        v l)

  -- No pinned certificate is touched.
  pub send_file-pin :
      (j : String) (env : SendEnv) (id : String) (m : Manager P)
      → pin_of j (send_file env id m).2 ≡ pin_of j m
  send_file-pin j env id m =
      send_file-Holds (λ devices _. pin (lookup j devices) ≡ pin_of j m) env id m refl
        (λ p s l.
          insert-pin j id (send_out p s).1 m.devices (send_out-KeepsPin p s ∙ sym (ap pin l)))
