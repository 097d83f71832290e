-- ===== src/Device/Actor/History.antt =====
-- What holds of the manager after any history of commands.
use handfast.Base.{
  ℕ, String, Bool, true, false, Option, none, some, List, [], ◌∷◌, refl, ap, ◌∙◌, inl, inr, arith,
  lookup, str_eq, Option-cases, if_cases, ◌&&◌, not,
}
use handfast.Json.{is_some, get, get_str}
use handfast.Protocol.Types.{
  type_identity, type_pair, type_share, type_notification, type_clipboard,
}
use handfast.Protocol.Packet.{Packet}
use handfast.Device.State.{fresh, Outbound, Identity, Manager, Store, send_out, send_to, Answer}
use handfast.Device.Transfers.{
  new_transfer_id, register_transfer, spawn_receive, on_share_payload, cancel_transfer,
  on_transfer_outcome, find_transfer,
}
use handfast.Device.Invariant.{
  IsValid, Harmless, changed-IsSound, update-IsSound, send_out-Harmless,
}
use handfast.Device.Keeps.{
  on_pair_packet-IsValid, answer_incoming_pairing-IsValid, on_pairing_timeout-IsValid,
  begin_pairing-IsValid, unpair-IsValid,
}
use handfast.Device.Links.Keeps.{
  on_announce-IsValid, on_connected-IsValid, on_closed-IsValid, load_persisted-IsValid,
}
use handfast.Device.Links.{load_persisted}
use handfast.Device.Sending.Keeps.{send_file-IsValid}
use handfast.Device.Actor.{
  PluginApi, Command, announce, connected, packet_from, conn_closed, start_pairing, unpairs,
  pairing_answer, pairing_timeout, cancels, share_payload, transfer_outcome, sends_file, lists,
  dispatch_all, dispatch_to_plugins, emit_side_events, send_replies, on_identity, route, on_packet,
  run_command, sent, write_failed, at_queue, on_queue,
}

module _ {P : Type 0} where
  -- Whatever replaces the identity or the plugins.
  identified-Harmless : (i : Identity) → Harmless {P = P} (λ s. record s { identity = i })
  identified-Harmless i = record {
    consistent = λ s c. record { live = c.live; pending = c.pending; pinned = c.pinned };
    connected = λ s up. up;
  }

  plugged-Harmless : (ps : List P) → Harmless {P = P} (λ s. record s { plugins = ps })
  plugged-Harmless ps = record {
    consistent = λ s c. record { live = c.live; pending = c.pending; pinned = c.pinned };
    connected = λ s up. up;
  }

  spawn_receive-IsValid :
      (id : String) (header : Packet) (with_data : Bool) (m : Manager P)
      → IsValid m
      → IsValid (spawn_receive id header with_data m)
  unfolding spawn_receive register_transfer new_transfer_id
  spawn_receive-IsValid id header with_data m v =
      if_cases IsValid (not (is_some (lookup id m.devices))) _ _ (λ _. v) (λ _. v)

  emit_side_events-IsValid :
      (packet : Packet) (m : Manager P) → IsValid m → IsValid (emit_side_events packet m)
  unfolding emit_side_events
  emit_side_events-IsValid packet m v =
      if_cases IsValid (str_eq packet.ptype type_notification) _ _ (λ _. v)
        (λ _.
          if_cases IsValid (str_eq packet.ptype type_clipboard) _ _
            (λ _. elim (Option-cases (get_str "content" packet.body)) [
              | inl n ↦ rw n v
              | inr (t, n) ↦ rw n v
            ])
            (λ _. v))

  send_replies-IsValid :
      (id : String) (ps : List Packet) (m : Manager P) → IsValid m → IsValid (send_replies id ps m)
  unfolding send_replies send_to
  send_replies-IsValid id [] m v = v
  send_replies-IsValid id (p ∷ ps) m v =
      send_replies-IsValid id ps (send_to id p m) (
        update-IsSound id (λ s. (send_out p s).1) (send_out-Harmless p) m.devices m.incoming_pairs
          v)

  on_share_payload-IsValid :
      (id : String) (header : Packet) (why : Option String) (m : Manager P)
      → IsValid m
      → IsValid (on_share_payload id header why m)
  unfolding on_share_payload new_transfer_id register_transfer
  on_share_payload-IsValid id header none m v = spawn_receive-IsValid id header true m v
  on_share_payload-IsValid id header (some why) m v = v

  on_transfer_outcome-IsValid :
      (n : ℕ) (why : Option String) (m : Manager P)
      → IsValid m
      → IsValid (on_transfer_outcome n why m)
  unfolding on_transfer_outcome
  on_transfer_outcome-IsValid n none m v = v
  on_transfer_outcome-IsValid n (some why) m v = v

module _ {P : Type 0} (api : PluginApi P) where
  dispatch_to_plugins-IsValid :
      (id : String) (packet : Packet) (m : Manager P)
      → IsValid m
      → IsValid (dispatch_to_plugins api id packet m).1
  unfolding dispatch_to_plugins
  dispatch_to_plugins-IsValid id packet m v = elim (Option-cases (lookup id m.devices)) [
    | inl l ↦ rw (l, dispatch_to_plugins) v
    | inr (s, l) ↦
        rw (l, dispatch_to_plugins)
          (changed-IsSound id s
            (λ t. record t { plugins = (dispatch_all api packet m.counter s.plugins).0 })
            (plugged-Harmless (dispatch_all api packet m.counter s.plugins).0) m.devices
            m.incoming_pairs v l)
  ]

  on_packet-IsValid :
      (now : ℕ) (id : String) (packet : Packet) (m : Manager P)
      → IsValid m
      → IsValid (on_packet api now id packet m)
  unfolding on_packet on_identity route
  on_packet-IsValid now id packet m v =
      if_cases IsValid (str_eq packet.ptype type_identity) _ _
        (λ _. elim (Option-cases (api.parse_identity packet.body)) [
          | inl n ↦ rw (n, on_identity) v
          | inr (i, n) ↦
              rw (n, on_identity)
                (update-IsSound id (λ s. record s { identity = i }) (identified-Harmless i)
                  m.devices m.incoming_pairs v)
        ])
        (λ _.
          if_cases IsValid (str_eq packet.ptype type_pair) _ _
            (λ _. on_pair_packet-IsValid now id packet m v)
            (λ _.
              if_cases IsValid
                (str_eq packet.ptype type_share && is_some (get "filename" packet.body)) _ _
                (λ _. spawn_receive-IsValid id packet false m v)
                (λ _.
                  send_replies-IsValid id (dispatch_to_plugins api id packet m).0
                    (emit_side_events packet (dispatch_to_plugins api id packet m).1)
                    (emit_side_events-IsValid packet (dispatch_to_plugins api id packet m).1
                      (dispatch_to_plugins-IsValid id packet m v)))))

  cancel_transfer-IsValid : (n : ℕ) (m : Manager P) → IsValid m → IsValid (cancel_transfer n m).1
  unfolding cancel_transfer
  cancel_transfer-IsValid n m v = elim (Option-cases (find_transfer n m.transfers)) [
    | inl l ↦ rw (l, cancel_transfer) v
    | inr (r, l) ↦
        rw (l, cancel_transfer)
          (if_cases (λ (x : Answer Unit × Manager P). IsValid x.1) (not (str_eq r.state "active")) _
            _ (λ _. v) (λ _. v))
  ]

  pub run_command-IsValid :
      (now : ℕ) (c : Command) (m : Manager P) → IsValid m → IsValid (run_command api now c m)
  unfolding run_command
  run_command-IsValid now (announce ip i) m v = on_announce-IsValid api.created ip i m v
  run_command-IsValid now (connected id fp) m v = on_connected-IsValid api.created id fp m v
  run_command-IsValid now (packet_from id packet) m v = on_packet-IsValid now id packet m v
  run_command-IsValid now (conn_closed id) m v = on_closed-IsValid id m v
  run_command-IsValid now (start_pairing id token) m v = begin_pairing-IsValid id token m v
  run_command-IsValid now (unpairs id) m v = unpair-IsValid now id m v
  run_command-IsValid now (pairing_answer id accept) m v =
      answer_incoming_pairing-IsValid now id accept m v
  run_command-IsValid now (pairing_timeout id) m v = on_pairing_timeout-IsValid id m v
  run_command-IsValid now (cancels n) m v = cancel_transfer-IsValid n m v
  run_command-IsValid now (share_payload id header why) m v =
      on_share_payload-IsValid id header why m v
  run_command-IsValid now (transfer_outcome n why) m v = on_transfer_outcome-IsValid n why m v
  run_command-IsValid now (sends_file env id) m v = send_file-IsValid env id m v
  run_command-IsValid now lists m v = v

  -- What happens to the manager's state: a command is handled, or a connection's writer task moves.
  pub data Step (m : Manager P) : Manager P → Type 0 where
    handles : (now : ℕ) (c : Command) → Step m (run_command api now c m)
    writes : (id : String) → Step m (on_queue sent id m)
    breaks : (id : String) → Step m (on_queue write_failed id m)

  pub data Reach (m : Manager P) : Manager P → Type 0 where
    here : Reach m m
    next : {k l : Manager P} → Reach m k → Step k l → Reach m l

  at_queue-Harmless : (f : Outbound → Outbound) → Harmless {P = P} (at_queue f)
  unfolding at_queue
  at_queue-Harmless f = record {
    consistent = λ s c. elim (Option-cases s.outbound) [
      | inl o ↦ rw (o, at_queue) c
      | inr (q, o) ↦
          rw (o, at_queue)
            (record { live = c.live ∙ ap is_some o; pending = λ _. refl; pinned = c.pinned })
    ];
    connected = λ s up. elim (Option-cases s.outbound) [
      | inl o ↦ ground arith
      | inr (q, o) ↦ rw (o, at_queue) refl
    ];
  }

  on_queue-IsValid :
      (f : Outbound → Outbound) (id : String) (m : Manager P)
      → IsValid m
      → IsValid (on_queue f id m)
  unfolding on_queue
  on_queue-IsValid f id m v =
      update-IsSound id (at_queue f) (at_queue-Harmless f) m.devices m.incoming_pairs v

  Step-IsValid : {k l : Manager P} → Step k l → IsValid k → IsValid l
  Step-IsValid {k} (handles now c) v = run_command-IsValid now c k v
  Step-IsValid {k} (writes id) v = on_queue-IsValid sent id k v
  Step-IsValid {k} (breaks id) v = on_queue-IsValid write_failed id k v

  Reach-keeps : {m l : Manager P} → IsValid m → Reach m l → IsValid l
  Reach-keeps v here = v
  Reach-keeps v (next r s) = Step-IsValid s (Reach-keeps v r)

  -- After the devices of the store were loaded, and any history of commands and writer tasks: every
  -- device has a live certificate exactly while it is connected, the live certificate of a paired
  -- device is the pinned one, and pairing requests are pending or parked for connected devices only.
  pub loaded-IsValid :
      (self_id : String) (st : Store) (m : Manager P)
      → Reach (load_persisted api.created self_id (fresh st)).1 m
      → IsValid m
  loaded-IsValid self_id st m r = Reach-keeps (load_persisted-IsValid api.created self_id st) r
