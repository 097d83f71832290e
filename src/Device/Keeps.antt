-- ===== src/Device/Keeps.antt =====
-- Every operation of the pairing keeps the invariant of the device table.
use handfast.Base.{
  ℕ, ◌+◌, String, Bool, true, false, some, ◌≡◌, inl, inr, arith, lookup, remove, if◌then◌else◌,
  Option-cases, if_cases, ◌&&◌, not, ltb,
}
use handfast.Json.{is_some, get_bool, Value}
use handfast.Protocol.Types.{type_pair}
use handfast.Protocol.Packet.{Packet, new}
use handfast.Device.State.{
  DeviceState, Manager, Answer, ok, err, is_connected, send_out, send_to, send_new, update,
  pair_body,
}
use handfast.Device.Trust.{
  pinned, fingerprint_to_pin, persist_trust, no_reply, connected, auto_accept, incoming_request,
  revoked, answered, pending_reply, on_pair_packet, decide, answer_incoming_pairing,
  on_pairing_timeout, requested, request_pairing, begin_pairing, unpair, incoming_pair_timeout,
}
use handfast.Device.Invariant.{
  IsConsistent, IsOnline, IsSound, IsValid, Harmless, insert-IsSound, drop-IsSound, park-IsSound,
  changed-IsSound, update-IsSound, send_out-Harmless,
}

module _ {P : Type 0} where
  pub send_new-IsValid :
      (id ptype : String) (body : Value) (m : Manager P)
      → IsValid m
      → IsValid (send_new id ptype body m)
  unfolding send_new send_to
  send_new-IsValid id ptype body m v =
      update-IsSound id (λ s. (send_out (new m.counter ptype body).0 s).1) (send_out-Harmless _)
        m.devices m.incoming_pairs v

  pub pinned-Harmless : (paired : Bool) → Harmless (pinned {P = P} paired)
  unfolding pinned fingerprint_to_pin
  pinned-Harmless paired = record {
    consistent =
        λ s c. record { live = c.live; pending = c.pending; pinned = λ fp g p l. ground arith };
    connected = λ s up. up;
  }

  pub persist_trust-IsValid :
      (now : ℕ) (id : String) (paired : Bool) (m : Manager P)
      → IsValid m
      → IsValid (persist_trust now id paired m)
  unfolding persist_trust
  persist_trust-IsValid now id paired m v = elim (Option-cases (lookup id m.devices)) [
    | inl l ↦ rw (l, persist_trust) v
    | inr (s, l) ↦
        rw (l, persist_trust)
          (changed-IsSound id s (pinned paired) (pinned-Harmless paired) m.devices m.incoming_pairs
            v l)
  ]

  no_reply-Harmless : Harmless (no_reply {P = P})
  no_reply-Harmless = record {
    consistent =
        λ s c. record { live = c.live; pending = λ h. absurd (ground arith); pinned = c.pinned };
    connected = λ s up. up;
  }

  connected-IsOnline : (id : String) (m : Manager P) → connected id m ≡ true → IsOnline id m.devices
  unfolding connected
  connected-IsOnline id m h = elim (Option-cases (lookup id m.devices)) [
    | inl l ↦ absurd (ground arith)
    | inr (s, l) ↦ (s, l, ground arith)
  ]

  incoming_request-IsValid :
      (now : ℕ) (id : String) (m : Manager P) → IsValid m → IsValid (incoming_request now id m)
  unfolding incoming_request
  incoming_request-IsValid now id m v =
      if_cases IsValid (auto_accept m && connected id m) _ _
        (λ _.
          send_new-IsValid id _ _ (persist_trust now id true m)
            (persist_trust-IsValid now id true m v))
        (λ _.
          if_cases IsValid (not (connected id m)) _ _ (λ _. send_new-IsValid id _ _ m v)
            (λ up.
              park-IsSound id (now + incoming_pair_timeout) m.devices m.incoming_pairs v
                (connected-IsOnline id m (ground arith))))

  revoked-IsValid : (now : ℕ) (id : String) (m : Manager P) → IsValid m → IsValid (revoked now id m)
  unfolding revoked
  revoked-IsValid now id m v =
      persist_trust-IsValid now id false _ (drop-IsSound id m.devices m.incoming_pairs v)

  answered-IsValid :
      (now : ℕ) (id : String) (wants_pair : Bool) (token : ℕ) (m : Manager P)
      → IsValid m
      → IsValid (answered now id wants_pair token m)
  unfolding answered
  answered-IsValid now id wants_pair token m v =
      let kept : IsSound (update id no_reply m.devices) m.incoming_pairs =
        update-IsSound id no_reply no_reply-Harmless m.devices m.incoming_pairs v in
      if_cases IsValid wants_pair _ _ (λ _. persist_trust-IsValid now id true _ kept) (λ _. kept)

  pub on_pair_packet-IsValid :
      (now : ℕ) (id : String) (packet : Packet) (m : Manager P)
      → IsValid m
      → IsValid (on_pair_packet now id packet m)
  unfolding on_pair_packet
  on_pair_packet-IsValid now id packet m v = elim (Option-cases (get_bool "pair" packet.body)) [
    | inl n ↦ rw (n, on_pair_packet) v
    | inr (w, b) ↦ elim (Option-cases (pending_reply id m)) [
      | inr (token, p) ↦ rw (b, p, on_pair_packet) (answered-IsValid now id w token m v)
      | inl p ↦
          rw (b, p, on_pair_packet)
            (if_cases IsValid w _ _ (λ _. incoming_request-IsValid now id m v)
              (λ _. revoked-IsValid now id m v))
    ]
  ]

  decide-IsValid :
      (now : ℕ) (id : String) (accept : Bool) (deadline : ℕ) (m : Manager P)
      → IsValid m
      → IsValid (decide now id accept deadline m).1
  unfolding decide
  decide-IsValid now id accept deadline m v =
      if_cases (λ (r : Answer Unit × Manager P). IsValid r.1) (ltb deadline now) _ _ (λ _. v)
        (λ _.
          send_new-IsValid id _ _ (if accept then persist_trust now id true m else m)
            (if_cases IsValid accept _ _ (λ _. persist_trust-IsValid now id true m v) (λ _. v)))

  pub answer_incoming_pairing-IsValid :
      (now : ℕ) (id : String) (accept : Bool) (m : Manager P)
      → IsValid m
      → IsValid (answer_incoming_pairing now id accept m).1
  unfolding answer_incoming_pairing
  answer_incoming_pairing-IsValid now id accept m v =
      elim (Option-cases (lookup id m.incoming_pairs)) [
        | inl l ↦ rw (l, answer_incoming_pairing) v
        | inr (d, l) ↦
            rw (l, answer_incoming_pairing)
              (decide-IsValid now id accept d _ (drop-IsSound id m.devices m.incoming_pairs v))
      ]

  pub on_pairing_timeout-IsValid :
      (id : String) (m : Manager P) → IsValid m → IsValid (on_pairing_timeout id m)
  unfolding on_pairing_timeout
  on_pairing_timeout-IsValid id m v = elim (Option-cases (lookup id m.incoming_pairs)) [
    | inl l ↦ rw (l, on_pairing_timeout) v
    | inr (d, l) ↦
        rw (l, on_pairing_timeout)
          (send_new-IsValid id _ _ (record m { incoming_pairs = remove id m.incoming_pairs })
            (drop-IsSound id m.devices m.incoming_pairs v))
  ]

  pub unpair-IsValid :
      (now : ℕ) (id : String) (m : Manager P) → IsValid m → IsValid (unpair now id m)
  unfolding unpair
  unpair-IsValid now id m v = persist_trust-IsValid now id false _ (send_new-IsValid id _ _ m v)

  requested-IsValid :
      (id : String) (token : ℕ) (sent : Answer Unit) (s : DeviceState P) (m : Manager P)
      → IsValid m
      → IsConsistent s
      → is_connected s ≡ true
      → IsValid (requested id token sent s m)
  unfolding requested
  requested-IsValid id token (ok _) s m v c up =
      insert-IsSound id s m.devices m.incoming_pairs v c (λ _. up)
  requested-IsValid id token (err e) s m v c up =
      insert-IsSound id (no_reply s) m.devices m.incoming_pairs v (no_reply-Harmless.consistent s c)
        (λ _. up)

  request_pairing-IsValid :
      (id : String) (token : ℕ) (s : DeviceState P) (m : Manager P)
      → IsValid m
      → lookup id m.devices ≡ some s
      → is_connected s ≡ true
      → IsValid (request_pairing id token s m)
  unfolding request_pairing
  request_pairing-IsValid id token s m v l up =
      let h : Harmless {P = P} (λ s. (send_out (new m.counter type_pair (pair_body true)).0 s).1) =
        send_out-Harmless _ in
      let waiting : DeviceState P = record s { pending_pair_reply = some token } in
      let c : IsConsistent waiting = record {
        live = (v.consistent id s l).live;
        pending = λ _. up;
        pinned = (v.consistent id s l).pinned;
      } in
      requested-IsValid id token _ _
        (record m { counter = (new m.counter type_pair (pair_body true)).1 }) v
        (h.consistent waiting c) (h.connected waiting up)

  pub begin_pairing-IsValid :
      (id : String) (token : ℕ) (m : Manager P) → IsValid m → IsValid (begin_pairing id token m)
  unfolding begin_pairing
  begin_pairing-IsValid id token m v = elim (Option-cases (lookup id m.devices)) [
    | inl l ↦ rw (l, begin_pairing) v
    | inr (s, l) ↦
        rw (l, begin_pairing)
          (if_cases IsValid (not (is_connected s)) _ _ (λ _. v)
            (λ up.
              if_cases IsValid (is_some s.pinned_fingerprint) _ _ (λ _. v)
                (λ _. request_pairing-IsValid id token s m v l (ground arith))))
  ]
