-- ===== src/Device/Actor/Consent.antt =====
-- Which commands make the manager trust a device.
use handfast.Base.{
  ℕ, String, false, none, some, ◌≡◌, refl, ◌∙◌, inl, inr, arith, lookup, str_eq, str_eq_iff,
  if_cases, Option-cases, ◌&&◌,
}
use handfast.Json.{is_some, get}
use handfast.Protocol.Types.{type_identity, type_pair, type_share}
use handfast.Protocol.Packet.{Packet}
use handfast.Device.State.{Manager, pair_body, send_new}
use handfast.Device.Trust.{unpair}
use handfast.Device.Transfers.{spawn_receive}
use handfast.Device.Sending.Keeps.{send_file-pin}
use handfast.Device.Pins.{pin_of, update-pin, send_new-pin, begin_pairing-pin}
use handfast.Device.Consent.{
  Needs, stays-Needs, persist_trust-Needs, PairConsent, on_pair_packet-Needs, UserConsent,
  answer_incoming_pairing-Needs,
}
use handfast.Device.Actor.Stays.{
  Stays, insert-Stays, on_announce-Stays, on_connected-Stays, on_closed-Stays,
  on_pairing_timeout-Stays, spawn_receive-Stays, on_share_payload-Stays, on_transfer_outcome-Stays,
  cancel_transfer-Stays, emit_side_events-Stays, send_replies-Stays,
}
use handfast.Device.Actor.{
  PluginApi, Command, announce, connected, packet_from, conn_closed, start_pairing, unpairs,
  pairing_answer, pairing_timeout, cancels, share_payload, transfer_outcome, sends_file, lists,
  dispatch_to_plugins, emit_side_events, on_identity, route, on_packet, run_command,
}

-- What makes a command one that pins a certificate of a device.
abbrev pub Consent : {P : Type 0} → String → ℕ → Command → Manager P → Type 0
Consent id now (packet_from j packet) m = (packet.ptype ≡ type_pair) × PairConsent id j packet m
Consent id now (pairing_answer j accept) m = UserConsent id now j accept m
Consent id now _ m = ⊥

module _ {P : Type 0} (api : PluginApi P) (id fp : String) where
  dispatch-Stays :
      (j : String) (packet : Packet) (m : Manager P)
      → Stays id m (dispatch_to_plugins api j packet m).1
  unfolding dispatch_to_plugins
  dispatch-Stays j packet m = elim (Option-cases (lookup j m.devices)) [
    | inl l ↦ rw (l, dispatch_to_plugins) refl
    | inr (s, l) ↦ rw (l, dispatch_to_plugins) (insert-Stays id j s _ m l refl)
  ]

  route-Stays : (j : String) (packet : Packet) (m : Manager P) → Stays id m (route api j packet m)
  unfolding route
  route-Stays j packet m =
      let m1 : Manager P = (dispatch_to_plugins api j packet m).1 in
      send_replies-Stays id j (dispatch_to_plugins api j packet m).0 (emit_side_events packet m1)
      ∙ emit_side_events-Stays id packet m1
      ∙ dispatch-Stays j packet m

  on_identity-Stays :
      (j : String) (packet : Packet) (m : Manager P) → Stays id m (on_identity api j packet m)
  unfolding on_identity
  on_identity-Stays j packet m = elim (Option-cases (api.parse_identity packet.body)) [
    | inl n ↦ rw (n, on_identity) refl
    | inr (i, n) ↦
        rw (n, on_identity) (update-pin id j (λ s. record s { identity = i }) m.devices (λ s. refl))
  ]

  on_packet-Needs :
      (now : ℕ) (j : String) (packet : Packet) (m : Manager P)
      → pin_of id m ≡ none
      → Needs id fp
          ((packet.ptype ≡ type_pair) × PairConsent id j packet m)
          (on_packet api now j packet m)
  unfolding on_packet
  on_packet-Needs now j packet m n =
      let C : Type 0 = (packet.ptype ≡ type_pair) × PairConsent id j packet m in
      if_cases (Needs id fp C) (str_eq packet.ptype type_identity) _ _
        (λ _. stays-Needs id fp C m (on_identity api j packet m) n (on_identity-Stays j packet m))
        (λ _.
          if_cases (Needs id fp C) (str_eq packet.ptype type_pair) _ _
            (λ t h. (
              (str_eq_iff packet.ptype type_pair).0 t,
              on_pair_packet-Needs id fp now j packet m n h,
            ))
            (λ _.
              if_cases (Needs id fp C)
                (str_eq packet.ptype type_share && is_some (get "filename" packet.body)) _ _
                (λ _.
                  stays-Needs id fp C m (spawn_receive j packet false m) n
                    (spawn_receive-Stays id j packet false m))
                (λ _. stays-Needs id fp C m (route api j packet m) n (route-Stays j packet m))))

  -- A command that makes the manager trust `id`, for which it had no pinned certificate, is one of
  -- two: the user accepts a request of that device that is parked and has not expired, or the device
  -- sends a pair packet that says yes while this side waits for its answer or accepts every request.
  pub run_command-Consent :
      (now : ℕ) (c : Command) (m : Manager P)
      → pin_of id m ≡ none
      → pin_of id (run_command api now c m) ≡ some fp
      → Consent id now c m
  unfolding run_command unpair
  run_command-Consent now (announce ip i) m n h =
      stays-Needs id fp ⊥ m (run_command api now (announce ip i) m) n
        (on_announce-Stays id api.created ip i m) h
  run_command-Consent now (connected j f) m n h =
      stays-Needs id fp ⊥ m (run_command api now (connected j f) m) n
        (on_connected-Stays id api.created j f m) h
  run_command-Consent now (packet_from j packet) m n h = on_packet-Needs now j packet m n h
  run_command-Consent now (conn_closed j) m n h =
      stays-Needs id fp ⊥ m (run_command api now (conn_closed j) m) n (on_closed-Stays id j m) h
  run_command-Consent now (start_pairing j token) m n h =
      stays-Needs id fp ⊥ m (run_command api now (start_pairing j token) m) n
        (begin_pairing-pin id j token m) h
  run_command-Consent now (unpairs j) m n h =
      let m1 : Manager P = send_new j type_pair (pair_body false) m in
      persist_trust-Needs id fp ⊥ now j false m1
        (send_new-pin id j type_pair (pair_body false) m ∙ n) (λ _ q. ground (arith, q)) h
  run_command-Consent now (pairing_answer j accept) m n h =
      answer_incoming_pairing-Needs id fp now j accept m n h
  run_command-Consent now (pairing_timeout j) m n h =
      stays-Needs id fp ⊥ m (run_command api now (pairing_timeout j) m) n
        (on_pairing_timeout-Stays id j m) h
  run_command-Consent now (cancels k) m n h =
      stays-Needs id fp ⊥ m (run_command api now (cancels k) m) n (cancel_transfer-Stays id k m) h
  run_command-Consent now (share_payload j header why) m n h =
      stays-Needs id fp ⊥ m (run_command api now (share_payload j header why) m) n
        (on_share_payload-Stays id j header why m) h
  run_command-Consent now (transfer_outcome k why) m n h =
      stays-Needs id fp ⊥ m (run_command api now (transfer_outcome k why) m) n
        (on_transfer_outcome-Stays id k why m) h
  run_command-Consent now (sends_file env j) m n h =
      stays-Needs id fp ⊥ m (run_command api now (sends_file env j) m) n (send_file-pin id env j m)
        h
  run_command-Consent now lists m n h = stays-Needs id fp ⊥ m m n refl h
