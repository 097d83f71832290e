-- ===== src/Device/Actor/Stays.antt =====
-- The commands that leave the pinned certificates alone.
use handfast.Base.{
  ℕ, String, Bool, true, false, Option, none, some, List, [], ◌∷◌, ◌≡◌, refl, sym, ap, ◌∙◌, inl,
  inr, lookup, insert, remove, str_eq, if_cases, Option-cases, not,
}
use handfast.Json.{is_some, get_str, ◌>>=◌}
use handfast.Protocol.Types.{type_pair, type_notification, type_clipboard}
use handfast.Protocol.Packet.{Packet}
use handfast.Device.State.{
  Identity, DeviceState, Manager, Answer, send_to, update, new_device, pair_body,
}
use handfast.Device.Trust.{on_pairing_timeout, pending_reply}
use handfast.Device.Links.{
  announced, entry_for_announcement, on_announce, mismatches, online, on_connected, offline,
  tell_closed, on_closed,
}
use handfast.Device.Transfers.{
  new_transfer_id, register_transfer, spawn_receive, on_share_payload, cancel_transfer,
  on_transfer_outcome, find_transfer,
}
use handfast.Device.Pins.{pin, pin_of, insert-pin, update-pin, send_to-pin, send_new-pin}
use handfast.Device.Actor.{emit_side_events, send_replies}

-- The same pinned certificate.
abbrev pub Stays : {P : Type 0} → String → Manager P → Manager P → Type 0
Stays id m l = pin_of id l ≡ pin_of id m

module _ {P : Type 0} (id : String) where
  pub insert-Stays :
      (j : String) (s s' : DeviceState P) (m : Manager P)
      → lookup j m.devices ≡ some s
      → s'.pinned_fingerprint ≡ s.pinned_fingerprint
      → pin (lookup id (insert j s' m.devices)) ≡ pin_of id m
  insert-Stays j s s' m l e = insert-pin id j s' m.devices (e ∙ sym (ap pin l))

  new-Stays :
      (j : String) (s : DeviceState P) (m : Manager P)
      → lookup j m.devices ≡ none
      → s.pinned_fingerprint ≡ none
      → pin (lookup id (insert j s m.devices)) ≡ pin_of id m
  new-Stays j s m l e = insert-pin id j s m.devices (e ∙ sym (ap pin l))

  entry-Stays :
      (created : List P) (ip : String) (i : Identity) (m : Manager P)
      → Stays id m (entry_for_announcement created ip i m).1
  unfolding entry_for_announcement announced new_device
  entry-Stays created ip i m = elim (Option-cases (lookup i.device_id m.devices)) [
    | inl l ↦ rw (l, entry_for_announcement) (new-Stays i.device_id _ m l refl)
    | inr (s, l) ↦ rw (l, entry_for_announcement) (insert-Stays i.device_id s _ m l refl)
  ]

  pub on_announce-Stays :
      (created : List P) (ip : String) (i : Identity) (m : Manager P)
      → Stays id m (on_announce created ip i m)
  unfolding on_announce
  on_announce-Stays created ip i m =
      let e : Stays id m (entry_for_announcement created ip i m).1 = entry-Stays created ip i m in
      if_cases (Stays id m) (not (entry_for_announcement created ip i m).0) _ _ (λ _. e)
        (λ _.
          elim (Option-cases (
            lookup i.device_id (entry_for_announcement created ip i m).1.devices >>= λ s. s.addr)) [
              | inl a ↦ rw a e
              | inr (addr, a) ↦ rw a e
            ])

  pub on_connected-Stays :
      (created : List P) (j fingerprint : String) (m : Manager P)
      → Stays id m (on_connected created j fingerprint m)
  unfolding on_connected online new_device
  on_connected-Stays created j fingerprint m = elim (Option-cases (lookup j m.devices)) [
    | inl l ↦ rw (l, on_connected) (new-Stays j _ m l refl)
    | inr (s, l) ↦
        rw (l, on_connected)
          (if_cases (Stays id m) (mismatches fingerprint s) _ _ (λ _. refl)
            (λ _. insert-Stays j s _ m l refl))
  ]

  tell_closed-Stays : (o : Option ℕ) (m : Manager P) → Stays id m (tell_closed o m)
  unfolding tell_closed
  tell_closed-Stays none m = refl
  tell_closed-Stays (some token) m = refl

  pub on_closed-Stays : (j : String) (m : Manager P) → Stays id m (on_closed j m)
  unfolding on_closed offline
  on_closed-Stays j m =
      let closed : Manager P = record m {
        incoming_pairs = remove j m.incoming_pairs;
        devices = update j offline m.devices;
      } in
      tell_closed-Stays (pending_reply j m) closed ∙ update-pin id j offline m.devices (λ s. refl)

  pub on_pairing_timeout-Stays : (j : String) (m : Manager P) → Stays id m (on_pairing_timeout j m)
  unfolding on_pairing_timeout
  on_pairing_timeout-Stays j m = elim (Option-cases (lookup j m.incoming_pairs)) [
    | inl l ↦ rw (l, on_pairing_timeout) refl
    | inr (d, l) ↦
        rw (l, on_pairing_timeout)
          (send_new-pin id j type_pair (pair_body false)
            (record m { incoming_pairs = remove j m.incoming_pairs }))
  ]

  pub spawn_receive-Stays :
      (j : String) (header : Packet) (with_data : Bool) (m : Manager P)
      → Stays id m (spawn_receive j header with_data m)
  unfolding spawn_receive register_transfer new_transfer_id
  spawn_receive-Stays j header with_data m =
      if_cases (Stays id m) (not (is_some (lookup j m.devices))) _ _ (λ _. refl) (λ _. refl)

  pub on_share_payload-Stays :
      (j : String) (header : Packet) (why : Option String) (m : Manager P)
      → Stays id m (on_share_payload j header why m)
  unfolding on_share_payload register_transfer new_transfer_id
  on_share_payload-Stays j header none m = spawn_receive-Stays j header true m
  on_share_payload-Stays j header (some why) m = refl

  pub on_transfer_outcome-Stays :
      (n : ℕ) (why : Option String) (m : Manager P) → Stays id m (on_transfer_outcome n why m)
  unfolding on_transfer_outcome
  on_transfer_outcome-Stays n none m = refl
  on_transfer_outcome-Stays n (some why) m = refl

  pub cancel_transfer-Stays : (n : ℕ) (m : Manager P) → Stays id m (cancel_transfer n m).1
  unfolding cancel_transfer
  cancel_transfer-Stays n m = elim (Option-cases (find_transfer n m.transfers)) [
    | inl l ↦ rw (l, cancel_transfer) refl
    | inr (r, l) ↦
        rw (l, cancel_transfer)
          (if_cases (λ (x : Answer Unit × Manager P). Stays id m x.1)
            (not (str_eq r.state "active")) _ _ (λ _. refl) (λ _. refl))
  ]

  pub emit_side_events-Stays :
      (packet : Packet) (m : Manager P) → Stays id m (emit_side_events packet m)
  unfolding emit_side_events
  emit_side_events-Stays packet m =
      if_cases (Stays id m) (str_eq packet.ptype type_notification) _ _ (λ _. refl)
        (λ _.
          if_cases (Stays id m) (str_eq packet.ptype type_clipboard) _ _
            (λ _. elim (Option-cases (get_str "content" packet.body)) [
              | inl n ↦ rw n refl
              | inr (t, n) ↦ rw n refl
            ])
            (λ _. refl))

  pub send_replies-Stays :
      (j : String) (ps : List Packet) (m : Manager P) → Stays id m (send_replies j ps m)
  unfolding send_replies
  send_replies-Stays j [] m = refl
  send_replies-Stays j (p ∷ ps) m = send_replies-Stays j ps (send_to j p m) ∙ send_to-pin id j p m
