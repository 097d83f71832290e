-- ===== src/Device/Pins.antt =====
-- The pinned certificates, and the operations of the manager that leave them alone.
use handfast.Base.{
  ℕ, String, Bool, true, Option, none, some, ◌≡◌, refl, sym, ap, ◌∙◌, inl, inr, Assoc, lookup,
  insert, str_eq, str_eq_iff, if◌then◌else◌, if_cases, Option-cases, Bool-cases, not,
}
use handfast.Json.{Value, is_some}
use handfast.Protocol.Types.{type_pair}
use handfast.Protocol.Packet.{Packet, new}
use handfast.Device.State.{
  DeviceState, Manager, Answer, is_connected, send_out, send_to, send_new, update, pair_body,
}
use handfast.Device.Trust.{
  pinned, fingerprint_to_pin, persist_trust, no_reply, requested, request_pairing, begin_pairing,
}
use handfast.Device.Invariant.{inserted, kept}

module _ {P : Type 0} where
  abbrev pub pin : Option (DeviceState P) → Option String
  pin none = none
  pin (some s) = s.pinned_fingerprint

  abbrev pub pin_of : String → Manager P → Option String
  pin_of id m = pin (lookup id m.devices)

  pub insert-pin :
      (id j : String) (s : DeviceState P) (devices : Assoc (DeviceState P))
      → s.pinned_fingerprint ≡ pin (lookup j devices)
      → pin (lookup id (insert j s devices)) ≡ pin (lookup id devices)
  insert-pin id j s devices e = elim (Bool-cases (str_eq j id)) [
    | inl q ↦
        ap pin (inserted j id s devices q)
        ∙ e
        ∙ ap (λ k. pin (lookup k devices)) ((str_eq_iff j id).0 q)
    | inr q ↦ ap pin (kept j id s devices q)
  ]

  -- What keeps the pinned certificate of every device.
  abbrev pub KeepsPin : (DeviceState P → DeviceState P) → Type 0
  KeepsPin f = (s : DeviceState P) → (f s).pinned_fingerprint ≡ s.pinned_fingerprint

  pub update-pin :
      (id j : String) (f : DeviceState P → DeviceState P) (devices : Assoc (DeviceState P))
      → KeepsPin f
      → pin (lookup id (update j f devices)) ≡ pin (lookup id devices)
  unfolding update
  update-pin id j f devices h = elim (Option-cases (lookup j devices)) [
    | inl l ↦ rw (l, update) refl
    | inr (s, l) ↦ rw (l, update) (insert-pin id j (f s) devices (h s ∙ sym (ap pin l)))
  ]

  pub send_out-KeepsPin : (p : Packet) → KeepsPin (λ s. (send_out p s).1)
  unfolding send_out
  send_out-KeepsPin p s = elim (Option-cases s.outbound) [
    | inl o ↦ rw (o, send_out) refl
    | inr (q, o) ↦ rw (o, send_out) refl
  ]

  pub send_to-pin :
      (id j : String) (p : Packet) (m : Manager P) → pin_of id (send_to j p m) ≡ pin_of id m
  unfolding send_to
  send_to-pin id j p m = update-pin id j (λ s. (send_out p s).1) m.devices (send_out-KeepsPin p)

  pub send_new-pin :
      (id j ptype : String) (body : Value) (m : Manager P)
      → pin_of id (send_new j ptype body m) ≡ pin_of id m
  unfolding send_new
  send_new-pin id j ptype body m =
      send_to-pin id j (new m.counter ptype body).0
        (record m { counter = (new m.counter ptype body).1 })

  -- The pin that `persist_trust` leaves.
  pub persist_trust-pin :
      (now : ℕ) (id j : String) (paired : Bool) (m : Manager P)
      → pin_of id (persist_trust now j paired m) ≡ (
          if str_eq j id
          then elim (lookup j m.devices) [
            | none ↦ none
            | some s ↦ if paired then some (fingerprint_to_pin s) else none
          ]
          else pin_of id m)
  unfolding persist_trust pinned
  persist_trust-pin now id j paired m = elim (Option-cases (lookup j m.devices)) [
    | inl l ↦
        rw (l, persist_trust)
          (elim (Bool-cases (str_eq j id)) [
            | inl q ↦
                rw q (ap (λ k. pin (lookup k m.devices)) (sym ((str_eq_iff j id).0 q)) ∙ ap pin l)
            | inr q ↦ rw q refl
          ])
    | inr (s, l) ↦
        rw (l, persist_trust)
          (elim (Bool-cases (str_eq j id)) [
            | inl q ↦ rw q (ap pin (inserted j id (pinned paired s) m.devices q))
            | inr q ↦ rw q (ap pin (kept j id (pinned paired s) m.devices q))
          ])
  ]

  requested-pin :
      (id j : String) (token : ℕ) (sent : Answer Unit) (s : DeviceState P) (m : Manager P)
      → s.pinned_fingerprint ≡ pin_of j m
      → pin_of id (requested j token sent s m) ≡ pin_of id m
  unfolding requested
  requested-pin id j token (Answer.ok _) s m e = insert-pin id j s m.devices e
  requested-pin id j token (Answer.err c) s m e = insert-pin id j (no_reply s) m.devices e

  request_pairing-pin :
      (id j : String) (token : ℕ) (s : DeviceState P) (m : Manager P)
      → lookup j m.devices ≡ some s
      → pin_of id (request_pairing j token s m) ≡ pin_of id m
  unfolding request_pairing
  request_pairing-pin id j token s m l =
      let waiting : DeviceState P = record s { pending_pair_reply = some token } in
      let request : Packet = (new m.counter type_pair (pair_body true)).0 in
      requested-pin id j token (send_out request waiting).0 (send_out request waiting).1
        (record m { counter = (new m.counter type_pair (pair_body true)).1 })
        (send_out-KeepsPin request waiting ∙ sym (ap pin l))

  pub begin_pairing-pin :
      (id j : String) (token : ℕ) (m : Manager P)
      → pin_of id (begin_pairing j token m) ≡ pin_of id m
  unfolding begin_pairing
  begin_pairing-pin id j token m = elim (Option-cases (lookup j m.devices)) [
    | inl l ↦ rw (l, begin_pairing) refl
    | inr (s, l) ↦
        rw (l, begin_pairing)
          (if_cases (λ r. pin_of id r ≡ pin_of id m) (not (is_connected s)) _ _ (λ _. refl)
            (λ _.
              if_cases (λ r. pin_of id r ≡ pin_of id m) (is_some s.pinned_fingerprint) _ _
                (λ _. refl) (λ _. request_pairing-pin id j token s m l)))
  ]
