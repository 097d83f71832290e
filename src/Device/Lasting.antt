-- ===== src/Device/Lasting.antt =====
-- What an answered request and an unpairing leave in the store, for the next start of the daemon:
-- answer_incoming_pairing and unpair, followed by load_persisted.
use handfast.Base.{
  ℕ, ◌≤◌, String, Bool, true, false, some, List, ◌≡◌, refl, inl, inr, arith, lookup, remove, ltb,
  str_eq, Option-cases, none, sym, subst, ◌∙◌, str_eq_iff,
}
use handfast.Json.{Value}
use handfast.Protocol.Types.{type_pair}
use handfast.Protocol.Packet.{new}
use handfast.Device.State.{
  DeviceState, Manager, Store, fresh, send_new, send_to, upsert_device, update, send_out, pair_body,
}
use handfast.Device.Trust.{persist_trust, trust_row, decide, unpair, answer_incoming_pairing}
use handfast.Device.Invariant.{IsValid, inserted}
use handfast.Device.Accepted.{accept_pins_live}
use handfast.Device.Pins.{pin_of, persist_trust-pin}
use handfast.Device.Links.{load_persisted}
use handfast.Device.Links.Restart.{IsKeyed, insert-IsKeyed, restart-IsTrusted, load_persisted-pin}

-- The rows are keyed by device id, and the store can be written.
abbrev IsSane : Store → Type 0
IsSane st = IsKeyed st.rows × (st.faulty ≡ false)

module _ {P : Type 0} where
  persist_trust-IsSane :
      (now : ℕ) (id : String) (paired : Bool) (m : Manager P)
      → IsSane m.store
      → IsSane (persist_trust now id paired m).store
  unfolding persist_trust upsert_device trust_row
  persist_trust-IsSane now id paired m (keyed, f) = elim (Option-cases (lookup id m.devices)) [
    | inl l ↦ rw (l, persist_trust) (keyed, f)
    | inr (s, l) ↦
        rw (l, persist_trust, f)
          (insert-IsKeyed (trust_row now id paired s) m.store.rows keyed, refl)
  ]

  decide-IsSane :
      (now : ℕ) (id : String) (d : ℕ) (m : Manager P)
      → now ≤ d
      → IsSane m.store
      → IsSane (decide now id true d m).1.store
  unfolding decide send_new send_to
  decide-IsSane now id d m h sane =
      let late : ltb d now ≡ false = ground arith in
      rw late (persist_trust-IsSane now id true m sane)

  answer-IsSane :
      (now : ℕ) (id : String) (d : ℕ) (m : Manager P)
      → lookup id m.incoming_pairs ≡ some d
      → now ≤ d
      → IsSane m.store
      → IsSane (answer_incoming_pairing now id true m).1.store
  unfolding answer_incoming_pairing
  answer-IsSane now id d m p h sane =
      rw (p, answer_incoming_pairing)
        (decide-IsSane now id d (record m { incoming_pairs = remove id m.incoming_pairs }) h sane)

  -- A pairing that the user accepted in time is not lost, if the store can be written: in a valid state,
  -- with one row per device in the store, an accepted device that is not the daemon itself is still
  -- trusted after a restart with the store as it is then, with the certificate of the connection that
  -- asked. (When the write fails, the source only logs it.)
  pub accepted_after_restart :
      (created : List P) (self_id : String) (now : ℕ) (id : String) (deadline : ℕ) (m : Manager P)
      → IsValid m
      → lookup id m.incoming_pairs ≡ some deadline
      → now ≤ deadline
      → m.store.faulty ≡ false
      → IsKeyed m.store.rows
      → str_eq id self_id ≡ false
      → (s : DeviceState P) × (fp : String) × (lookup id m.devices ≡ some s)
        × (s.live_fingerprint ≡ some fp)
        × (pin_of id
              (load_persisted created self_id
                (fresh (answer_incoming_pairing now id true m).1.store)).1
            ≡ some fp)
  accepted_after_restart created self_id now id deadline m v p h f keyed n =
      let (s, fp, l, live, t) = accept_pins_live now id deadline m v p h f in
      let (keyed', f') = answer-IsSane now id deadline m p h (keyed, f) in
      (
        s,
        fp,
        l,
        live,
        restart-IsTrusted created self_id id fp (answer_incoming_pairing now id true m).1 t keyed' n
            f',
      )

  -- The row of a device whose trust has ended.
  ended_row :
      (now : ℕ) (id : String) (s : DeviceState P) (m : Manager P)
      → lookup id m.devices ≡ some s
      → m.store.faulty ≡ false
      → lookup id (persist_trust now id false m).store.rows ≡ some (trust_row now id false s)
  unfolding persist_trust upsert_device
  ended_row now id s m l f =
      rw (l, persist_trust, f)
        (inserted id id (trust_row now id false s) m.store.rows ((str_eq_iff id id).1 refl))

  -- When the trust in a device that is known ends, and the store can be written, the device is no
  -- longer trusted, neither in memory nor after a restart of the daemon.
  ended_after_restart :
      (created : List P) (self_id : String) (now : ℕ) (id : String) (s : DeviceState P)
      (m : Manager P)
      → lookup id m.devices ≡ some s
      → IsSane m.store
      → str_eq id self_id ≡ false
      → (pin_of id (persist_trust now id false m) ≡ none)
        × (pin_of id (load_persisted created self_id (fresh (persist_trust now id false m).store)).1
            ≡ none)
  unfolding trust_row
  ended_after_restart created self_id now id s m l (keyed, f) n =
      let (keyed', f') = persist_trust-IsSane now id false m (keyed, f) in
      (
        persist_trust-pin now id id false m ∙ rw ((str_eq_iff id id).1 refl, l) refl,
        load_persisted-pin created self_id id (persist_trust now id false m).store
            (trust_row now id false s) keyed' n f' (ended_row now id s m l f),
      )

  sent_device :
      (id ptype : String) (body : Value) (s : DeviceState P) (m : Manager P)
      → lookup id m.devices ≡ some s
      → (t : DeviceState P) × (lookup id (send_new id ptype body m).devices ≡ some t)
        × ((send_new id ptype body m).store ≡ m.store)
  unfolding send_new send_to update
  sent_device id ptype body s m l =
      let t : DeviceState P = (send_out (new m.counter ptype body).0 s).1 in
      (t, rw (l, update) (inserted id id t m.devices ((str_eq_iff id id).1 refl)), refl)

  -- An unpaired device stays unpaired, if the store can be written: with one row per device in the
  -- store, a device that is known and not the daemon itself is no longer trusted, neither in memory nor
  -- after a restart with the store as it is then, whether or not the revocation can be sent. (When the
  -- write fails, the source only logs it.)
  pub unpaired_after_restart :
      (created : List P) (self_id : String) (now : ℕ) (id : String) (s : DeviceState P)
      (m : Manager P)
      → lookup id m.devices ≡ some s
      → IsKeyed m.store.rows
      → m.store.faulty ≡ false
      → str_eq id self_id ≡ false
      → (pin_of id (unpair now id m) ≡ none)
        × (pin_of id (load_persisted created self_id (fresh (unpair now id m).store)).1 ≡ none)
  unfolding unpair
  unpaired_after_restart created self_id now id s m l keyed f n =
      let m' : Manager P = send_new id type_pair (pair_body false) m in
      let (t, lt, same) = sent_device id type_pair (pair_body false) s m l in
      ended_after_restart created self_id now id t m' lt (subst IsSane (sym same) (keyed, f)) n
