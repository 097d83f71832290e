-- ===== src/Device/Accepted.antt =====
-- What an accepted request leaves: the certificate of the live connection is pinned, and stored.
use handfast.Base.{
  ℕ, ◌≤◌, String, true, false, Option, none, some, ◌≡◌, refl, ap, ◌∙◌, arith, lookup, remove, ltb,
  str_eq, str_eq_iff,
}
use handfast.Json.{Value, is_some}
use handfast.Protocol.Types.{type_pair}
use handfast.Device.State.{
  DeviceState, DeviceRow, Manager, send_to, send_new, pair_body, upsert_device, Event, publish,
}
use handfast.Device.Trust.{
  fingerprint_to_pin, trust_row, persist_trust, decide, answer_incoming_pairing,
}
use handfast.Device.Invariant.{IsValid, inserted}
use handfast.Device.Pins.{pin_of, send_new-pin, persist_trust-pin}

some_live : (o : Option String) → is_some o ≡ true → (fp : String) × (o ≡ some fp)
some_live none h = absurd (ground (arith, h))
some_live (some fp) h = (fp, refl)

module _ {P : Type 0} where
  -- The device is trusted with this certificate, in memory and in the store.
  pub record IsTrusted (id fp : String) (m : Manager P) : Type 0 where
    pub in_memory : pin_of id m ≡ some fp
    pub row : DeviceRow
    pub stored : lookup id m.store.rows ≡ some row
    pub row_paired : row.paired ≡ true
    pub row_fingerprint : row.cert_fingerprint ≡ fp

  live_to_pin :
      (s : DeviceState P) (fp : String) → s.live_fingerprint ≡ some fp → fingerprint_to_pin s ≡ fp
  unfolding fingerprint_to_pin
  live_to_pin s fp l = rw (l, fingerprint_to_pin) refl

  persist_trust-stored :
      (now : ℕ) (id : String) (s : DeviceState P) (m : Manager P)
      → lookup id m.devices ≡ some s
      → m.store.faulty ≡ false
      → lookup id (persist_trust now id true m).store.rows ≡ some (trust_row now id true s)
  unfolding persist_trust upsert_device
  persist_trust-stored now id s m l f =
      rw (l, persist_trust, f)
        (inserted id id (trust_row now id true s) m.store.rows ((str_eq_iff id id).1 refl))

  pub persist_trust-IsTrusted :
      (now : ℕ) (id fp : String) (s : DeviceState P) (m : Manager P)
      → lookup id m.devices ≡ some s
      → s.live_fingerprint ≡ some fp
      → m.store.faulty ≡ false
      → IsTrusted id fp (persist_trust now id true m)
  unfolding trust_row
  persist_trust-IsTrusted now id fp s m l live f =
      let self : str_eq id id ≡ true = (str_eq_iff id id).1 refl in
      record {
        in_memory =
            persist_trust-pin now id id true m ∙ rw (self, l) (ap some (live_to_pin s fp live));
        row = trust_row now id true s;
        stored = persist_trust-stored now id s m l f;
        row_paired = refl;
        row_fingerprint = live_to_pin s fp live;
      }

  sent-IsTrusted :
      (id fp j ptype : String) (body : Value) (m : Manager P)
      → IsTrusted id fp m
      → IsTrusted id fp (send_new j ptype body m)
  unfolding send_new send_to
  sent-IsTrusted id fp j ptype body m t = record {
    in_memory = send_new-pin id j ptype body m ∙ t.in_memory;
    row = t.row;
    stored = t.stored;
    row_paired = t.row_paired;
    row_fingerprint = t.row_fingerprint;
  }

  published-IsTrusted :
      (id fp : String) (e : Event) (m : Manager P)
      → IsTrusted id fp m
      → IsTrusted id fp (publish e m)
  published-IsTrusted id fp e m t = record {
    in_memory = t.in_memory;
    row = t.row;
    stored = t.stored;
    row_paired = t.row_paired;
    row_fingerprint = t.row_fingerprint;
  }

  decide-IsTrusted :
      (now : ℕ) (id fp : String) (d : ℕ) (m : Manager P)
      → now ≤ d
      → IsTrusted id fp (persist_trust now id true m)
      → IsTrusted id fp (decide now id true d m).1
  unfolding decide
  decide-IsTrusted now id fp d m h t =
      let late : ltb d now ≡ false = ground arith in
      rw late (
        published-IsTrusted id fp _
          (send_new id type_pair (pair_body true) (persist_trust now id true m))
          (sent-IsTrusted id fp id type_pair (pair_body true) (persist_trust now id true m) t))

  -- While the manager's invariant holds, a request that is parked comes from a device that is
  -- connected, and accepting it in time, with a store that can be written, pins the certificate of
  -- that connection, and no other, in memory and in the store.
  pub accept_pins_live :
      (now : ℕ) (id : String) (deadline : ℕ) (m : Manager P)
      → IsValid m
      → lookup id m.incoming_pairs ≡ some deadline
      → now ≤ deadline
      → m.store.faulty ≡ false
      → (s : DeviceState P) × (fp : String) × (lookup id m.devices ≡ some s)
        × (s.live_fingerprint ≡ some fp)
        × IsTrusted id fp (answer_incoming_pairing now id true m).1
  unfolding answer_incoming_pairing
  accept_pins_live now id deadline m v p h f =
      let (s, l, up) = v.parked id deadline p in
      let (fp, live) = some_live s.live_fingerprint ((v.consistent id s l).live ∙ up) in
      let m' : Manager P = record m { incoming_pairs = remove id m.incoming_pairs } in
      (
        s,
        fp,
        l,
        live,
        rw (p, answer_incoming_pairing)
            (decide-IsTrusted now id fp deadline m' h
              (persist_trust-IsTrusted now id fp s m' l live f)),
      )
