-- ===== src/Device/Invariant.antt =====
-- The invariant of the device table, and that each change of one device keeps it.
use handfast.Base.{
  ℕ, String, true, false, some, ◌≡◌, refl, sym, ap, subst, ◌∙◌, inl, inr, arith, Assoc, lookup,
  insert, remove, lookup-insert, lookup-remove, str_eq, str_eq_iff, Bool-cases, Option-cases,
}
use handfast.Json.{is_some}
use handfast.Protocol.Packet.{Packet}
use handfast.Device.State.{DeviceState, Manager, is_connected, send_out, update}

module _ {V : Type 0} where
  pub some_eq : {v w : V} → some v ≡ some w → v ≡ w
  some_eq h = cc

  -- The entry at the key that was inserted, and at another one.
  pub inserted :
      (k j : String) (v : V) (m : Assoc V) → str_eq k j ≡ true → lookup j (insert k v m) ≡ some v
  inserted k j v m e = lookup-insert k j v m ∙ rw e refl

  pub kept :
      (k j : String) (v : V) (m : Assoc V)
      → str_eq k j ≡ false
      → lookup j (insert k v m) ≡ lookup j m
  kept k j v m e = lookup-insert k j v m ∙ rw e refl

  pub removed_other :
      (k j : String) (v : V) (m : Assoc V)
      → lookup j (remove k m) ≡ some v
      → (str_eq k j ≡ false) × (lookup j m ≡ some v)
  removed_other k j v m l = ground (arith, lookup-remove k j m)

module _ {P : Type 0} where
  -- A device: it has a live certificate exactly while it has a queue, a caller waits for it only
  -- while it is connected, and the live certificate of a paired device is the pinned one.
  pub record IsConsistent (s : DeviceState P) : Type 0 where
    pub live : is_some s.live_fingerprint ≡ is_some s.outbound
    pub pending : is_some s.pending_pair_reply ≡ true → is_some s.outbound ≡ true
    pub pinned :
        (fp g : String) → s.pinned_fingerprint ≡ some fp → s.live_fingerprint ≡ some g → fp ≡ g

  abbrev pub IsOnline : String → Assoc (DeviceState P) → Type 0
  IsOnline id devices = (s : DeviceState P) × (lookup id devices ≡ some s) × (is_connected s ≡ true)

  pub record IsSound (devices : Assoc (DeviceState P)) (pairs : Assoc ℕ) : Type 0 where
    pub consistent : (id : String) (s : DeviceState P) → lookup id devices ≡ some s → IsConsistent s
    pub parked :
        (id : String) (deadline : ℕ) → lookup id pairs ≡ some deadline → IsOnline id devices

  -- Every device is consistent, and a request is parked only for a device that is connected.
  abbrev pub IsValid : Manager P → Type 0
  IsValid m = IsSound m.devices m.incoming_pairs

  IsOnline-insert :
      (id j : String) (s' : DeviceState P) (devices : Assoc (DeviceState P))
      → (IsOnline id devices → is_connected s' ≡ true)
      → IsOnline j devices
      → IsOnline j (insert id s' devices)
  IsOnline-insert id j s' devices up (s, l, c) = elim (Bool-cases (str_eq id j)) [
    | inl e ↦ (
      s',
      inserted id j s' devices e,
      up (subst (λ k. IsOnline k devices) (sym ((str_eq_iff id j).0 e)) (s, l, c)),
    )
    | inr e ↦ (s, kept id j s' devices e ∙ l, c)
  ]

  -- One device is replaced by a consistent one, which stays connected.
  pub insert-IsSound :
      (id : String) (s' : DeviceState P) (devices : Assoc (DeviceState P)) (pairs : Assoc ℕ)
      → IsSound devices pairs
      → IsConsistent s'
      → (IsOnline id devices → is_connected s' ≡ true)
      → IsSound (insert id s' devices) pairs
  insert-IsSound id s' devices pairs v c up = record {
    consistent = λ j s l. elim (Bool-cases (str_eq id j)) [
      | inl e ↦ subst IsConsistent (some_eq (sym (inserted id j s' devices e) ∙ l)) c
      | inr e ↦ v.consistent j s (sym (kept id j s' devices e) ∙ l)
    ];
    parked = λ j d l. IsOnline-insert id j s' devices up (v.parked j d l);
  }

  pub drop-IsSound :
      (id : String) (devices : Assoc (DeviceState P)) (pairs : Assoc ℕ)
      → IsSound devices pairs
      → IsSound devices (remove id pairs)
  drop-IsSound id devices pairs v = record {
    consistent = v.consistent;
    parked = λ j d l. v.parked j d (removed_other id j d pairs l).1;
  }

  pub park-IsSound :
      (id : String) (d : ℕ) (devices : Assoc (DeviceState P)) (pairs : Assoc ℕ)
      → IsSound devices pairs
      → IsOnline id devices
      → IsSound devices (insert id d pairs)
  park-IsSound id d devices pairs v up = record {
    consistent = v.consistent;
    parked = λ j e l. elim (Bool-cases (str_eq id j)) [
      | inl q ↦ subst (λ k. IsOnline k devices) ((str_eq_iff id j).0 q) up
      | inr q ↦ v.parked j e (sym (kept id j d pairs q) ∙ l)
    ];
  }

  -- What may be done to a device without asking which one: it stays consistent and connected.
  pub record Harmless (f : DeviceState P → DeviceState P) : Type 0 where
    pub consistent : (s : DeviceState P) → IsConsistent s → IsConsistent (f s)
    pub connected : (s : DeviceState P) → is_connected s ≡ true → is_connected (f s) ≡ true

  pub changed-IsSound :
      (id : String) (s : DeviceState P) (f : DeviceState P → DeviceState P)
      → Harmless f
      → (devices : Assoc (DeviceState P)) (pairs : Assoc ℕ) → IsSound devices pairs
      → lookup id devices ≡ some s
      → IsSound (insert id (f s) devices) pairs
  changed-IsSound id s f h devices pairs v l =
      insert-IsSound id (f s) devices pairs v (h.consistent s (v.consistent id s l)) (λ (t, lt, up).
        h.connected s (subst (λ t. is_connected t ≡ true) (some_eq (sym lt ∙ l)) up))

  pub update-IsSound :
      (id : String) (f : DeviceState P → DeviceState P)
      → Harmless f
      → (devices : Assoc (DeviceState P)) (pairs : Assoc ℕ) → IsSound devices pairs
      → IsSound (update id f devices) pairs
  unfolding update
  update-IsSound id f h devices pairs v = elim (Option-cases (lookup id devices)) [
    | inl l ↦ rw (l, update) v
    | inr (s, l) ↦ rw (l, update) (changed-IsSound id s f h devices pairs v l)
  ]

  pub send_out-Harmless : (p : Packet) → Harmless (λ s. (send_out p s).1)
  unfolding send_out
  send_out-Harmless p = record {
    consistent = λ s c. elim (Option-cases s.outbound) [
      | inl o ↦ rw (o, send_out) c
      | inr (q, o) ↦
          rw (o, send_out)
            (record { live = c.live ∙ ap is_some o; pending = λ _. refl; pinned = c.pinned })
    ];
    connected = λ s up. elim (Option-cases s.outbound) [
      | inl o ↦ ground arith
      | inr (q, o) ↦ rw (o, send_out) refl
    ];
  }
