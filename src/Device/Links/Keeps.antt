-- ===== src/Device/Links/Keeps.antt =====
-- Announcements, connections and the rows of the store keep the invariant of the device table.
use handfast.Base.{
  ℕ, String, Bool, false, Option, none, some, List, [], ◌∷◌, ◌≡◌, refl, sym, ap, subst, ◌∙◌, inl,
  inr, arith, Assoc, lookup, insert, remove, str_eq, str_eq_iff, if◌then◌else◌, Bool-cases,
  Option-cases, if_cases, not,
}
use handfast.Json.{◌>>=◌, is_some}
use handfast.Device.State.{
  fresh, Store, Identity, DeviceRow, DeviceState, Manager, new_device, update,
}
use handfast.Device.Trust.{pending_reply}
use handfast.Device.Links.{
  shell_identity, announced, entry_for_announcement, on_announce, mismatches, online, on_connected,
  restored, load_rows, load_persisted, offline, tell_closed, on_closed,
}
use handfast.Device.Invariant.{
  IsConsistent, IsSound, IsValid, Harmless, some_eq, removed_other, kept, inserted, insert-IsSound,
  changed-IsSound, drop-IsSound,
}

module _ {P : Type 0} where
  -- Past the gate, a pinned certificate is the one that the peer presents.
  pub unmismatched :
      (fingerprint fp : String) (s : DeviceState P)
      → mismatches fingerprint s ≡ false
      → s.pinned_fingerprint ≡ some fp
      → fp ≡ fingerprint
  unfolding mismatches
  unmismatched fingerprint fp s n p = (str_eq_iff fp fingerprint).0 (ground arith)

  online-IsConsistent :
      (fingerprint : String) (s : DeviceState P)
      → IsConsistent s
      → mismatches fingerprint s ≡ false
      → IsConsistent (online fingerprint s)
  unfolding online mismatches
  online-IsConsistent fingerprint s c n = record {
    live = refl;
    pending = λ _. refl;
    pinned = λ fp g p q. unmismatched fingerprint fp s n p ∙ some_eq q;
  }

module _ {P : Type 0} (created : List P) where
  -- A device with no connection, whatever is pinned.
  fresh-IsConsistent :
      (s : DeviceState P)
      → s.live_fingerprint ≡ none
      → s.outbound ≡ none
      → s.pending_pair_reply ≡ none
      → IsConsistent s
  fresh-IsConsistent s l o p = record {
    live = ap is_some l ∙ sym (ap is_some o);
    pending = λ h. ground arith;
    pinned = λ fp g a b. ground arith;
  }

  unknown-IsSound :
      (id : String) (s : DeviceState P) (m : Manager P)
      → IsValid m
      → lookup id m.devices ≡ none
      → IsConsistent s
      → IsSound (insert id s m.devices) m.incoming_pairs
  unknown-IsSound id s m v l c =
      insert-IsSound id s m.devices m.incoming_pairs v c (λ (t, lt, _). ground arith)

  announced-Harmless : (ip : String) (i : Identity) → Harmless {P = P} (announced ip i)
  unfolding announced
  announced-Harmless ip i = record {
    consistent = λ s c. record { live = c.live; pending = c.pending; pinned = c.pinned };
    connected = λ s up. up;
  }

  entry_for_announcement-IsValid :
      (ip : String) (i : Identity) (m : Manager P)
      → IsValid m
      → IsValid (entry_for_announcement created ip i m).1
  unfolding entry_for_announcement announced new_device
  entry_for_announcement-IsValid ip i m v = elim (Option-cases (lookup i.device_id m.devices)) [
    | inl l ↦
        rw (l, entry_for_announcement)
          (unknown-IsSound i.device_id _ m v l
            (fresh-IsConsistent (announced ip i (new_device created i)) refl refl refl))
    | inr (s, l) ↦
        rw (l, entry_for_announcement)
          (changed-IsSound i.device_id s (announced ip i) (announced-Harmless ip i) m.devices
            m.incoming_pairs v l)
  ]

  pub on_announce-IsValid :
      (ip : String) (i : Identity) (m : Manager P)
      → IsValid m
      → IsValid (on_announce created ip i m)
  unfolding on_announce
  on_announce-IsValid ip i m v =
      let w : IsValid (entry_for_announcement created ip i m).1 =
        entry_for_announcement-IsValid ip i m v in
      if_cases IsValid (not (entry_for_announcement created ip i m).0) _ _ (λ _. w)
        (λ _.
          elim (Option-cases (
            lookup i.device_id (entry_for_announcement created ip i m).1.devices >>= λ s. s.addr)) [
              | inl a ↦ rw a w
              | inr (addr, a) ↦ rw a w
            ])

  pub on_connected-IsValid :
      (id fingerprint : String) (m : Manager P)
      → IsValid m
      → IsValid (on_connected created id fingerprint m)
  unfolding on_connected online new_device mismatches
  on_connected-IsValid id fingerprint m v = elim (Option-cases (lookup id m.devices)) [
    | inl l ↦
        rw (l, on_connected)
          (unknown-IsSound id _ m v l (
            online-IsConsistent fingerprint _
              (fresh-IsConsistent (new_device created (shell_identity id id "unknown")) refl refl
                refl)
              refl))
    | inr (s, l) ↦
        rw (l, on_connected)
          (if_cases IsValid (mismatches fingerprint s) _ _ (λ _. v)
            (λ n.
              insert-IsSound id (online fingerprint s) m.devices m.incoming_pairs v
                (online-IsConsistent fingerprint s (v.consistent id s l) n) (λ _. refl)))
  ]

  restored-IsConsistent : (row : DeviceRow) → IsConsistent (restored created row)
  unfolding restored new_device
  restored-IsConsistent row = fresh-IsConsistent (restored created row) refl refl refl

  load_rows-IsSound :
      (self_id : String) (rows : Assoc DeviceRow) (devices : Assoc (DeviceState P))
      → IsSound devices []
      → IsSound (load_rows created self_id rows devices) []
  unfolding load_rows lookup
  load_rows-IsSound self_id [] devices v = v
  load_rows-IsSound self_id ((k, row) ∷ rows) devices v =
      load_rows-IsSound self_id rows
        (if str_eq row.device_id self_id
          then devices
          else insert row.device_id (restored created row) devices)
        (if_cases (λ d. IsSound d []) (str_eq row.device_id self_id) devices
          (insert row.device_id (restored created row) devices) (λ _. v)
          (λ _. record {
            consistent = λ j s l. elim (Bool-cases (str_eq row.device_id j)) [
              | inl e ↦
                  subst IsConsistent (some_eq (sym (inserted row.device_id j _ devices e) ∙ l))
                    (restored-IsConsistent row)
              | inr e ↦ v.consistent j s (sym (kept row.device_id j _ devices e) ∙ l)
            ];
            parked = λ j d l. absurd (ground arith);
          }))

  pub load_persisted-IsValid :
      (self_id : String) (st : Store) → IsValid (load_persisted created self_id (fresh st)).1
  unfolding load_persisted fresh lookup
  load_persisted-IsValid self_id st =
      let empty : IsSound {P = P} [] [] = record {
        consistent = λ j s l. absurd (ground arith);
        parked = λ j d l. absurd (ground arith);
      } in
      if_cases (λ (r : Bool × Manager P). IsValid r.1) st.faulty _ _ (λ _. empty)
        (λ _. load_rows-IsSound self_id st.rows [] empty)

module _ {P : Type 0} where
  offline-IsConsistent : (s : DeviceState P) → IsConsistent (offline s)
  unfolding offline
  offline-IsConsistent s = record {
    live = refl;
    pending = λ h. ground arith;
    pinned = λ fp g p q. ground arith;
  }

  -- A device goes offline, and its request is no longer parked.
  closed-IsSound :
      (id : String) (devices : Assoc (DeviceState P)) (pairs : Assoc ℕ)
      → IsSound devices pairs
      → IsSound (update id offline devices) (remove id pairs)
  unfolding update
  closed-IsSound id devices pairs v = elim (Option-cases (lookup id devices)) [
    | inl l ↦ rw (l, update) (drop-IsSound id devices pairs v)
    | inr (s, l) ↦
        rw (l, update)
          (record {
            consistent = λ j t q. elim (Bool-cases (str_eq id j)) [
              | inl e ↦
                  subst IsConsistent (some_eq (sym (inserted id j (offline s) devices e) ∙ q))
                    (offline-IsConsistent s)
              | inr e ↦ v.consistent j t (sym (kept id j (offline s) devices e) ∙ q)
            ];
            parked = λ j d q.
                let (ne, p) = removed_other id j d pairs q in
                let (t, lt, up) = v.parked j d p in (t, kept id j (offline s) devices ne ∙ lt, up);
          })
  ]

  tell_closed-IsValid : (o : Option ℕ) (m : Manager P) → IsValid m → IsValid (tell_closed o m)
  unfolding tell_closed
  tell_closed-IsValid none m v = v
  tell_closed-IsValid (some token) m v = v

  pub on_closed-IsValid : (id : String) (m : Manager P) → IsValid m → IsValid (on_closed id m)
  unfolding on_closed
  on_closed-IsValid id m v =
      tell_closed-IsValid (pending_reply id m) _ (closed-IsSound id m.devices m.incoming_pairs v)
