-- ===== src/Device/Sending/Cleaned.antt =====
-- What becomes of the temporary copy of a file that is sent, and of the registry of transfers.
use handfast.Base.{
  ℕ, String, false, not, Option, none, some, [], ◌==◌, lookup, ◌≡◌, true, refl, sym, subst, ap, ◌∙◌,
  Option-cases, inl, inr, if_cases,
}
use handfast.Protocol.Types.{type_share}
use handfast.Protocol.Packet.{new, with_payload}
use handfast.Device.State.{DeviceState, Manager, Answer, send_out, is_connected}
use handfast.Device.Sending.{
  FileMeta, Source, SendEnv, SendError, no_port, not_sent, finish_empty, register_empty, send_empty,
  empty_header, unknown, err, temps, Sent, send_full, send_regular, send_source, send_file, offered,
  finish_full, full_header, bind, as_i64,
}

abbrev pub NotEmpty : Option FileMeta → Type 0
NotEmpty none = Unit
NotEmpty (some meta) = (meta.len == 0) ≡ false

-- The errors after which the source removes the copy, by what was found of the file.
abbrev pub IsHandled : SendError → Option FileMeta → Type 0
IsHandled no_port meta = ⊥
IsHandled (not_sent _) meta = NotEmpty meta
IsHandled _ meta = Unit

module _ {P : Type 0} where
  -- If it fails with this error, the copy is gone and nothing was registered.
  abbrev Cleans : Source → Manager P → SendError → Sent P → Type 0
  Cleans src m e r = r.0 ≡ err e → (r.1 ≡ temps src) × (r.2.transfers ≡ m.transfers)

  finish_full-Cleans :
      (a : Answer Unit) (src : Source) (size port : ℕ) (id : String) (m : Manager P) (e : SendError)
      → Cleans src m e (finish_full a src size port id m)
  unfolding finish_full
  finish_full-Cleans (Answer.err _) src size port id m e h = (refl, refl)
  finish_full-Cleans (Answer.ok _) src size port id m e h = cc

  send_full-Cleans :
      (src : Source) (meta : FileMeta) (port : ℕ) (id : String) (s : DeviceState P) (m : Manager P)
      (e : SendError)
      → Cleans src m e (send_full src meta port id s m)
  unfolding send_full
  send_full-Cleans src meta port id s m e =
      let (bare, counter') = new m.counter type_share (full_header src meta) in
      let (answer, s') = send_out (with_payload bare (as_i64 meta.len) port) s in
      finish_full-Cleans answer src meta.len port id (offered id s' counter' m) e

  finish_empty-Cleans :
      (a : Answer Unit) (src : Source) (meta : FileMeta) (id : String) (m : Manager P)
      (e : SendError)
      → IsHandled e (some meta)
      → (meta.len == 0) ≡ true
      → Cleans src m e (finish_empty a src id m)
  unfolding finish_empty register_empty
  finish_empty-Cleans (Answer.err x) src meta id m e c z h =
      let same : e ≡ not_sent x = cc in
      let full : (meta.len == 0) ≡ false = subst (λ d. IsHandled d (some meta)) same c in
      absurd (cc)
  finish_empty-Cleans (Answer.ok _) src meta id m e c z h = absurd (cc)

  send_empty-Cleans :
      (src : Source) (meta : FileMeta) (id : String) (s : DeviceState P) (m : Manager P)
      (e : SendError)
      → IsHandled e (some meta)
      → (meta.len == 0) ≡ true
      → Cleans src m e (send_empty src meta id s m)
  unfolding send_empty
  send_empty-Cleans src meta id s m e c z =
      let (header, counter') = new m.counter type_share (empty_header src meta) in
      let (answer, s') = send_out header s in
      finish_empty-Cleans answer src meta id (offered id s' counter' m) e c z

  send_regular-Cleans :
      (env : SendEnv) (src : Source) (meta : FileMeta) (id : String) (s : DeviceState P)
      (m : Manager P) (e : SendError)
      → IsHandled e (some meta)
      → Cleans src m e (send_regular env src meta id s m)
  unfolding send_regular
  send_regular-Cleans env src meta id s m e c =
      if_cases (Cleans src m e) (not (is_connected s)) _ _ (λ _ _. (refl, refl))
        (λ _.
          if_cases (Cleans src m e) (meta.len == 0) _ _ (send_empty-Cleans src meta id s m e c)
            (λ _. ported (bind env)))
    where
      ported :
          (port : Option ℕ)
          → Cleans src m e
              (elim port [ none ↦ (err no_port, [], m) | some p ↦ send_full src meta p id s m ])
      ported none h =
          let same : e ≡ no_port = cc in absurd (subst (λ d. IsHandled d (some meta)) same c)
      ported (some p) h = send_full-Cleans src meta p id s m e h

  send_source-Cleans :
      (env : SendEnv) (src : Source) (id : String) (m : Manager P) (e : SendError)
      → IsHandled e env.metadata
      → Cleans src m e (send_source env src id m)
  unfolding send_source
  send_source-Cleans env src id m e c = elim (Option-cases env.metadata) [
    | inl l ↦ rw (l, send_source) (λ _. (refl, refl))
    | inr (meta, l) ↦
        let c' : IsHandled e (some meta) = subst (IsHandled e) l c in
        rw (l, send_source)
          (if_cases (Cleans src m e) (not meta.is_file) _ _ (λ _ _. (refl, refl))
            (λ _. known meta c' (lookup id m.devices)))
  ]
    where
      known :
          (meta : FileMeta)
          → IsHandled e (some meta)
          → (d : Option (DeviceState P))
          → Cleans src m e (elim d [
            | none ↦ (err unknown, temps src, m)
            | some s ↦ send_regular env src meta id s m
          ])
      known meta c' none h = (refl, refl)
      known meta c' (some s) h = send_regular-Cleans env src meta id s m e c' h

  -- A send that fails after its source was made a local file leaves nothing behind, with two exceptions:
  -- no data port can be bound, or the file is empty and its header cannot be sent. In every other case
  -- the temporary copy is removed and no transfer is registered. (A source that cannot be made a local
  -- file is not covered: the code that fetches it may leave a partial copy.)
  pub send_file-cleans :
      (env : SendEnv) (src : Source) (id : String) (m : Manager P) (e : SendError)
      → env.source ≡ some src
      → IsHandled e env.metadata
      → (send_file env id m).0 ≡ err e
      → ((send_file env id m).1 ≡ temps src) × ((send_file env id m).2.transfers ≡ m.transfers)
  unfolding send_file
  send_file-cleans env src id m e l c h =
      subst (λ (r : Sent P). (r.1 ≡ temps src) × (r.2.transfers ≡ m.transfers)) (sym (opened l))
        (send_source-Cleans env src id m e c (ap (λ (r : Sent P). r.0) (sym (opened l)) ∙ h))
    where
      opened : env.source ≡ some src → send_file env id m ≡ send_source env src id m
      opened l = rw (l, send_file) refl
