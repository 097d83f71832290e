-- ===== src/Device/Consent.antt =====
-- A device becomes trusted only with consent: no other command pins a certificate.
use handfast.Base.{
  ℕ, ◌≤◌, String, Bool, true, false, Option, none, some, ◌≡◌, refl, sym, ap, subst, ◌∙◌, ◌⊎◌, inl,
  inr, arith, lookup, remove, ltb, str_eq, str_eq_iff, if◌then◌else◌, if_cases, Option-cases,
  Bool-cases, not, ◌&&◌,
}
use handfast.Json.{Value, get_bool}
use handfast.Protocol.Packet.{Packet}
use handfast.Device.State.{DeviceState, Manager, Answer, ok, send_new, update}
use handfast.Device.Trust.{
  persist_trust, no_reply, connected, auto_accept, incoming_request, revoked, answered,
  pending_reply, on_pair_packet, decide, answer_incoming_pairing, reply,
}
use handfast.Device.Pins.{pin_of, update-pin, send_new-pin, persist_trust-pin}

unpinned :
    {P : Type 0} (o : Option (DeviceState P))
    → ◌≡◌ {A = Option String} (elim o [ none ↦ none | some s ↦ none ]) none
unpinned none = refl
unpinned (some s) = refl

module _ {P : Type 0} (id : String) where
  -- What makes a pair packet from `j` one that pins: the device itself asks for or accepts the
  -- pairing, and this side waits for its answer or accepts every request.
  abbrev pub PairConsent : String → Packet → Manager P → Type 0
  PairConsent j packet m =
      (j ≡ id)
      × (get_bool "pair" packet.body ≡ some true)
      × (((token : ℕ) × (pending_reply j m ≡ some token)) ⊎ (auto_accept m ≡ true))

  -- What makes a user's answer one that pins: it accepts a request from the device that is parked
  -- and has not expired.
  abbrev pub UserConsent : ℕ → String → Bool → Manager P → Type 0
  UserConsent now j accept m =
      (j ≡ id)
      × (accept ≡ true)
      × ((deadline : ℕ) × (lookup j m.incoming_pairs ≡ some deadline) × (now ≤ deadline))

module _ {P : Type 0} (id fp : String) where
  -- That `m` pins the certificate requires `C`.
  abbrev pub Needs : Type 0 → Manager P → Type 0
  Needs C m = pin_of id m ≡ some fp → C

  pub stays-Needs :
      (C : Type 0) (m l : Manager P) → pin_of id m ≡ none → pin_of id l ≡ pin_of id m → Needs C l
  stays-Needs C m l n e h = absurd (let q : some fp ≡ none = sym h ∙ e ∙ n in ground (arith, q))

  -- Trust in another device, or its end, pins nothing here.
  pub persist_trust-Needs :
      (C : Type 0) (now : ℕ) (j : String) (paired : Bool) (m : Manager P)
      → pin_of id m ≡ none
      → (j ≡ id → paired ≡ true → C)
      → Needs C (persist_trust now j paired m)
  persist_trust-Needs C now j true m n c h = elim (Bool-cases (str_eq j id)) [
    | inl q ↦ c ((str_eq_iff j id).0 q) refl
    | inr q ↦
        stays-Needs C m (persist_trust now j true m) n
          (persist_trust-pin now id j true m ∙ rw q refl) h
  ]
  persist_trust-Needs C now j false m n c h = elim (Bool-cases (str_eq j id)) [
    | inl q ↦
        stays-Needs C m (persist_trust now j false m) n
          (persist_trust-pin now id j false m ∙ rw q (unpinned (lookup j m.devices)) ∙ sym n) h
    | inr q ↦
        stays-Needs C m (persist_trust now j false m) n
          (persist_trust-pin now id j false m ∙ rw q refl) h
  ]

  pub sent-Needs :
      (C : Type 0) (j ptype : String) (body : Value) (m : Manager P)
      → Needs C m
      → Needs C (send_new j ptype body m)
  sent-Needs C j ptype body m c h = c (sym (send_new-pin id j ptype body m) ∙ h)

  revoked-Needs :
      (C : Type 0) (now : ℕ) (j : String) (m : Manager P)
      → pin_of id m ≡ none
      → Needs C (revoked now j m)
  unfolding revoked
  revoked-Needs C now j m n =
      persist_trust-Needs C now j false (record m { incoming_pairs = remove j m.incoming_pairs }) n
        (λ _ q. absurd (ground arith))

  incoming_request-Needs :
      (now : ℕ) (j : String) (m : Manager P)
      → pin_of id m ≡ none
      → Needs ((j ≡ id) × (auto_accept m ≡ true)) (incoming_request now j m)
  unfolding incoming_request
  incoming_request-Needs now j m n =
      let C : Type 0 = (j ≡ id) × (auto_accept m ≡ true) in
      if_cases (Needs C) (auto_accept m && connected j m) _ _
        (λ a.
          sent-Needs C j _ _ (persist_trust now j true m)
            (persist_trust-Needs C now j true m n (λ q _. (q, ground (arith, a)))))
        (λ _.
          if_cases (Needs C) (not (connected j m)) _ _
            (λ _. sent-Needs C j _ _ m (stays-Needs C m m n refl)) (λ _. stays-Needs C m m n refl))

  answered-Needs :
      (now : ℕ) (j : String) (wants_pair : Bool) (token : ℕ) (m : Manager P)
      → pin_of id m ≡ none
      → Needs ((j ≡ id) × (wants_pair ≡ true)) (answered now j wants_pair token m)
  unfolding answered
  answered-Needs now j wants_pair token m n =
      let C : Type 0 = (j ≡ id) × (wants_pair ≡ true) in
      let m' : Manager P =
        reply token (ok wants_pair) (record m { devices = update j no_reply m.devices }) in
      let n' : pin_of id m' ≡ none = update-pin id j no_reply m.devices (λ s. refl) ∙ n in
      if_cases (Needs C) wants_pair _ _
        (λ w. persist_trust-Needs C now j true m' n' (λ q _. (q, w)))
        (λ _. stays-Needs C m' m' n' refl)

  pub on_pair_packet-Needs :
      (now : ℕ) (j : String) (packet : Packet) (m : Manager P)
      → pin_of id m ≡ none
      → Needs (PairConsent id j packet m) (on_pair_packet now j packet m)
  unfolding on_pair_packet
  on_pair_packet-Needs now j packet m n = elim (Option-cases (get_bool "pair" packet.body)) [
    | inl b ↦
        let e : on_pair_packet now j packet m ≡ m = rw (b, on_pair_packet) refl in
        subst (Needs (PairConsent id j packet m)) (sym e)
          (stays-Needs (PairConsent id j packet m) m m n refl)
    | inr (w, b) ↦ elim (Option-cases (pending_reply j m)) [
      | inr (token, p) ↦
          let e : on_pair_packet now j packet m ≡ answered now j w token m =
            rw (b, p, on_pair_packet) refl in
          subst (Needs (PairConsent id j packet m)) (sym e) (λ h.
            let (q, t) = answered-Needs now j w token m n h in (q, b ∙ ap some t, inl (token, p)))
      | inl p ↦
          let e : on_pair_packet now j packet m
              ≡ (if w then incoming_request now j m else revoked now j m) =
            rw (b, p, on_pair_packet) refl in
          subst (Needs (PairConsent id j packet m)) (sym e) (
            if_cases (Needs (PairConsent id j packet m)) w _ _
              (λ t h. let (q, a) = incoming_request-Needs now j m n h in (q, b ∙ ap some t, inr a))
              (λ _. revoked-Needs (PairConsent id j packet m) now j m n))
    ]
  ]

  decide-Needs :
      (now : ℕ) (j : String) (accept : Bool) (d : ℕ) (m : Manager P)
      → pin_of id m ≡ none
      → Needs ((j ≡ id) × (accept ≡ true) × (now ≤ d)) (decide now j accept d m).1
  unfolding decide
  decide-Needs now j accept d m n =
      let C : Type 0 = (j ≡ id) × (accept ≡ true) × (now ≤ d) in
      if_cases (λ (r : Answer Unit × Manager P). Needs C r.1) (ltb d now) _ _
        (λ _. stays-Needs C m m n refl)
        (λ late. sent-Needs C j _ _ (if accept then persist_trust now j true m else m) (
          if_cases (Needs C) accept _ _
            (λ t. persist_trust-Needs C now j true m n (λ q _. (q, t, ground (arith, late))))
            (λ _. stays-Needs C m m n refl)))

  pub answer_incoming_pairing-Needs :
      (now : ℕ) (j : String) (accept : Bool) (m : Manager P)
      → pin_of id m ≡ none
      → Needs (UserConsent id now j accept m) (answer_incoming_pairing now j accept m).1
  unfolding answer_incoming_pairing
  answer_incoming_pairing-Needs now j accept m n = elim (Option-cases (lookup j m.incoming_pairs)) [
    | inl l ↦
        let e : (answer_incoming_pairing now j accept m).1 ≡ m =
          rw (l, answer_incoming_pairing) refl in
        subst (Needs (UserConsent id now j accept m)) (sym e)
          (stays-Needs (UserConsent id now j accept m) m m n refl)
    | inr (d, l) ↦
        let m' : Manager P = record m { incoming_pairs = remove j m.incoming_pairs } in
        let e : (answer_incoming_pairing now j accept m).1 ≡ (decide now j accept d m').1 =
          rw (l, answer_incoming_pairing) refl in
        subst (Needs (UserConsent id now j accept m)) (sym e)
          (λ h. let (q, t, u) = decide-Needs now j accept d m' n h in (q, t, (d, l, u)))
  ]
