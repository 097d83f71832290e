-- ===== src/Device/Links/Restart.antt =====
-- Trust across a restart of the daemon: `load_persisted` restores what the store holds.
use handfast.Base.{
  String, true, false, Option, none, some, List, [], ◌∷◌, ◌≡◌, refl, sym, ap, subst, ◌∙◌, inl, inr,
  arith, Assoc, lookup, insert, str_eq, str_eq_iff, if◌then◌else◌, if_cases, Bool-cases,
}
use handfast.Device.State.{DeviceRow, DeviceState, Manager, Store, fresh}
use handfast.Device.Links.{restored, load_rows, load_persisted}
use handfast.Device.Invariant.{inserted, kept}
use handfast.Device.Accepted.{IsTrusted}
use handfast.Device.Pins.{pin, pin_of}

-- The device id is the primary key of the rows.
abbrev pub IsKeyed : Assoc DeviceRow → Type 0
IsKeyed [] = Unit
IsKeyed ((k, row) ∷ rows) = (row.device_id ≡ k) × (lookup k rows ≡ none) × IsKeyed rows

-- The certificate that a row trusts.
abbrev pub row_pin : DeviceRow → Option String
row_pin row = if row.paired then some row.cert_fingerprint else none

-- The pin that the rows give, or the one that was there.
abbrev stored_pin : Option DeviceRow → Option String → Option String
stored_pin none before = before
stored_pin (some row) before = row_pin row

module _ {P : Type 0} (created : List P) (self_id : String) where
  restored-pin : (row : DeviceRow) → (restored created row).pinned_fingerprint ≡ row_pin row
  unfolding restored
  restored-pin row = refl

  -- One row of another device leaves the pin, and one of this device sets it.
  load_one :
      (id : String) (row : DeviceRow) (devices : Assoc (DeviceState P))
      → str_eq id self_id ≡ false
      → pin (
          lookup id (
            if str_eq row.device_id self_id
            then devices
            else insert row.device_id (restored created row) devices))
        ≡ (if str_eq row.device_id id then row_pin row else pin (lookup id devices))
  load_one id row devices n = elim (Bool-cases (str_eq row.device_id id)) [
    | inl q ↦
        let other : str_eq row.device_id self_id ≡ false =
          subst (λ k. str_eq k self_id ≡ false) (sym ((str_eq_iff row.device_id id).0 q)) n in
        rw (other, q)
          (ap pin (inserted row.device_id id (restored created row) devices q) ∙ restored-pin row)
    | inr q ↦ rw q (
        if_cases (λ d. pin (lookup id d) ≡ pin (lookup id devices)) (str_eq row.device_id self_id)
          devices (insert row.device_id (restored created row) devices) (λ _. refl)
          (λ _. ap pin (kept row.device_id id (restored created row) devices q)))
  ]

  load_rows-pin :
      (id : String) (rows : Assoc DeviceRow) (devices : Assoc (DeviceState P))
      → IsKeyed rows
      → str_eq id self_id ≡ false
      → pin (lookup id (load_rows created self_id rows devices))
        ≡ stored_pin (lookup id rows) (pin (lookup id devices))
  unfolding load_rows lookup
  load_rows-pin id [] devices keyed n = refl
  load_rows-pin id ((k, row) ∷ rows) devices keyed n =
      load_rows-pin id rows _ keyed.2 n ∙ elim (Bool-cases (str_eq k id)) [
        | inl q ↦
            let gone : lookup id rows ≡ none =
              subst (λ j. lookup j rows ≡ none) ((str_eq_iff k id).0 q) keyed.1 in
            let here : str_eq row.device_id id ≡ true =
              subst (λ j. str_eq j id ≡ true) (sym keyed.0) q in
            rw (q, gone) (load_one id row devices n ∙ rw here refl)
        | inr q ↦
            let elsewhere : str_eq row.device_id id ≡ false =
              subst (λ j. str_eq j id ≡ false) (sym keyed.0) q in
            rw q (ap (stored_pin (lookup id rows)) (load_one id row devices n ∙ rw elsewhere refl))
      ]

  -- With rows that are keyed by device id, a restarted daemon trusts another device exactly as its
  -- row says: with the stored certificate when the row is paired, and not at all otherwise.
  pub load_persisted-pin :
      (id : String) (st : Store) (row : DeviceRow)
      → IsKeyed st.rows
      → str_eq id self_id ≡ false
      → st.faulty ≡ false
      → lookup id st.rows ≡ some row
      → pin_of id (load_persisted created self_id (fresh st)).1 ≡ row_pin row
  unfolding load_persisted fresh
  load_persisted-pin id st row keyed n f l =
      rw f (
        load_rows-pin id st.rows [] keyed n ∙ ap (λ o. stored_pin o (pin {P = P} (lookup id []))) l)

  -- A device that is trusted with a certificate, in memory and in the store, is trusted with the same
  -- certificate after a restart of the daemon.
  pub restart-IsTrusted :
      (id fp : String) (m : Manager P)
      → IsTrusted id fp m
      → IsKeyed m.store.rows
      → str_eq id self_id ≡ false
      → m.store.faulty ≡ false
      → pin_of id (load_persisted created self_id (fresh m.store)).1 ≡ some fp
  restart-IsTrusted id fp m t keyed n f =
      load_persisted-pin id m.store t.row keyed n f t.stored
      ∙ rw t.row_paired (ap some t.row_fingerprint)

-- The upsert of a row under its device id keeps the rows keyed.
pub insert-IsKeyed :
    (row : DeviceRow) (rows : Assoc DeviceRow)
    → IsKeyed rows
    → IsKeyed (insert row.device_id row rows)
unfolding insert lookup
insert-IsKeyed row [] keyed = (refl, refl, tt)
insert-IsKeyed row ((k, r) ∷ rows) keyed =
    if_cases IsKeyed (str_eq k row.device_id) _ _
      (λ q. (
        refl,
        subst (λ j. lookup j rows ≡ none) ((str_eq_iff k row.device_id).0 q) keyed.1,
        keyed.2,
      ))
      (λ q. (
        keyed.0,
        kept row.device_id k row rows
              (ground (arith, str_eq_iff k row.device_id, str_eq_iff row.device_id k))
            ∙ keyed.1,
        insert-IsKeyed row rows keyed.2,
      ))
