-- ===== src/Tui/Session/Buffers.antt =====
-- The buffer of the notifications keeps the newest ones.
use handfast.Base.{
  ℕ, ◌≤◌, ◌-◌, suc, List, [], ◌∷◌, ◌++◌, length, drop, map, length-append, append_assoc, append-nil,
  true, ◌≡◌, refl, sym, ap, ◌∙◌, arith, Bool-cases, inl, inr, ltb,
}
use handfast.Ipc.Proto.{ServerEvent}
use handfast.Tui.Model.{NotifRow}
use handfast.Tui.State.{State, cap_front, notification_cap, apply_event, on_event, clamp_cursors}
use handfast.Tui.Session.Invariant.{length-cap_front}
use handfast.Tui.Session.{Input, event, run, react}

-- The event by which the daemon sends a notification.
abbrev pub received : NotifRow → Input
received row = event (ServerEvent.notification_received row.id row.app row.title row.body)

module _ {ℓ} {A : Type ℓ} where
  -- The loop that drops the oldest entries drops as many as are too many.
  cap_front-eq-drop : (cap : ℕ) (xs : List A) → cap_front cap xs ≡ drop (length xs - cap) xs
  unfolding cap_front
  cap_front-eq-drop cap [] = let k : 0 - cap ≡ 0 = omega arith in rw k refl
  cap_front-eq-drop cap (x ∷ xs) = elim (Bool-cases (ltb cap (suc (length xs)))) [
    | inl e ↦
        let k : suc (length xs) - cap ≡ suc (length xs - cap) = ground arith in
        rw (e, k) (cap_front-eq-drop cap xs)
    | inr e ↦ let k : suc (length xs) - cap ≡ 0 = ground arith in rw (e, k) refl
  ]

  -- A push after a loop is a loop after the push.
  cap_front-append :
      (cap : ℕ) (xs ys : List A) → cap_front cap (cap_front cap xs ++ ys) ≡ cap_front cap (xs ++ ys)
  unfolding cap_front
  cap_front-append cap [] ys = refl
  cap_front-append cap (x ∷ xs) ys = elim (Bool-cases (ltb cap (suc (length xs)))) [
    | inl e ↦
        let more : ltb cap (suc (length (xs ++ ys))) ≡ true = ground (arith, length-append xs ys) in
        rw (e, more) (cap_front-append cap xs ys)
    | inr e ↦ rw e refl
  ]

  cap_front_fits : (cap : ℕ) (xs : List A) → length xs ≤ cap → cap_front cap xs ≡ xs
  unfolding cap_front
  cap_front_fits cap [] h = refl
  cap_front_fits cap (x ∷ xs) h = ground arith

received_all :
    (rows : List NotifRow) (s : State)
    → length s.notifications ≤ notification_cap
    → (run (map received rows) s).0.notifications
      ≡ cap_front notification_cap (s.notifications ++ rows)
unfolding run react apply_event clamp_cursors on_event
received_all [] s h =
    sym (rw (append-nil s.notifications) (cap_front_fits notification_cap s.notifications h))
received_all (r ∷ rows) s h =
    received_all rows (react (received r) s).0
      (length-cap_front notification_cap (s.notifications ++ r ∷ []))
    ∙ cap_front-append notification_cap (s.notifications ++ r ∷ []) rows
    ∙ ap (cap_front notification_cap) (append_assoc s.notifications (r ∷ []) rows)

-- After any number of notifications, the buffer, which had no more than 200 rows, has the rows that it
-- had and the new ones, in order, without the oldest ones that are too many for 200.
pub newest_kept :
    (rows : List NotifRow) (s : State)
    → length s.notifications ≤ notification_cap
    → (run (map received rows) s).0.notifications
      ≡ drop (length (s.notifications ++ rows) - notification_cap) (s.notifications ++ rows)
newest_kept rows s h =
    received_all rows s h ∙ cap_front-eq-drop notification_cap (s.notifications ++ rows)
