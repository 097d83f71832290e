-- ===== src/Tui/Session/Reply.antt =====
-- A reply that is composed goes to the notification that was under the cursor when it was opened.
use handfast.Base.{
  ℕ, String, Bool, true, false, not, ◌&&◌, Option, none, some, List, [], ◌∷◌, ◌++◌, All, ◌≡◌, refl,
  arith, if◌then◌else◌, Bool-cases, Option-cases, inl, inr, sym, ap, subst, ◌∙◌,
}
use handfast.Ipc.Proto.{ServerEvent}
use handfast.Tui.Model.{NotifRow}
use handfast.Tui.State.{
  Tab, State, Outcome, Action, reply_to_notification, apply_event, apply_outcome, on_event,
  on_outcome, clamp_cursors,
}
use handfast.Tui.Focus.{get_elem?}
use handfast.Base.Text.{trim}
use handfast.Tui.Draft.{
  KeyCode, KeyEvent, handle_reply_key, pop, reply_action, submit_reply, no_rows, open_reply,
  begin_reply,
}
use handfast.Tui.Keys.{handle_key, is_interrupt}
use handfast.Tui.Session.{Input, event, outcome, key, react, run, asked}

abbrev pub press : KeyCode → Input
press c = key (record { press = true; control = false; code = c })

-- The inputs that end a reply or the session: Enter, Esc and Ctrl+C.
abbrev ends : KeyCode → Bool
ends KeyCode.enter = true
ends KeyCode.esc = true
ends _ = false

abbrev pub is_closing : Input → Bool
is_closing (event e) = false
is_closing (outcome o) = false
is_closing (key k) = k.press && (if k.control then is_interrupt k.code else ends k.code)

-- What a key does to a text that is being typed.
abbrev edit_by : KeyCode → List ℕ → List ℕ
edit_by (KeyCode.char c) text = text ++ c ∷ []
edit_by KeyCode.backspace text = pop text
edit_by _ text = text

abbrev edit : Input → List ℕ → List ℕ
edit (event e) text = text
edit (outcome o) text = text
edit (key k) text = if k.press && not k.control then edit_by k.code text else text

abbrev pub typed : List Input → List ℕ → List ℕ
typed [] text = text
typed (i ∷ is) text = typed is (edit i text)

-- The one action that a text for a notification asks for: none if it is empty.
abbrev pub answer_with : String → List ℕ → Option Action
answer_with id [] = none
answer_with id (c ∷ cs) = some (reply_to_notification id (c ∷ cs))

-- A reply to `id` is being composed, with this draft.
record IsComposing (id : String) (draft : List ℕ) (s : State) : Type 0 where
  opened : s.reply_open ≡ true
  target : s.reply_target ≡ some id
  text : s.reply_draft ≡ draft

event-IsComposing :
    (e : ServerEvent) (id : String) (draft : List ℕ) (s : State)
    → IsComposing id draft s
    → IsComposing id draft (on_event e s)
unfolding on_event
event-IsComposing (ServerEvent.hello version app pid) id draft s c = ground arith
event-IsComposing _ id draft s c = ground arith

clamped-IsComposing :
    (id : String) (draft : List ℕ) (s : State)
    → IsComposing id draft s
    → IsComposing id draft (record (clamp_cursors s) { dirty = true })
unfolding clamp_cursors
clamped-IsComposing id draft s c = record { opened = c.opened; target = c.target; text = c.text }

outcome-IsComposing :
    (o : Outcome) (id : String) (draft : List ℕ) (s : State)
    → IsComposing id draft s
    → IsComposing id draft (on_outcome o s)
unfolding on_outcome
outcome-IsComposing (Outcome.flash message) id draft s c = ground arith
outcome-IsComposing _ id draft s c = ground arith

key-IsComposing :
    (k : KeyCode) (id : String) (draft : List ℕ) (s : State)
    → ends k ≡ false
    → IsComposing id draft s
    → ((handle_reply_key k s).1 ≡ none) × IsComposing id (edit_by k draft) (handle_reply_key k s).0
unfolding handle_reply_key
key-IsComposing KeyCode.enter id draft s n c = cc
key-IsComposing KeyCode.esc id draft s n c = cc
key-IsComposing _ id draft s n c = (ground arith, ground arith)

-- While a reply is open it gets the keys.
pressed_key :
    (k : KeyEvent) (s : State)
    → k.press ≡ true
    → k.control ≡ false
    → s.reply_open ≡ true
    → handle_key k s ≡ handle_reply_key k.code s
unfolding handle_key
pressed_key k s p q o = simp (p, q, o)

-- One input that does not close the reply: no action, and the draft is edited.
react-IsComposing :
    (i : Input) (id : String) (draft : List ℕ) (s : State)
    → is_closing i ≡ false
    → IsComposing id draft s
    → ((react i s).1 ≡ none) × IsComposing id (edit i draft) (react i s).0
unfolding react apply_event apply_outcome handle_key
react-IsComposing (event e) id draft s n c =
    (refl, clamped-IsComposing id draft (on_event e s) (event-IsComposing e id draft s c))
react-IsComposing (outcome o) id draft s n c =
    (refl, clamped-IsComposing id draft (on_outcome o s) (outcome-IsComposing o id draft s c))
react-IsComposing (key k) id draft s n c = elim (Bool-cases k.press) [
  | inl p ↦ elim (Bool-cases k.control) [
    | inl q ↦
        let n' : is_interrupt k.code ≡ false = ground arith in rw (handle_key, p, q, n') (refl, c)
    | inr q ↦
        let n' : ends k.code ≡ false = ground arith in
        subst
          (λ (r : State × Option Action). (r.1 ≡ none) × IsComposing id (edit (key k) draft) r.0)
          (sym (pressed_key k s p q c.opened)) (rw (p, q) (key-IsComposing k.code id draft s n' c))
  ]
  | inr p ↦ rw (handle_key, p) (refl, c)
]

composed :
    (is : List Input) (id : String) (draft : List ℕ) (s : State)
    → All (λ i. is_closing i ≡ false) is
    → IsComposing id draft s
    → ((run is s).1 ≡ []) × IsComposing id (typed is draft) (run is s).0
unfolding run
composed [] id draft s n c = (refl, c)
composed (i ∷ is) id draft s n c =
    let (quiet, c') = react-IsComposing i id draft s n.0 c in
    let (silent, c'') = composed is id (edit i draft) (react i s).0 n.1 c' in
    (rw (quiet, silent) refl, c'')

run-append :
    (is js : List Input) (s : State)
    → (run (is ++ js) s).1 ≡ (run is s).1 ++ (run js (run is s).0).1
unfolding run
run-append [] js s = refl
run-append (i ∷ is) js s = elim (Option-cases (react i s).1) [
  | inl e ↦ rw e (run-append is js (react i s).0)
  | inr (a, e) ↦ rw e (ap (◌∷◌ a) (run-append is js (react i s).0))
]

answered :
    (id : String) (text : List ℕ) (target : Option String)
    → target ≡ some id
    → reply_action target text ≡ answer_with id text
unfolding reply_action
answered id [] target e = rw e refl
answered id (c ∷ cs) target e = rw e refl

submit_reply-answer :
    (id : String) (draft : List ℕ) (s : State)
    → IsComposing id draft s
    → (submit_reply s).1 ≡ answer_with id (trim draft)
unfolding submit_reply
submit_reply-answer id draft s c =
    answered id (trim s.reply_draft) s.reply_target c.target
    ∙ ap (λ (d : List ℕ). answer_with id (trim d)) c.text

submitted :
    (id : String) (draft : List ℕ) (s : State)
    → IsComposing id draft s
    → (run (press KeyCode.enter ∷ []) s).1 ≡ asked (answer_with id (trim draft)) []
unfolding run react handle_key
submitted id draft s c =
    simp (c.opened) (ap (λ (a : Option Action). asked a []) (submit_reply-answer id draft s c))

found_not_empty {ℓ} :
    {A : Type ℓ} (xs : List A) (i : ℕ) {x : A} → get_elem? xs i ≡ some x → no_rows xs ≡ false
unfolding get_elem?
found_not_empty [] i e = cc
found_not_empty (_ ∷ _) i e = refl

open_reply_lem :
    (row : NotifRow) (s : State)
    → s.tab ≡ Tab.notifications
    → get_elem? s.notifications s.notification_cursor ≡ some row
    → open_reply s ≡ (begin_reply row.id s, none)
unfolding open_reply
open_reply_lem row s t e = ground (arith, found_not_empty s.notifications s.notification_cursor e)

abbrev key_r : KeyEvent
key_r = record { press = true; control = false; code = KeyCode.char b'r' }

opened_reply :
    (row : NotifRow) (s : State)
    → s.tab ≡ Tab.notifications
    → s.reply_open ≡ false
    → get_elem? s.notifications s.notification_cursor ≡ some row
    → handle_key key_r s ≡ (begin_reply row.id s, none)
unfolding handle_key
opened_reply row s t o e = simp (o) (open_reply_lem row s t e)

begin_reply-IsComposing : (id : String) (s : State) → IsComposing id [] (begin_reply id s)
unfolding begin_reply
begin_reply-IsComposing id s = record { opened = refl; target = refl; text = refl }

-- On the Notifications tab, with no reply open and a row under the cursor, `r` opens a reply to that
-- row. Whatever then arrives and is typed, short of Enter, Esc and Ctrl+C, nothing is asked for, and
-- Enter asks for exactly one thing: that the trimmed text goes to that row's notification, also when
-- rows have come and gone meanwhile; or for nothing, if the trimmed text is empty.
pub reply_goes_to_row :
    (row : NotifRow) (inputs : List Input) (s : State)
    → s.tab ≡ Tab.notifications
    → s.reply_open ≡ false
    → get_elem? s.notifications s.notification_cursor ≡ some row
    → All (λ i. is_closing i ≡ false) inputs
    → (run (press (KeyCode.char b'r') ∷ (inputs ++ press KeyCode.enter ∷ [])) s).1
      ≡ asked (answer_with row.id (trim (typed inputs []))) []
unfolding run react
reply_goes_to_row row inputs s t o e n =
    let (silent, c) =
      composed inputs row.id [] (begin_reply row.id s) n (begin_reply-IsComposing row.id s) in
    rw
      (
        opened_reply row s t o e,
        run-append inputs (press KeyCode.enter ∷ []) (begin_reply row.id s),
        silent,
      )
      (submitted row.id (typed inputs []) (run inputs (begin_reply row.id s)).0 c)
