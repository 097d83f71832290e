-- ===== src/Tui/Draft.antt =====
-- crates/tui/src/state.rs: the reply to a notification, from its opening to its confirmation, with
-- the key codes. A character is its code point.
use handfast.Base.{
  ℕ, String, Bool, true, false, not, ◌&&◌, Option, none, some, List, [], ◌∷◌, ◌++◌, if◌then◌else◌,
}
use handfast.Tui.State.{Action, State, reply_to_notification}
use handfast.Base.Text.{trim}
use handfast.Tui.Focus.{is_notifications, selected_notification_id}

pub data KeyCode : Type 0 where
  char : ℕ → KeyCode
  tab back_tab down up home end enter esc backspace other : KeyCode

-- A key event: whether it is a press, whether Ctrl is held, and its code.
pub record KeyEvent : Type 0 where
  pub press : Bool
  pub control : Bool
  pub code : KeyCode

unfoldable pub begin_reply : String → State → State
begin_reply id s = record s {
  reply_open = true;
  reply_target = some id;
  reply_draft = [];
  dirty = true;
}

abbrev pub no_rows {ℓ} : {A : Type ℓ} → List A → Bool
no_rows [] = true
no_rows (_ ∷ _) = false

unfoldable pub open_reply : State → State × Option Action
unfolding is_notifications selected_notification_id begin_reply
open_reply s =
    let target =
      if is_notifications s.tab && not (no_rows s.notifications)
      then selected_notification_id s
      else none in
    elim target [ some id ↦ (begin_reply id s, none) | none ↦ (s, none) ]

unfoldable pub cancel_reply : State → State
cancel_reply s = record s { reply_open = false; reply_target = none; reply_draft = [] }

-- The action that a draft for a target asks for.
unfoldable pub reply_action : Option String → List ℕ → Option Action
reply_action (some id) (c ∷ cs) = some (reply_to_notification id (c ∷ cs))
reply_action (some id) [] = none
reply_action none _ = none

unfoldable pub submit_reply : State → State × Option Action
unfolding trim cancel_reply reply_action
submit_reply s =
    (record (cancel_reply s) { dirty = true }, reply_action s.reply_target (trim s.reply_draft))

-- `String::pop`
unfoldable pub pop : List ℕ → List ℕ
pop [] = []
pop (c ∷ []) = []
pop (c ∷ d ∷ cs) = c ∷ pop (d ∷ cs)

unfoldable pub handle_reply_key : KeyCode → State → State × Option Action
unfolding submit_reply cancel_reply pop
handle_reply_key KeyCode.enter s = submit_reply s
handle_reply_key KeyCode.esc s = (record (cancel_reply s) { dirty = true }, none)
handle_reply_key KeyCode.backspace s =
    (record s { reply_draft = pop s.reply_draft; dirty = true }, none)
handle_reply_key (KeyCode.char c) s =
    (record s { reply_draft = s.reply_draft ++ c ∷ []; dirty = true }, none)
handle_reply_key _ s = (s, none)
