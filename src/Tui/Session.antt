-- ===== src/Tui/Session.antt =====
-- crates/tui: a session of the interface is a list of inputs, and the actions that it asks for are
-- a list. Its invariant: each cursor stays on a row, the buffers stay within their bounds, and the
-- panel and the reply are open exactly when they have a device and a notification.
pub mod Invariant
pub mod Reply
pub mod Buffers
use handfast.Base.{
  ℕ, zero, suc, ◌-◌, ◌+◌, ◌≤◌, String, Bool, true, false, Option, none, some, List, [], ◌∷◌, ◌++◌,
  length, ◌≡◌, refl, arith, min, if_cases, ◌==◌, not, if◌then◌else◌,
}
use handfast.Json.{is_some}
use handfast.Ipc.Proto.{ServerEvent}
use handfast.Tui.State.{
  Tab, State, Outcome, Action, apply_event, apply_outcome, clamp_at, clamp_cursors, on_event,
  on_outcome, notification_cap, log_cap, cap_front, push_back, new, log_line,
}
use handfast.Tui.Model.{NotifRow}
use handfast.Tui.Focus.{
  step, focused_len, on_cursor, move_cursor, jump_cursor, next_tab, previous_tab,
}
use handfast.Tui.Draft.{KeyCode, KeyEvent, pop, open_reply, handle_reply_key}
use handfast.Tui.Keys.{handle_key, set_tab, toggle_detail, on_esc, on_char, on_code}

pub data Input : Type 0 where
  event : ServerEvent → Input
  outcome : Outcome → Input
  key : KeyEvent → Input

-- The loop of app.rs: what one input does to the state, and the action it asks for.
unfoldable pub react : Input → State → State × Option Action
react (event e) s = (apply_event e s, none)
react (outcome o) s = (apply_outcome o s, none)
react (key k) s = handle_key k s

abbrev pub asked : Option Action → List Action → List Action
asked none rest = rest
asked (some a) rest = a ∷ rest

-- The actions in the order in which they are asked for.
unfoldable pub run : List Input → State → State × List Action
unfolding react
run [] s = (s, [])
run (i ∷ is) s = let (s', act) = react i s in let (s'', acts) = run is s' in (s'', asked act acts)

pub record IsValid (s : State) : Type 0 where
  pub device_row : s.device_cursor ≤ length s.devices - 1
  pub plugin_row : s.plugin_cursor ≤ length s.plugins - 1
  pub transfer_row : s.transfer_cursor ≤ length s.transfers - 1
  pub notification_row : s.notification_cursor ≤ length s.notifications - 1
  pub notifications_bounded : length s.notifications ≤ notification_cap
  pub logs_bounded : length s.logs ≤ log_cap
  pub detail : s.detail_open ≡ is_some s.detail_device
  pub plugins_shown : s.detail_open ≡ false → s.plugins ≡ []
  pub reply : s.reply_open ≡ is_some s.reply_target
  pub draft : s.reply_open ≡ false → s.reply_draft ≡ []
