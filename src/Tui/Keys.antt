-- ===== src/Tui/Keys.antt =====
-- crates/tui/src/state.rs: what a key press does to the state, and the action that it asks for. A
-- handler returns the new state and at most one action.
use handfast.Base.{
  ℕ, String, Bool, true, false, not, ◌&&◌, Option, none, some, [], ◌==◌, if◌then◌else◌,
}
use handfast.Json.{◌>>=◌}
use handfast.Tui.State.{
  Tab, Action, State, load_plugins, toggle_plugin, pair, unpair, close_detail, clamp_cursors,
}
use handfast.Tui.Focus.{
  is_devices, next_tab, previous_tab, selected_device_id, selected_plugin, move_cursor, jump_cursor,
}
use handfast.Tui.Draft.{KeyCode, KeyEvent, no_rows, open_reply, handle_reply_key}

unfoldable pub open_detail : String → State → State
open_detail id s = record s {
  detail_open = true;
  detail_device = some id;
  plugin_cursor = 0;
  plugins = [];
  dirty = true;
}

unfoldable pub toggle_detail : State → State × Option Action
unfolding is_devices close_detail selected_device_id open_detail
toggle_detail s =
    if not (is_devices s.tab)
    then (s, none)
    else if s.detail_open
    then (record (close_detail s) { dirty = true }, none)
    else elim (selected_device_id s) [
      | some id ↦ (open_detail id s, some (load_plugins id))
      | none ↦ (s, none)
    ]

unfoldable pub set_tab : Tab → State → State
unfolding clamp_cursors
set_tab t s = record (clamp_cursors (record s { tab = t })) { dirty = true }

-- `p` and `u`
unfoldable pub on_selected : (String → Action) → State → Option Action
unfolding is_devices selected_device_id
on_selected act s =
    if is_devices s.tab && not (no_rows s.devices)
    then (selected_device_id s >>= λ id. some (act id))
    else none

-- Space: the focused plugin of the device whose panel is open.
unfoldable pub toggle_selected : State → Option Action
unfolding selected_plugin
toggle_selected s = do
  device_id ← s.detail_device
  row ← selected_plugin s
  some (toggle_plugin device_id row.name (not row.enabled))

unfoldable pub on_esc : State → State
unfolding close_detail
on_esc s =
    if s.help_overlay
    then record s { help_overlay = false; dirty = true }
    else if s.detail_open
    then record (close_detail s) { dirty = true }
    else s

unfoldable pub on_char : ℕ → State → State × Option Action
unfolding move_cursor jump_cursor on_selected open_reply toggle_selected
on_char c s =
    if c == b'q'
    then (s, some Action.quit)
    else if c == b'?'
    then (record s { help_overlay = not s.help_overlay; dirty = true }, none)
    else if c == b'j'
    then (move_cursor true s, none)
    else if c == b'k'
    then (move_cursor false s, none)
    else if c == b'g'
    then (jump_cursor false s, none)
    else if c == b'G'
    then (jump_cursor true s, none)
    else if c == b'p'
    then (s, on_selected pair s)
    else if c == b'u'
    then (s, on_selected unpair s)
    else if c == b'r'
    then open_reply s
    else if c == b' '
    then (s, toggle_selected s)
    else (s, none)

-- The last `match` of `handle_key`.
unfoldable pub on_code : KeyCode → State → State × Option Action
unfolding on_char set_tab next_tab previous_tab move_cursor jump_cursor toggle_detail on_esc
on_code (KeyCode.char c) s = on_char c s
on_code KeyCode.tab s = (set_tab (next_tab s.tab) s, none)
on_code KeyCode.back_tab s = (set_tab (previous_tab s.tab) s, none)
on_code KeyCode.down s = (move_cursor true s, none)
on_code KeyCode.up s = (move_cursor false s, none)
on_code KeyCode.home s = (jump_cursor false s, none)
on_code KeyCode.end s = (jump_cursor true s, none)
on_code KeyCode.enter s = toggle_detail s
on_code KeyCode.esc s = (on_esc s, none)
on_code _ s = (s, none)

-- Ctrl+C
unfoldable pub is_interrupt : KeyCode → Bool
is_interrupt (KeyCode.char c) = c == b'c'
is_interrupt _ = false

unfoldable pub handle_key : KeyEvent → State → State × Option Action
unfolding is_interrupt handle_reply_key on_code
handle_key key s =
    if not key.press
    then (s, none)
    else if key.control
    then (s, if is_interrupt key.code then some Action.quit else none)
    else if s.reply_open
    then handle_reply_key key.code s
    else on_code key.code s
