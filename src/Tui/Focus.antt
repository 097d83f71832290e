-- ===== src/Tui/Focus.antt =====
-- crates/tui/src/state.rs: the tabs, the rows under the cursors, and the moves of the focused cursor.
use handfast.Base.{
  ℕ, zero, suc, ◌-◌, ◌+◌, String, Bool, true, false, ◌&&◌, Option, none, some, List, [], ◌∷◌,
  length, ltb, ◌==◌, ◌%◌, if◌then◌else◌,
}
use handfast.Json.{◌>>=◌}
use handfast.Tui.Model.{DeviceEntry, PluginRow, NotifRow}
use handfast.Tui.State.{Tab, State}

-- `slice.get(i)`
unfoldable pub get_elem? {ℓ} : {A : Type ℓ} → List A → ℕ → Option A
get_elem? [] i = none
get_elem? (x ∷ xs) zero = some x
get_elem? (x ∷ xs) (suc i) = get_elem? xs i

-- `Tab::index`
abbrev index : Tab → ℕ
index Tab.devices = 0
index Tab.transfers = 1
index Tab.notifications = 2
index Tab.logs = 3
index Tab.help = 4

-- `Tab::ALL[i]`
abbrev tab_at : ℕ → Tab
tab_at i =
    if i == 0
    then Tab.devices
    else if i == 1
    then Tab.transfers
    else if i == 2
    then Tab.notifications
    else if i == 3
    then Tab.logs
    else Tab.help

-- `Tab::next`
unfoldable pub next_tab : Tab → Tab
next_tab t = tab_at ((index t + 1) % 5)

-- `Tab::previous`
unfoldable pub previous_tab : Tab → Tab
previous_tab t = tab_at ((index t + 5 - 1) % 5)

unfoldable pub is_devices : Tab → Bool
is_devices Tab.devices = true
is_devices _ = false

unfoldable pub is_notifications : Tab → Bool
is_notifications Tab.notifications = true
is_notifications _ = false

unfoldable pub selected_device_id : State → Option String
unfolding get_elem?
selected_device_id s = get_elem? s.devices s.device_cursor >>= λ (d : DeviceEntry). some d.id

unfoldable pub selected_notification_id : State → Option String
unfolding get_elem?
selected_notification_id s =
    get_elem? s.notifications s.notification_cursor >>= λ (row : NotifRow). some row.id

-- `selected_plugin_index` and the `get` that follows it.
unfoldable pub selected_plugin : State → Option PluginRow
unfolding get_elem? is_devices
selected_plugin s =
    if is_devices s.tab && s.detail_open then get_elem? s.plugins s.plugin_cursor else none

unfoldable pub focused_len : State → ℕ
focused_len s = elim s.tab [
  | Tab.devices ↦ if s.detail_open then length s.plugins else length s.devices
  | Tab.transfers ↦ length s.transfers
  | Tab.notifications ↦ length s.notifications
  | Tab.logs ↦ 0
  | Tab.help ↦ 0
]

-- One step of a cursor, without underflow or overflow.
unfoldable pub step : ℕ → Bool → ℕ → ℕ
step cursor true len = if len == 0 then 0 else if ltb cursor (len - 1) then cursor + 1 else len - 1
step cursor false len = if len == 0 then 0 else if cursor == 0 then 0 else cursor - 1

-- What `f` does to the cursor of the active view.
unfoldable pub on_cursor : (ℕ → ℕ) → State → State
on_cursor f s = elim s.tab [
  | Tab.devices ↦
      if s.detail_open
      then record s { plugin_cursor = f s.plugin_cursor; dirty = true }
      else record s { device_cursor = f s.device_cursor; dirty = true }
  | Tab.transfers ↦ record s { transfer_cursor = f s.transfer_cursor; dirty = true }
  | Tab.notifications ↦ record s { notification_cursor = f s.notification_cursor; dirty = true }
  | Tab.logs ↦ s
  | Tab.help ↦ s
]

unfoldable pub move_cursor : Bool → State → State
unfolding focused_len step on_cursor
move_cursor downward s =
    if focused_len s == 0 then s else on_cursor (λ c. step c downward (focused_len s)) s

unfoldable pub jump_cursor : Bool → State → State
unfolding focused_len on_cursor
jump_cursor last s =
    if focused_len s == 0 then s else on_cursor (λ _. if last then focused_len s - 1 else 0) s
