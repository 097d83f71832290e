-- ===== src/Tui/State.antt =====
-- crates/tui/src/state.rs: the state of the interface, and what a server event or the outcome of a
-- request does to it. The cursors are positions from 0, the draft of a reply its characters.
use Prim.Native.String.{count, ◌++◌}
use mathlib.Core.List
use handfast.Base.{
  ℕ, zero, suc, ◌-◌, String, Bool, true, false, Option, none, some, List, [], ◌∷◌, length, ltb,
  ◌==◌, min, if◌then◌else◌, str_eq, Assoc, lookup, insert,
}
use handfast.Ipc.Proto.{ServerEvent}
use handfast.Tui.Model.{
  DeviceEntry, PluginRow, TransferEntry, NotifRow, from_found, apply_state, change_device, upsert,
  without, from_added, from_progress, apply_progress, mark_finished,
}

abbrev pub notification_cap : ℕ
notification_cap = 200

abbrev pub log_cap : ℕ
log_cap = 1000

pub data Tab : Type 0 where
  devices transfers notifications logs help : Tab

pub record DaemonIdentity : Type 0 where
  pub version : ℕ
  pub app : String
  pub pid : ℕ

pub data Action : Type 0 where
  quit : Action
  pair : String → Action
  unpair : String → Action
  load_plugins : String → Action
  toggle_plugin : String → String → Bool → Action
  reply_to_notification : String → List ℕ → Action

pub data Outcome : Type 0 where
  flash : String → Outcome
  devices : List DeviceEntry → Outcome
  notifications : List NotifRow → Outcome
  plugins : String → List PluginRow → Outcome

pub record State : Type 0 where
  pub tab : Tab
  pub help_overlay : Bool
  pub quit : Bool
  pub dirty : Bool
  pub shutdown : Bool
  pub daemon : Option DaemonIdentity
  pub flash : Option String
  pub clipboard : Option String
  pub devices : List DeviceEntry
  pub device_cursor : ℕ
  pub detail_open : Bool
  pub detail_device : Option String
  pub plugins : List PluginRow
  pub plugin_cursor : ℕ
  pub transfers : Assoc TransferEntry
  pub transfer_cursor : ℕ
  pub notifications : List NotifRow
  pub notification_cursor : ℕ
  pub reply_open : Bool
  pub reply_draft : List ℕ
  pub reply_target : Option String
  pub logs : List String

-- `State::new`
unfoldable pub new : State
new = record {
  tab = Tab.devices;
  help_overlay = false;
  quit = false;
  dirty = true;
  shutdown = false;
  daemon = none;
  flash = none;
  clipboard = none;
  devices = [];
  device_cursor = 0;
  detail_open = false;
  detail_device = none;
  plugins = [];
  plugin_cursor = 0;
  transfers = [];
  transfer_cursor = 0;
  notifications = [];
  notification_cursor = 0;
  reply_open = false;
  reply_draft = [];
  reply_target = none;
  logs = [];
}

-- `while buffer.len() > cap { buffer.pop_front(); }`
unfoldable pub cap_front {ℓ} : {A : Type ℓ} → ℕ → List A → List A
cap_front cap [] = []
cap_front cap (x ∷ xs) =
    let rest = cap_front cap xs in if ltb cap (suc (length xs)) then rest else x ∷ xs

unfoldable pub push_back {ℓ} : {A : Type ℓ} → ℕ → A → List A → List A
unfolding cap_front
push_back cap x xs = cap_front cap (List.◌++◌ xs (x ∷ []))

abbrev spaces : ℕ → String
spaces zero = ""
spaces (suc n) = " " ++ spaces n

-- `format!("[{level:<5}] {msg}")`
unfoldable pub log_line : String → String → String
log_line level msg = "[" ++ level ++ spaces (5 - count level) ++ "] " ++ msg

unfoldable pub push_log : String → String → State → State
unfolding push_back log_line
push_log level msg s = record s { logs = push_back log_cap (log_line level msg) s.logs }

unfoldable pub push_notification : NotifRow → State → State
unfolding push_back
push_notification row s = record s {
  notifications = push_back notification_cap row s.notifications;
}

unfoldable pub close_detail : State → State
close_detail s = record s {
  detail_open = false;
  detail_device = none;
  plugins = [];
  plugin_cursor = 0;
}

unfoldable pub clamp_at : ℕ → ℕ → ℕ
clamp_at cursor len = if len == 0 then 0 else min cursor (len - 1)

unfoldable pub clamp_cursors : State → State
unfolding clamp_at
clamp_cursors s = record s {
  device_cursor = clamp_at s.device_cursor (length s.devices);
  plugin_cursor = clamp_at s.plugin_cursor (length s.plugins);
  transfer_cursor = clamp_at s.transfer_cursor (length s.transfers);
  notification_cursor = clamp_at s.notification_cursor (length s.notifications);
}

-- `option.as_deref() == Some(id)`
unfoldable pub is_text : String → Option String → Bool
is_text id none = false
is_text id (some t) = str_eq t id

-- What a progress event does to the transfers: an entry that is not there is made.
unfoldable pub progressed : String → ℕ → ℕ → Assoc TransferEntry → Assoc TransferEntry
unfolding lookup insert apply_progress from_progress
progressed id done total ts = elim (lookup id ts) [
  | some t ↦ insert id (apply_progress done total t) ts
  | none ↦ insert id (from_progress id done total) ts
]

unfoldable pub finished : String → Assoc TransferEntry → Assoc TransferEntry
unfolding lookup insert mark_finished
finished id ts = elim (lookup id ts) [ some t ↦ insert id (mark_finished t) ts | none ↦ ts ]

-- The `match` of `apply_event`.
unfoldable pub on_event : ServerEvent → State → State
unfolding from_found apply_state change_device upsert without from_added progressed finished insert
    close_detail push_log push_notification is_text
on_event (ServerEvent.hello version app pid) s = record s {
  daemon = some (record { version = version; app = app; pid = pid });
}
on_event (ServerEvent.device_found id name) s = record s {
  devices = upsert (from_found id name) s.devices;
}
on_event (ServerEvent.device_lost id) s =
    let s' : State = record s { devices = without id s.devices } in
    if is_text id s.detail_device then close_detail s' else s'
on_event (ServerEvent.device_state_changed id state) s = record s {
  devices = change_device id (apply_state state) s.devices;
}
on_event (ServerEvent.transfer_added id _ _ file_name total) s = record s {
  transfers = insert id (from_added id file_name total) s.transfers;
}
on_event (ServerEvent.transfer_progress id done total) s = record s {
  transfers = progressed id done total s.transfers;
}
on_event (ServerEvent.transfer_finished id) s = record s { transfers = finished id s.transfers }
on_event (ServerEvent.notification_received id app title body) s =
    push_notification (record { id = id; app = app; title = title; body = body }) s
on_event (ServerEvent.clipboard_updated text) s = record s { clipboard = some text }
on_event (ServerEvent.log_record level msg) s = push_log level msg s
on_event ServerEvent.daemon_shutdown s = record s {
  shutdown = true;
  flash = some "daemon is shutting down";
}
on_event _ s = s

unfoldable pub apply_event : ServerEvent → State → State
unfolding on_event clamp_cursors
apply_event e s = record (clamp_cursors (on_event e s)) { dirty = true }

-- The `match` of `apply_outcome`.
unfoldable pub on_outcome : Outcome → State → State
unfolding cap_front is_text
on_outcome (Outcome.flash message) s = record s { flash = some message }
on_outcome (Outcome.devices entries) s = record s { devices = entries }
on_outcome (Outcome.notifications rows) s = record s {
  notifications = cap_front notification_cap rows;
}
on_outcome (Outcome.plugins device rows) s =
    if is_text device s.detail_device then record s { plugins = rows } else s

unfoldable pub apply_outcome : Outcome → State → State
unfolding on_outcome clamp_cursors
apply_outcome o s = record (clamp_cursors (on_outcome o s)) { dirty = true }
