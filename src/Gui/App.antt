-- ===== src/Gui/App.antt =====
-- crates/gui/src/app.rs: the state of the client, its messages, and the helpers of the reducer. The
-- command channel into the driver is the list of the commands that it has got, and whether its other
-- end is gone. A draft is the list of its characters; `none` stands for `Ok(())`.
use Prim.Native.String.{count, ◌++◌}
use mathlib.Core.List
use handfast.Base.{
  ℕ, suc, zero, ◌-◌, String, Bool, true, false, Option, none, some, List, [], ◌∷◌, length, leb,
  if◌then◌else◌, str_eq, insert,
}
use handfast.Json.{◌>>=◌}
use handfast.Ipc.Proto.{ServerEvent}
use handfast.Gui.Model.{
  ConnState, disconnected, Tab, DeviceCard, PluginRow, TransferRow, NotifRow, PluginToggles,
  toggle_key, position_of,
}

abbrev pub log_cap : ℕ
log_cap = 300

abbrev pub notif_cap : ℕ
notif_cap = 100

-- `BridgeIn` of bridge.rs.
pub data BridgeIn : Type 0 where
  refresh_devices : BridgeIn
  list_plugins : String → BridgeIn
  set_plugin : String → String → Bool → BridgeIn
  pair : String → BridgeIn
  unpair : String → BridgeIn
  send_file : String → List ℕ → BridgeIn
  dismiss_notification : String → BridgeIn
  clipboard_set : List ℕ → BridgeIn

pub record Bridge : Type 0 where
  pub sent : List BridgeIn
  pub closed : Bool

pub data Message : Type 0 where
  nothing : Message
  tab_selected : Tab → Message
  banner_closed : Message
  ipc_status : ConnState → Message
  bridge_ready : Bridge → Message
  connection_lost : String → Message
  load_failed : String → Message
  devices_loaded : List DeviceCard → Message
  plugins_loaded : List PluginRow → Message
  notifications_loaded : List NotifRow → Message
  paired : Option String → Message
  unpaired : Option String → Message
  file_queued : Option String → Message
  dismissed : Option String → Message
  plugin_set : Option String → Message
  clipboard_done : Option String → Message
  event : ServerEvent → Message
  device_selected : ℕ → Message
  pair_pressed : String → Message
  unpair_pressed : String → Message
  toggle_plugin : String → Bool → Message
  settings_pressed : Message
  toggle_saved_plugin : String → Bool → Message
  queue_file_pressed : Message
  path_changed : List ℕ → Message
  clipboard_changed : List ℕ → Message
  send_pressed : Message
  refresh_pressed : Message
  dismiss_pressed : String → Message

pub record App : Type 0 where
  pub conn : ConnState
  pub tab : Tab
  pub devices : List DeviceCard
  pub selected : Option ℕ
  pub selected_id : Option String
  pub plugins : List PluginRow
  pub transfers : List TransferRow
  pub notifications : List NotifRow
  pub logs : List String
  pub banner : Option String
  pub bridge : Option Bridge
  pub pair_target : Option String
  pub unpair_target : Option String
  pub clipboard_draft : List ℕ
  pub clipboard_status : Option String
  pub file_path_draft : List ℕ
  pub daemon_version : Option String
  pub settings_open : Bool
  pub plugin_toggles : PluginToggles

-- `HandfastApp::new`, with the toggles that were loaded.
unfoldable pub new : PluginToggles → App
new toggles = record {
  conn = disconnected;
  tab = Tab.devices;
  devices = [];
  selected = none;
  selected_id = none;
  plugins = [];
  transfers = [];
  notifications = [];
  logs = "handfast-gui started" ∷ [];
  banner = none;
  bridge = none;
  pair_target = none;
  unpair_target = none;
  clipboard_draft = [];
  clipboard_status = none;
  file_path_draft = [];
  daemon_version = none;
  settings_open = false;
  plugin_toggles = toggles;
}

-- `pop_front`
abbrev pub pop_front {ℓ} : {A : Type ℓ} → List A → List A
pop_front [] = []
pop_front (x ∷ xs) = xs

unfoldable pub push_log : String → App → App
push_log line app = record app {
  logs =
      List.◌++◌ (if leb log_cap (length app.logs) then pop_front app.logs else app.logs)
        (line ∷ []);
}

unfoldable pub set_banner : String → App → App
unfolding push_log
set_banner text app = record (push_log ("[error] " ++ text) app) { banner = some text }

-- `slice.get(i)`
unfoldable pub card_at : ℕ → List DeviceCard → Option DeviceCard
card_at i [] = none
card_at zero (d ∷ ds) = some d
card_at (suc i) (d ∷ ds) = card_at i ds

unfoldable pub selected_device_id : App → Option String
unfolding card_at
selected_device_id app = do index ← app.selected; card ← card_at index app.devices; some card.id

unfoldable pub sync_selection : App → App
unfolding position_of
sync_selection app = record app {
  selected = app.selected_id >>= λ (id : String). position_of id app.devices;
}

abbrev pub is_open : Option Bridge → Bool
is_open none = false
is_open (some b) = if b.closed then false else true

abbrev pub with_command : BridgeIn → Bridge → Bridge
with_command command b = record b { sent = List.◌++◌ b.sent (command ∷ []) }

-- `dispatch`: the client with the command in the channel, and whether it got there.
unfoldable pub dispatch : BridgeIn → App → App × Bool
dispatch command app = elim app.bridge [
  | none ↦ (app, false)
  | some b ↦
      if b.closed
      then (app, false)
      else (record app { bridge = some (with_command command b) }, true)
]

-- `if !app.dispatch(command) { app.set_banner("not connected"); }`
unfoldable pub request : BridgeIn → App → App
unfolding dispatch set_banner
request command app =
    let (app', done) = dispatch command app in
    if done then app' else set_banner "not connected" app'

-- The first `n` characters of a text.
unfoldable pub take_chars : ℕ → String → String
take_chars zero s = String.[]
take_chars (suc n) String.[] = String.[]
take_chars (suc n) (String.◌∷◌ c s) = String.◌∷◌ c (take_chars n s)

unfoldable pub clamp_line : String → ℕ → String
unfolding take_chars
clamp_line text max_chars =
    if leb (count text) max_chars then text else take_chars (max_chars - 3) text ++ "..."

-- `option.as_deref() == Some(id)`
unfoldable pub is_id : String → Option String → Bool
is_id id none = false
is_id id (some t) = str_eq t id

-- What a save of the toggles reports is a parameter: the file system may refuse it.
module _ (save : PluginToggles → Option String) where
  unfoldable pub record_plugin_toggle : String → String → Bool → App → App
  unfolding insert toggle_key push_log
  record_plugin_toggle device_id plugin enabled app =
      let toggles = insert (toggle_key device_id plugin) enabled app.plugin_toggles in
      let app' : App = record app { plugin_toggles = toggles } in
      elim (save toggles) [
        | none ↦ app'
        | some why ↦ push_log ("[warn] persisting plugin toggles failed: " ++ why) app'
      ]
