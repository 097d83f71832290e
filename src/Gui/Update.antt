-- ===== src/Gui/Update.antt =====
-- crates/gui/src/app.rs: the reducer, HandfastApp::update.
use Prim.Native.String.{◌++◌}
use handfast.Base.{
  ℕ, String, Bool, true, false, not, Option, none, some, List, [], ◌∷◌, length, if◌then◌else◌,
  str_eq,
}
use handfast.Base.Text.{trim}
use handfast.Ipc.Proto.{to_text}
use handfast.Gui.Model.{
  ConnState, DeviceCard, PluginRow, NotifRow, PluginToggles, change_card, split_toggle_key,
  apply_persisted_toggles,
}
use handfast.Gui.App.{
  App, BridgeIn, Message, push_log, set_banner, card_at, selected_device_id, dispatch, request,
  record_plugin_toggle, refresh_devices, list_plugins, set_plugin, send_file, dismiss_notification,
}
use handfast.Gui.Reducer.{finish_pairing, handle_event}

abbrev pub labelled : String → DeviceCard → DeviceCard
labelled state card = record card { state = state }

-- The row of the plugin, switched at once.
unfoldable pub flip_plugin : String → Bool → List PluginRow → List PluginRow
flip_plugin name enabled [] = []
flip_plugin name enabled (row ∷ rows) =
    if str_eq row.name name
    then record row { enabled = enabled } ∷ rows
    else row ∷ flip_plugin name enabled rows

-- `notifications.retain(|row| row.id != id)`
unfoldable pub without_notification : String → List NotifRow → List NotifRow
without_notification id [] = []
without_notification id (row ∷ rows) =
    let rest = without_notification id rows in if str_eq row.id id then rest else row ∷ rest

unfoldable pub on_status : ConnState → App → App
on_status ConnState.connected app = record app { conn = ConnState.connected; banner = none }
on_status state app = record app { conn = state }

unfoldable pub on_plugins_loaded : List PluginRow → App → App
unfolding selected_device_id apply_persisted_toggles push_log
on_plugins_loaded rows app =
    let shown : List PluginRow = elim (selected_device_id app) [
      | none ↦ rows
      | some device_id ↦ apply_persisted_toggles device_id app.plugin_toggles rows
    ] in
    push_log ("loaded " ++ to_text (length rows) ++ " plugin(s)") (record app { plugins = shown })

-- What the acknowledgement of a request does: a line for a success, a banner for a failure.
unfoldable pub acknowledge : Option String → String → String → App → App
unfolding push_log set_banner
acknowledge none success failure app = push_log success app
acknowledge (some why) success failure app = set_banner (failure ++ " failed: " ++ why) app

unfoldable pub on_plugin_set : Option String → App → App
unfolding set_banner
on_plugin_set none app = app
on_plugin_set (some why) app = set_banner ("plugin change failed: " ++ why) app

unfoldable pub on_clipboard_done : Option String → App → App
unfolding push_log
on_clipboard_done none app =
    push_log "clipboard sent" (record app { clipboard_status = some "copied to daemon" })
on_clipboard_done (some why) app =
    push_log ("[error] clipboard send failed: " ++ why)
      (record app { clipboard_status = some ("error: " ++ why) })

unfoldable pub on_device_selected : ℕ → App → App
unfolding card_at request
on_device_selected index app = elim (card_at index app.devices) [
  | none ↦ app
  | some card ↦
      request (list_plugins card.id)
        (record app { selected_id = some card.id; selected = some index; plugins = [] })
]

abbrev pub with_pair_target : String → App → App
with_pair_target id app = record app {
  devices = change_card id (labelled "pairing") app.devices;
  pair_target = some id;
}

unfoldable pub on_pair_pressed : String → App → App
unfolding change_card request
on_pair_pressed id app = request (BridgeIn.pair id) (with_pair_target id app)

abbrev pub with_unpair_target : String → App → App
with_unpair_target id app = record app {
  devices = change_card id (labelled "unpairing") app.devices;
  unpair_target = some id;
}

unfoldable pub on_unpair_pressed : String → App → App
unfolding change_card request
on_unpair_pressed id app = request (BridgeIn.unpair id) (with_unpair_target id app)

unfoldable pub on_queue_file : App → App
unfolding selected_device_id request set_banner
on_queue_file app = elim (selected_device_id app) [
  | none ↦ set_banner "select a device first" app
  | some device_id ↦ elim (trim app.file_path_draft) [
    | [] ↦ set_banner "enter an absolute file path first" app
    | c ∷ cs ↦ request (send_file device_id (c ∷ cs)) app
  ]
]

unfoldable pub on_send : App → App
unfolding dispatch
on_send app = elim (trim app.clipboard_draft) [
  | [] ↦ record app { clipboard_status = some "nothing to send" }
  | c ∷ cs ↦
      let (app', done) =
        dispatch (BridgeIn.clipboard_set (c ∷ cs))
          (record app { clipboard_status = some "sending" }) in
      if done then app' else record app' { clipboard_status = some "not connected" }
]

abbrev pub dismissing : String → App → App
dismissing id app = record app { notifications = without_notification id app.notifications }

module _ (save : PluginToggles → Option String) where
  unfoldable pub on_toggle : String → Bool → App → App
  unfolding flip_plugin selected_device_id record_plugin_toggle request
  on_toggle name enabled app =
      let app' : App = record app { plugins = flip_plugin name enabled app.plugins } in
      elim (selected_device_id app') [
        | none ↦ app'
        | some device_id ↦
            request (set_plugin device_id name enabled)
              (record_plugin_toggle save device_id name enabled app')
      ]

  unfoldable pub on_saved_toggle : String → Bool → App → App
  unfolding split_toggle_key record_plugin_toggle request set_banner
  on_saved_toggle key enabled app = elim (split_toggle_key key) [
    | none ↦ set_banner ("malformed plugin toggle key: " ++ key) app
    | some (device_id, plugin) ↦
        request (set_plugin device_id plugin enabled)
          (record_plugin_toggle save device_id plugin enabled app)
  ]

  unfoldable pub update : Message → App → App
  unfolding on_status set_banner push_log on_plugins_loaded finish_pairing acknowledge on_plugin_set
      on_clipboard_done handle_event on_device_selected on_pair_pressed on_unpair_pressed on_toggle
      on_saved_toggle on_queue_file without_notification dispatch on_send request
  update Message.nothing app = app
  update (Message.tab_selected tab) app = record app { tab = tab }
  update Message.banner_closed app = record app { banner = none }
  update (Message.ipc_status state) app = on_status state app
  update (Message.bridge_ready b) app = record app { bridge = some b }
  update (Message.connection_lost text) app = set_banner text app
  update (Message.load_failed text) app = set_banner ("load failed: " ++ text) app
  update (Message.devices_loaded cards) app =
      push_log ("loaded " ++ to_text (length cards) ++ " device(s)")
        (record app { devices = cards; selected = none; selected_id = none; plugins = [] })
  update (Message.plugins_loaded rows) app = on_plugins_loaded rows app
  update (Message.notifications_loaded rows) app = record app { notifications = rows }
  update (Message.paired result) app = finish_pairing result false app
  update (Message.unpaired result) app = finish_pairing result true app
  update (Message.file_queued result) app = acknowledge result "file queued for transfer" "send" app
  update (Message.dismissed result) app = acknowledge result "notification dismissed" "dismiss" app
  update (Message.plugin_set result) app = on_plugin_set result app
  update (Message.clipboard_done result) app = on_clipboard_done result app
  update (Message.event e) app = handle_event e app
  update (Message.device_selected index) app = on_device_selected index app
  update (Message.pair_pressed id) app = on_pair_pressed id app
  update (Message.unpair_pressed id) app = on_unpair_pressed id app
  update (Message.toggle_plugin name enabled) app = on_toggle name enabled app
  update Message.settings_pressed app = record app { settings_open = not app.settings_open }
  update (Message.toggle_saved_plugin key enabled) app = on_saved_toggle key enabled app
  update Message.queue_file_pressed app = on_queue_file app
  update (Message.path_changed path) app = record app { file_path_draft = path }
  update (Message.clipboard_changed text) app = record app { clipboard_draft = text }
  update Message.send_pressed app = on_send app
  update Message.refresh_pressed app = request refresh_devices app
  update (Message.dismiss_pressed id) app =
      (dispatch (dismiss_notification id) (dismissing id app)).0
