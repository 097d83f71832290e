-- ===== src/Gui/Commands.antt =====
-- What the graphical client asks the daemon for, message by message.
use handfast.Base.{
  ℕ, String, Bool, true, false, Option, none, some, List, [], ◌∷◌, ◌++◌, append-nil, ◌≡◌, refl, sym,
  ap, ◌∙◌, arith, Option-cases, List-cases, inl, inr, if◌then◌else◌, insert, if_cases, ◌==◌,
}
use handfast.Base.Text.{trim}
use handfast.Ipc.Proto.{ServerEvent}
use handfast.Gui.Model.{PluginToggles, toggle_key, split_toggle_key, ConnState}
use handfast.Gui.App.{
  App, Bridge, BridgeIn, Message, dispatch, request, record_plugin_toggle, selected_device_id,
  card_at, list_plugins, send_file, set_plugin, refresh_devices, dismiss_notification,
}
use handfast.Gui.Reducer.{finish_pairing, handle_event, forget, ipc_version}
use handfast.Gui.Update.{
  update, on_device_selected, on_queue_file, on_send, on_toggle, on_saved_toggle, flip_plugin,
  with_pair_target, with_unpair_target, dismissing,
}

abbrev file_command : Option String → List ℕ → List BridgeIn
file_command none path = []
file_command (some id) [] = []
file_command (some id) (c ∷ cs) = send_file id (c ∷ cs) ∷ []

abbrev text_command : List ℕ → List BridgeIn
text_command [] = []
text_command (c ∷ cs) = BridgeIn.clipboard_set (c ∷ cs) ∷ []

-- The command that a message of the user stands for.
abbrev pub wanted : Message → App → List BridgeIn
wanted (Message.device_selected i) app = elim (card_at i app.devices) [
  | none ↦ []
  | some d ↦ list_plugins d.id ∷ []
]
wanted (Message.pair_pressed id) app = BridgeIn.pair id ∷ []
wanted (Message.unpair_pressed id) app = BridgeIn.unpair id ∷ []
wanted (Message.toggle_plugin name enabled) app = elim (selected_device_id app) [
  | none ↦ []
  | some id ↦ set_plugin id name enabled ∷ []
]
wanted (Message.toggle_saved_plugin key enabled) app = elim (split_toggle_key key) [
  | none ↦ []
  | some p ↦ set_plugin p.0 p.1 enabled ∷ []
]
wanted Message.queue_file_pressed app =
    file_command (selected_device_id app) (trim app.file_path_draft)
wanted Message.send_pressed app = text_command (trim app.clipboard_draft)
wanted Message.refresh_pressed app = refresh_devices ∷ []
wanted (Message.dismiss_pressed id) app = dismiss_notification id ∷ []
wanted _ app = []

-- A channel with more commands in it, if it is there and its other end is not gone.
abbrev pub extended : List BridgeIn → Option Bridge → Option Bridge
extended commands none = none
extended commands (some b) =
    if b.closed then some b else some (record b { sent = b.sent ++ commands })

extended_by_none : (b : Option Bridge) → extended [] b ≡ b
extended_by_none none = refl
extended_by_none (some b) =
    if_cases (λ (o : Option Bridge). o ≡ some b) b.closed _ _ (λ _. refl)
      (λ _.
        ap (λ (commands : List BridgeIn). some (record b { sent = commands })) (append-nil b.sent))

unchanged : (a b : Option Bridge) → a ≡ b → a ≡ extended [] b
unchanged a b e = e ∙ sym (extended_by_none b)

dispatch-bridge :
    (c : BridgeIn) (app : App) → (dispatch c app).0.bridge ≡ extended (c ∷ []) app.bridge
unfolding dispatch
dispatch-bridge c app = ground arith

request-bridge : (c : BridgeIn) (app : App) → (request c app).bridge ≡ extended (c ∷ []) app.bridge
unfolding request
request-bridge c app =
    if_cases (λ (a : App). a.bridge ≡ extended (c ∷ []) app.bridge) (dispatch c app).1 _ _
      (λ _. dispatch-bridge c app) (λ _. dispatch-bridge c app)

record_plugin_toggle-bridge :
    (save : PluginToggles → Option String) (id plugin : String) (enabled : Bool) (app : App)
    → (record_plugin_toggle save id plugin enabled app).bridge ≡ app.bridge
unfolding record_plugin_toggle
record_plugin_toggle-bridge save id plugin enabled app =
    elim (Option-cases (save (insert (toggle_key id plugin) enabled app.plugin_toggles))) [
      | inl e ↦ rw (e, record_plugin_toggle) refl
      | inr (why, e) ↦ rw (e, record_plugin_toggle) refl
    ]

finish_pairing-bridge :
    (r : Option String) (u : Bool) (app : App) → (finish_pairing r u app).bridge ≡ app.bridge
unfolding finish_pairing
finish_pairing-bridge none true app = ground arith
finish_pairing-bridge none false app = ground arith
finish_pairing-bridge (some why) true app = ground arith
finish_pairing-bridge (some why) false app = ground arith

forget-bridge : (id : String) (app : App) → (forget id app).bridge ≡ app.bridge
unfolding forget
forget-bridge id app = ground arith

handle_event-bridge : (e : ServerEvent) (app : App) → (handle_event e app).bridge ≡ app.bridge
unfolding handle_event
handle_event-bridge (ServerEvent.hello version name pid) app =
    if_cases (λ (a : App). a.bridge ≡ app.bridge) (version == ipc_version) _ _ (λ _. refl)
      (λ _. refl)
handle_event-bridge (ServerEvent.device_lost id) app = forget-bridge id app
handle_event-bridge (ServerEvent.device_found id name) app = refl
handle_event-bridge (ServerEvent.device_state_changed id state) app = refl
handle_event-bridge (ServerEvent.transfer_added id _ direction file_name total) app = refl
handle_event-bridge (ServerEvent.transfer_progress id done total) app = refl
handle_event-bridge (ServerEvent.transfer_finished id) app = refl
handle_event-bridge (ServerEvent.transfer_failed id reason) app = refl
handle_event-bridge (ServerEvent.notification_received id source title body) app = refl
handle_event-bridge (ServerEvent.clipboard_updated text) app = refl
handle_event-bridge (ServerEvent.log_record level msg) app = refl
handle_event-bridge ServerEvent.daemon_shutdown app = refl
handle_event-bridge _ app = refl

on_device_selected-bridge :
    (i : ℕ) (app : App)
    → (on_device_selected i app).bridge
      ≡ extended (wanted (Message.device_selected i) app) app.bridge
unfolding on_device_selected
on_device_selected-bridge i app = elim (Option-cases (card_at i app.devices)) [
  | inl e ↦ rw (e, on_device_selected, wanted) (sym (extended_by_none app.bridge))
  | inr (d, e) ↦
      rw (e, on_device_selected, wanted)
        (request-bridge (list_plugins d.id)
          (record app { selected_id = some d.id; selected = some i; plugins = [] }))
]

on_queue_file-bridge :
    (app : App)
    → (on_queue_file app).bridge
      ≡ extended (file_command (selected_device_id app) (trim app.file_path_draft)) app.bridge
unfolding on_queue_file
on_queue_file-bridge app = elim (Option-cases (selected_device_id app)) [
  | inl e ↦ rw (e, on_queue_file) (sym (extended_by_none app.bridge))
  | inr (id, e) ↦ elim (List-cases (trim app.file_path_draft)) [
    | inl t ↦ rw (e, t, on_queue_file) (sym (extended_by_none app.bridge))
    | inr (c, cs, t) ↦ rw (e, t, on_queue_file) (request-bridge (send_file id (c ∷ cs)) app)
  ]
]

on_send-bridge :
    (app : App)
    → (on_send app).bridge ≡ extended (text_command (trim app.clipboard_draft)) app.bridge
unfolding on_send
on_send-bridge app = elim (List-cases (trim app.clipboard_draft)) [
  | inl t ↦ rw (t, on_send) (sym (extended_by_none app.bridge))
  | inr (c, cs, t) ↦
      let sending : App = record app { clipboard_status = some "sending" } in
      let command = BridgeIn.clipboard_set (c ∷ cs) in
      rw (t, on_send)
        (if_cases (λ (a : App). a.bridge ≡ extended (command ∷ []) app.bridge)
          (dispatch command sending).1 _ _ (λ _. dispatch-bridge command sending)
          (λ _. dispatch-bridge command sending))
]

-- The channel after a message that may bring a new one.
abbrev pub channel : Message → App → Option Bridge
channel (Message.bridge_ready b) app = some b
channel _ app = app.bridge

module _ (save : PluginToggles → Option String) where
  on_toggle-bridge :
      (name : String) (enabled : Bool) (app : App)
      → (on_toggle save name enabled app).bridge
        ≡ extended (wanted (Message.toggle_plugin name enabled) app) app.bridge
  unfolding on_toggle
  on_toggle-bridge name enabled app =
      let app' : App = record app { plugins = flip_plugin name enabled app.plugins } in
      elim (Option-cases (selected_device_id app)) [
        | inl e ↦ rw (e, on_toggle, wanted) (sym (extended_by_none app.bridge))
        | inr (id, e) ↦
            rw (e, on_toggle, wanted)
              (request-bridge (set_plugin id name enabled)
                  (record_plugin_toggle save id name enabled app')
                ∙ ap (extended (set_plugin id name enabled ∷ []))
                    (record_plugin_toggle-bridge save id name enabled app'))
      ]

  on_saved_toggle-bridge :
      (key : String) (enabled : Bool) (app : App)
      → (on_saved_toggle save key enabled app).bridge
        ≡ extended (wanted (Message.toggle_saved_plugin key enabled) app) app.bridge
  unfolding on_saved_toggle
  on_saved_toggle-bridge key enabled app = elim (Option-cases (split_toggle_key key)) [
    | inl e ↦ rw (e, on_saved_toggle, wanted) (sym (extended_by_none app.bridge))
    | inr (p, e) ↦
        rw (e, on_saved_toggle, wanted)
          (request-bridge (set_plugin p.0 p.1 enabled)
              (record_plugin_toggle save p.0 p.1 enabled app)
            ∙ ap (extended (set_plugin p.0 p.1 enabled ∷ []))
                (record_plugin_toggle-bridge save p.0 p.1 enabled app))
  ]

  -- Each message puts into the command channel exactly the command that it stands for, after those
  -- that are there, if the other end is not gone, and nothing otherwise: a card that is clicked asks
  -- for its plugins, the buttons ask for what they say of the device that is selected, and no event,
  -- load or acknowledgement asks for anything.
  pub update-commands :
      (m : Message) (app : App)
      → (update save m app).bridge ≡ extended (wanted m app) (channel m app)
  unfolding update
  update-commands (Message.ipc_status ConnState.connected) app = sym (extended_by_none app.bridge)
  update-commands (Message.ipc_status ConnState.connecting) app = sym (extended_by_none app.bridge)
  update-commands (Message.ipc_status ConnState.disconnected) app =
      sym (extended_by_none app.bridge)
  update-commands (Message.bridge_ready b) app = sym (extended_by_none (some b))
  update-commands (Message.paired r) app = unchanged _ _ (finish_pairing-bridge r false app)
  update-commands (Message.unpaired r) app = unchanged _ _ (finish_pairing-bridge r true app)
  update-commands (Message.file_queued none) app = sym (extended_by_none app.bridge)
  update-commands (Message.file_queued (some _)) app = sym (extended_by_none app.bridge)
  update-commands (Message.dismissed none) app = sym (extended_by_none app.bridge)
  update-commands (Message.dismissed (some _)) app = sym (extended_by_none app.bridge)
  update-commands (Message.plugin_set none) app = sym (extended_by_none app.bridge)
  update-commands (Message.plugin_set (some _)) app = sym (extended_by_none app.bridge)
  update-commands (Message.clipboard_done none) app = sym (extended_by_none app.bridge)
  update-commands (Message.clipboard_done (some _)) app = sym (extended_by_none app.bridge)
  update-commands (Message.event e) app = unchanged _ _ (handle_event-bridge e app)
  update-commands (Message.device_selected i) app = on_device_selected-bridge i app
  update-commands (Message.pair_pressed id) app =
      request-bridge (BridgeIn.pair id) (with_pair_target id app)
  update-commands (Message.unpair_pressed id) app =
      request-bridge (BridgeIn.unpair id) (with_unpair_target id app)
  update-commands (Message.toggle_plugin name enabled) app = on_toggle-bridge name enabled app
  update-commands (Message.toggle_saved_plugin key enabled) app =
      on_saved_toggle-bridge key enabled app
  update-commands Message.queue_file_pressed app = on_queue_file-bridge app
  update-commands Message.send_pressed app = on_send-bridge app
  update-commands Message.refresh_pressed app = request-bridge refresh_devices app
  update-commands (Message.dismiss_pressed id) app =
      dispatch-bridge (dismiss_notification id) (dismissing id app)
  update-commands _ app = sym (extended_by_none app.bridge)
