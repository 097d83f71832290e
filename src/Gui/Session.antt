-- ===== src/Gui/Session.antt =====
-- A session of the graphical client: the messages of its loop, one after the other.
use Prim.Native.String.{◌++◌}
use handfast.Base.{
  ℕ, suc, zero, String, Bool, true, false, Option, none, some, List, [], ◌∷◌, length, ◌≤◌, ◌≡◌,
  refl, Option-cases, List-cases, inl, inr, if_cases,
}
use handfast.Base.Text.{trim}
use handfast.Json.{◌>>=◌, is_some}
use handfast.Gui.Model.{DeviceCard, PluginToggles, split_toggle_key, ConnState}
use handfast.Gui.App.{
  App, BridgeIn, Message, log_cap, new, dispatch, record_plugin_toggle, selected_device_id, card_at,
  list_plugins, send_file, set_plugin, refresh_devices, dismiss_notification,
}
use handfast.Gui.Update.{
  update, labelled, with_pair_target, with_unpair_target, dismissing, flip_plugin, on_status,
  acknowledge, on_plugin_set, on_clipboard_done, on_device_selected, on_pair_pressed,
  on_unpair_pressed, on_queue_file, on_send, on_toggle, on_saved_toggle,
}
use handfast.Gui.Selection.{ids, at, Points}
use handfast.Gui.Invariant.{
  IsValid, new-IsValid, push_log-IsValid, set_banner-IsValid, dispatch-IsValid, request-IsValid,
  changed-IsValid, finish_pairing-IsValid, handle_event-IsValid,
}
use handfast.Base.{insert}
use handfast.Gui.Model.{toggle_key}

acknowledge-IsValid :
    (result : Option String) (success failure : String) (app : App)
    → IsValid app
    → IsValid (acknowledge result success failure app)
unfolding acknowledge
acknowledge-IsValid none success failure app v = push_log-IsValid success app v
acknowledge-IsValid (some why) success failure app v =
    set_banner-IsValid (failure ++ " failed: " ++ why) app v

on_status-IsValid : (state : ConnState) (app : App) → IsValid app → IsValid (on_status state app)
unfolding on_status
on_status-IsValid ConnState.connected app v = record {
  points = v.points;
  logs_bounded = v.logs_bounded;
}
on_status-IsValid _ app v = record { points = v.points; logs_bounded = v.logs_bounded }

on_plugin_set-IsValid :
    (r : Option String) (app : App) → IsValid app → IsValid (on_plugin_set r app)
unfolding on_plugin_set
on_plugin_set-IsValid none app v = v
on_plugin_set-IsValid (some why) app v = set_banner-IsValid ("plugin change failed: " ++ why) app v

on_clipboard_done-IsValid :
    (r : Option String) (app : App) → IsValid app → IsValid (on_clipboard_done r app)
unfolding on_clipboard_done
on_clipboard_done-IsValid none app v =
    push_log-IsValid _ _ (record { points = v.points; logs_bounded = v.logs_bounded })
on_clipboard_done-IsValid (some why) app v =
    push_log-IsValid _ _ (record { points = v.points; logs_bounded = v.logs_bounded })

-- The index that was clicked is that of the card whose id is kept.
at-card_at :
    (i : ℕ) (ds : List DeviceCard) (d : DeviceCard)
    → card_at i ds ≡ some d
    → at i (ids ds) ≡ some d.id
unfolding card_at
at-card_at i [] d h = cc
at-card_at zero (c ∷ ds) d h = cc
at-card_at (suc i) (c ∷ ds) d h = at-card_at i ds d h

on_device_selected-IsValid : (i : ℕ) (app : App) → IsValid app → IsValid (on_device_selected i app)
unfolding on_device_selected
on_device_selected-IsValid i app v = elim (Option-cases (card_at i app.devices)) [
  | inl e ↦ rw (e, on_device_selected) v
  | inr (d, e) ↦
      let chosen : App = record app { selected_id = some d.id; selected = some i; plugins = [] } in
      rw (e, on_device_selected)
        (request-IsValid (list_plugins d.id) chosen
          (record { points = at-card_at i app.devices d e; logs_bounded = v.logs_bounded }))
]

on_pair_pressed-IsValid : (id : String) (app : App) → IsValid app → IsValid (on_pair_pressed id app)
unfolding on_pair_pressed
on_pair_pressed-IsValid id app v =
    let w = changed-IsValid id (labelled "pairing") app (λ d. refl) v in
    request-IsValid (BridgeIn.pair id) (with_pair_target id app)
      (record { points = w.points; logs_bounded = w.logs_bounded })

on_unpair_pressed-IsValid :
    (id : String) (app : App) → IsValid app → IsValid (on_unpair_pressed id app)
unfolding on_unpair_pressed
on_unpair_pressed-IsValid id app v =
    let w = changed-IsValid id (labelled "unpairing") app (λ d. refl) v in
    request-IsValid (BridgeIn.unpair id) (with_unpair_target id app)
      (record { points = w.points; logs_bounded = w.logs_bounded })

on_queue_file-IsValid : (app : App) → IsValid app → IsValid (on_queue_file app)
unfolding on_queue_file
on_queue_file-IsValid app v = elim (Option-cases (selected_device_id app)) [
  | inl e ↦ rw (e, on_queue_file) (set_banner-IsValid "select a device first" app v)
  | inr (id, e) ↦ elim (List-cases (trim app.file_path_draft)) [
    | inl t ↦
        rw (e, t, on_queue_file) (set_banner-IsValid "enter an absolute file path first" app v)
    | inr (c, cs, t) ↦ rw (e, t, on_queue_file) (request-IsValid (send_file id (c ∷ cs)) app v)
  ]
]

on_send-IsValid : (app : App) → IsValid app → IsValid (on_send app)
unfolding on_send
on_send-IsValid app v = elim (List-cases (trim app.clipboard_draft)) [
  | inl t ↦ rw (t, on_send) (record { points = v.points; logs_bounded = v.logs_bounded })
  | inr (c, cs, t) ↦
      let sending : App = record app { clipboard_status = some "sending" } in
      let w =
        dispatch-IsValid (BridgeIn.clipboard_set (c ∷ cs)) sending
          (record { points = v.points; logs_bounded = v.logs_bounded }) in
      rw (t, on_send)
        (if_cases IsValid (dispatch (BridgeIn.clipboard_set (c ∷ cs)) sending).1 _ _ (λ _. w)
          (λ _. record { points = w.points; logs_bounded = w.logs_bounded }))
]

module _ (save : PluginToggles → Option String) where
  toggled-IsValid :
      (device_id plugin : String) (enabled : Bool) (app : App)
      → IsValid app
      → IsValid (record_plugin_toggle save device_id plugin enabled app)
  unfolding record_plugin_toggle
  toggled-IsValid device_id plugin enabled app v =
      let toggles = insert (toggle_key device_id plugin) enabled app.plugin_toggles in
      let app' : App = record app { plugin_toggles = toggles } in
      let w : IsValid app' = record { points = v.points; logs_bounded = v.logs_bounded } in
      elim (Option-cases (save toggles)) [
        | inl e ↦ rw (e, record_plugin_toggle) w
        | inr (why, e) ↦
            rw (e, record_plugin_toggle)
              (push_log-IsValid ("[warn] persisting plugin toggles failed: " ++ why) app' w)
      ]

  on_toggle-IsValid :
      (name : String) (enabled : Bool) (app : App)
      → IsValid app
      → IsValid (on_toggle save name enabled app)
  unfolding on_toggle
  on_toggle-IsValid name enabled app v =
      let app' : App = record app { plugins = flip_plugin name enabled app.plugins } in
      let w : IsValid app' = record { points = v.points; logs_bounded = v.logs_bounded } in
      elim (Option-cases (selected_device_id app')) [
        | inl e ↦ rw (e, on_toggle) w
        | inr (id, e) ↦
            rw (e, on_toggle)
              (request-IsValid (set_plugin id name enabled)
                (record_plugin_toggle save id name enabled app')
                (toggled-IsValid id name enabled app' w))
      ]

  on_saved_toggle-IsValid :
      (key : String) (enabled : Bool) (app : App)
      → IsValid app
      → IsValid (on_saved_toggle save key enabled app)
  unfolding on_saved_toggle
  on_saved_toggle-IsValid key enabled app v = elim (Option-cases (split_toggle_key key)) [
    | inl e ↦
        rw (e, on_saved_toggle) (set_banner-IsValid ("malformed plugin toggle key: " ++ key) app v)
    | inr (p, e) ↦
        rw (e, on_saved_toggle)
          (request-IsValid (set_plugin p.0 p.1 enabled)
            (record_plugin_toggle save p.0 p.1 enabled app) (toggled-IsValid p.0 p.1 enabled app v))
  ]

  update-IsValid : (m : Message) (app : App) → IsValid app → IsValid (update save m app)
  unfolding update
  update-IsValid (Message.ipc_status state) app v = on_status-IsValid state app v
  update-IsValid (Message.connection_lost text) app v = set_banner-IsValid text app v
  update-IsValid (Message.load_failed text) app v =
      set_banner-IsValid ("load failed: " ++ text) app v
  update-IsValid (Message.devices_loaded cards) app v =
      push_log-IsValid _ _ (record { points = tt; logs_bounded = v.logs_bounded })
  update-IsValid (Message.plugins_loaded rows) app v =
      push_log-IsValid _ _ (record { points = v.points; logs_bounded = v.logs_bounded })
  update-IsValid (Message.paired result) app v = finish_pairing-IsValid result false app v
  update-IsValid (Message.unpaired result) app v = finish_pairing-IsValid result true app v
  update-IsValid (Message.file_queued r) app v = acknowledge-IsValid r _ _ app v
  update-IsValid (Message.dismissed r) app v = acknowledge-IsValid r _ _ app v
  update-IsValid (Message.plugin_set r) app v = on_plugin_set-IsValid r app v
  update-IsValid (Message.clipboard_done r) app v = on_clipboard_done-IsValid r app v
  update-IsValid (Message.event e) app v = handle_event-IsValid e app v
  update-IsValid (Message.device_selected i) app v = on_device_selected-IsValid i app v
  update-IsValid (Message.pair_pressed id) app v = on_pair_pressed-IsValid id app v
  update-IsValid (Message.unpair_pressed id) app v = on_unpair_pressed-IsValid id app v
  update-IsValid (Message.toggle_plugin name enabled) app v = on_toggle-IsValid name enabled app v
  update-IsValid (Message.toggle_saved_plugin key enabled) app v =
      on_saved_toggle-IsValid key enabled app v
  update-IsValid Message.queue_file_pressed app v = on_queue_file-IsValid app v
  update-IsValid Message.send_pressed app v = on_send-IsValid app v
  update-IsValid Message.refresh_pressed app v = request-IsValid refresh_devices app v
  update-IsValid (Message.dismiss_pressed id) app v =
      dispatch-IsValid (dismiss_notification id) (dismissing id app)
        (record { points = v.points; logs_bounded = v.logs_bounded })
  update-IsValid _ app v = record { points = v.points; logs_bounded = v.logs_bounded }

  -- The loop of the client.
  unfoldable pub run : List Message → App → App
  unfolding update
  run [] app = app
  run (m ∷ ms) app = run ms (update save m app)

  run-IsValid : (ms : List Message) (app : App) → IsValid app → IsValid (run ms app)
  unfolding run
  run-IsValid [] app v = v
  run-IsValid (m ∷ ms) app v = run-IsValid ms (update save m app) (update-IsValid m app v)

card_at-at :
    (i : ℕ) (ds : List DeviceCard) {x : String}
    → at i (ids ds) ≡ some x
    → (card_at i ds >>= λ (d : DeviceCard). some d.id) ≡ some x
unfolding card_at
card_at-at i [] h = cc
card_at-at zero (d ∷ ds) h = h
card_at-at (suc i) (d ∷ ds) h = card_at-at i ds h

both_or_none :
    (ds : List DeviceCard) (selected : Option ℕ) (selected_id : Option String)
    → Points (ids ds) selected selected_id
    → is_some selected ≡ is_some selected_id
both_or_none ds none none h = refl
both_or_none ds none (some x) h = absurd h
both_or_none ds (some i) none h = absurd h
both_or_none ds (some i) (some x) h = refl

selected_card :
    (ds : List DeviceCard) (selected : Option ℕ) (selected_id : Option String)
    → Points (ids ds) selected selected_id
    → (selected >>= λ (i : ℕ). card_at i ds >>= λ (d : DeviceCard). some d.id) ≡ selected_id
selected_card ds none none h = refl
selected_card ds none (some x) h = absurd h
selected_card ds (some i) none h = absurd h
selected_card ds (some i) (some x) h = card_at-at i ds h

-- Whatever the user does and the daemon sends, in any order from the start of the client: the card at
-- the selected index is the one with the id that was remembered when it was chosen, an index is
-- selected exactly if an id is remembered, and the log has at most 300 lines.
pub selection_kept :
    (save : PluginToggles → Option String) (toggles : PluginToggles) (ms : List Message)
    → (selected_device_id (run save ms (new toggles)) ≡ (run save ms (new toggles)).selected_id)
      × (is_some (run save ms (new toggles)).selected
          ≡ is_some (run save ms (new toggles)).selected_id)
      × (length (run save ms (new toggles)).logs ≤ log_cap)
unfolding selected_device_id
selection_kept save toggles ms =
    let app = run save ms (new toggles) in
    let v = run-IsValid save ms (new toggles) (new-IsValid toggles) in
    (
      selected_card app.devices app.selected app.selected_id v.points,
      both_or_none app.devices app.selected app.selected_id v.points,
      v.logs_bounded,
    )
