-- ===== src/Gui/Reducer.antt =====
-- crates/gui/src/app.rs: what each message does to the state.
use Prim.Native.String.{◌++◌}
use mathlib.Core.List
use handfast.Base.{
  ℕ, String, Bool, true, false, Option, none, some, List, [], ◌∷◌, length, ltb, ◌==◌, if◌then◌else◌,
  str_eq,
}
use handfast.Ipc.Proto.{ServerEvent, to_text}
use handfast.Gui.Model.{
  DeviceCard, TransferRow, NotifRow, card_found, card_state, upsert_card, find_card, change_card,
  remove_card, update_row, upsert_row, has_row, change_row, without_row,
}
use handfast.Gui.App.{App, notif_cap, push_log, set_banner, sync_selection, clamp_line, is_id}

abbrev pub ipc_version : ℕ
ipc_version = 1

-- `take()` on the target of an acknowledgement.
unfoldable pub take_target : Bool → App → Option String × App
take_target true app = (app.unpair_target, record app { unpair_target = none })
take_target false app = (app.pair_target, record app { pair_target = none })

abbrev pub acknowledged : Bool → DeviceCard → DeviceCard
acknowledged true card = record card { paired = false; state = "found" }
acknowledged false card = record card { paired = true; state = "paired" }

-- The label of a request in flight gives way.
abbrev pub reverted : Bool → DeviceCard → DeviceCard
reverted true card =
    if str_eq card.state "unpairing" then record card { state = "paired" } else card
reverted false card = if str_eq card.state "pairing" then record card { state = "found" } else card

unfoldable pub change_target : Option String → (DeviceCard → DeviceCard) → App → App
unfolding change_card
change_target none f app = app
change_target (some id) f app = record app { devices = change_card id f app.devices }

abbrev did : Bool → String → String
did true id = "unpaired " ++ id
did false id = "paired with " ++ id

abbrev doing : Bool → String
doing true = "unpairing"
doing false = "pairing"

unfoldable pub finish_pairing : Option String → Bool → App → App
unfolding take_target change_target push_log set_banner
finish_pairing none is_unpair app =
    let (target, app') = take_target is_unpair app in
    elim target [
      | none ↦ app'
      | some id ↦
          push_log (did is_unpair id) (change_target (some id) (acknowledged is_unpair) app')
    ]
finish_pairing (some why) is_unpair app =
    let (target, app') = take_target is_unpair app in
    set_banner (doing is_unpair ++ " failed: " ++ why)
      (change_target target (reverted is_unpair) app')

-- The card of a device that is announced: what is known of it, under the new name.
unfoldable pub announced_card : String → String → List DeviceCard → DeviceCard
unfolding find_card card_found
announced_card id name cards = elim (find_card id cards) [
  | some card ↦ record card { name = name }
  | none ↦ card_found id name
]

abbrev clear_if : Bool → Option String → Option String
clear_if true target = none
clear_if false target = target

-- What a lost device takes with it.
unfoldable pub forget : String → App → App
unfolding remove_card is_id sync_selection
forget id app =
    let app1 : App = record app { devices = remove_card id app.devices } in
    let app2 : App =
      if is_id id app1.selected_id
      then record app1 { selected_id = none; plugins = [] }
      else app1 in
    let app3 = sync_selection app2 in
    record app3 {
      pair_target = clear_if (is_id id app3.pair_target) app3.pair_target;
      unpair_target = clear_if (is_id id app3.unpair_target) app3.unpair_target;
    }

unfoldable pub on_lost : String → App → App
unfolding forget push_log
on_lost id app = push_log ("device lost: " ++ id) (forget id app)

-- The row that a progress event finds or makes.
unfoldable pub with_row : String → List TransferRow → List TransferRow
unfolding has_row
with_row id rows =
    if has_row id rows
    then rows
    else List.◌++◌ rows (record { id = id; name = id; done = 0; total = 0 } ∷ [])

-- `notifications.pop()` when there are too many.
unfoldable pub cap_back : ℕ → List NotifRow → List NotifRow
cap_back cap [] = []
cap_back cap (x ∷ xs) = if ltb cap (length (x ∷ xs)) then List.drop_last (x ∷ xs) else x ∷ xs

unfoldable pub handle_event : ServerEvent → App → App
unfolding push_log set_banner announced_card upsert_card on_lost change_card card_state upsert_row
    with_row change_row update_row without_row cap_back clamp_line
handle_event (ServerEvent.hello version name pid) app =
    let app' =
      push_log ("hello: " ++ name ++ " pid " ++ to_text pid ++ " (ipc v" ++ to_text version ++ ")")
        (record app { daemon_version = some (to_text version) }) in
    if version == ipc_version
    then app'
    else push_log
        ("[warn] protocol mismatch: gui speaks v"
          ++ to_text ipc_version
          ++ ", daemon offers v"
          ++ to_text version)
        app'
handle_event (ServerEvent.device_found id name) app = record app {
  devices = upsert_card (announced_card id name app.devices) app.devices;
}
handle_event (ServerEvent.device_lost id) app = on_lost id app
handle_event (ServerEvent.device_state_changed id state) app = record app {
  devices = change_card id (card_state state) app.devices;
}
handle_event (ServerEvent.transfer_added id _ direction file_name total) app =
    push_log ("transfer " ++ direction ++ ": " ++ file_name) (record app {
      transfers =
          upsert_row (record { id = id; name = file_name; done = 0; total = total }) app.transfers;
    })
handle_event (ServerEvent.transfer_progress id done total) app = record app {
  transfers =
      change_row id (update_row (ServerEvent.transfer_progress id done total))
        (with_row id app.transfers);
}
handle_event (ServerEvent.transfer_finished id) app =
    push_log ("transfer finished: " ++ id) (record app {
      transfers = change_row id (update_row (ServerEvent.transfer_finished id)) app.transfers;
    })
handle_event (ServerEvent.transfer_failed id reason) app =
    push_log ("[error] transfer failed: " ++ reason)
      (record app { transfers = without_row id app.transfers })
handle_event (ServerEvent.notification_received id source title body) app = record app {
  notifications =
      cap_back notif_cap
        (record { id = id; app = source; title = title; body = body } ∷ app.notifications);
}
handle_event (ServerEvent.clipboard_updated text) app =
    push_log ("remote clipboard: " ++ clamp_line text 80) app
handle_event (ServerEvent.log_record level msg) app = push_log ("[" ++ level ++ "] " ++ msg) app
handle_event ServerEvent.daemon_shutdown app =
    set_banner "daemon shut down; waiting for it to come back" (push_log "daemon shut down" app)
handle_event _ app = app
