-- ===== src/Daemon/Handler.antt =====
-- crates/daemon/src/main.rs, handle_request, with the ManagerHandle of device.rs. What the manager, the
-- clipboard and the session detection answer to a request is a parameter.
pub mod Laws
pub mod Examples
use Prim.Native.String.{◌++◌}
use handfast.Base.{
  ℕ, ℤ, pos, String, Bool, true, false, Option, none, some, List, [], ◌∷◌, map, if◌then◌else◌,
  insert,
}
use handfast.Json.{Value, nil, null, bool, number, pos_int, string, array, object, field, end}
use handfast.Device.State.{Store, kv_get}
use handfast.Device.Snapshot.{items}
use handfast.Plugins.Meta.{PluginMeta}
use handfast.Plugins.Registry.{Plugin, meta, registry}
use handfast.Ipc.Proto.{Request, Response, ok_json, err}

-- `Result<A, Error>`, with the text of the error.
pub data Outcome (A : Type 0) : Type 0 where
  done : A → Outcome A
  failed : String → Outcome A

-- A command to the manager and its one-shot reply: the manager has stopped, it dropped the reply, or it
-- replied.
pub data Asked (A : Type 0) : Type 0 where
  stopped : Asked A
  dropped : Asked A
  replied : A → Asked A

-- `list_devices` and `transfer_list` of the handle.
unfoldable pub rows_of : Asked (List Value) → List Value
rows_of stopped = []
rows_of dropped = []
rows_of (replied rows) = rows

-- `unpair`, `pairing_answer`, `send_file` and `transfer_cancel` of the handle, which differ in the text
-- for a dropped reply.
unfoldable pub resolve : {A : Type 0} → String → Asked (Outcome A) → Outcome A
resolve text stopped = failed "device manager stopped"
resolve text dropped = failed text
resolve text (replied r) = r

-- `start_pairing` of the handle; `none` when the reply is not there in time.
unfoldable pub resolve_pairing : Option (Asked (Outcome Bool)) → Outcome Bool
unfolding resolve
resolve_pairing none = failed "pairing timed out"
resolve_pairing (some a) = resolve "pairing answer channel dropped" a

-- What the rest of the world answers. The manager is a task of its own, which shares the store: a call
-- of its handle returns the answer and the store as it is when the answer is there.
pub record World : Type 0 where
  pub device_id : String
  pub version : String
  pub session : Value
  pub list_devices : Store → Asked (List Value) × Store
  pub start_pairing : String → Store → Option (Asked (Outcome Bool)) × Store
  pub unpair : String → Store → Asked (Outcome Unit) × Store
  pub pairing_answer : String → Bool → Store → Asked (Outcome Unit) × Store
  pub send_file : String → String → Store → Asked (Outcome String) × Store
  pub transfer_list : Store → Asked (List Value) × Store
  pub transfer_cancel : String → Store → Asked (Outcome Unit) × Store
  pub get_text : Outcome String
  pub set_text : String → Outcome Unit
  -- the text of an error of the database
  pub store_error : String

-- `Store::kv_set`
unfoldable pub kv_set : World → String → String → Store → Outcome Unit × Store
unfolding insert
kv_set w key val st =
    if st.faulty
    then (failed w.store_error, st)
    else (done tt, record st { kv = insert key val st.kv })

unfoldable pub plugin_json : PluginMeta → Value
plugin_json m = object (
    field "name" (string m.name) (
      field "title" (string m.title) (
        field "default_enabled" (bool m.default_enabled) (
          field "requires_wayland" (bool m.requires_wayland)
            (field "requires_dbus" (bool m.requires_dbus) end)))))

unfoldable pub plugin_rows : List Plugin → List Value
unfolding plugin_json meta
plugin_rows ps = map (λ p. plugin_json (meta p)) ps

unfoldable pub daemon_info : World → Value
daemon_info w = object (
    field "app" (string "handfast") (
      field "version" (string w.version) (
        field "protocol" (number (pos_int 8)) (
          field "ipc" (number (pos_int 1))
            (field "device_id" (string w.device_id) (field "session" w.session end))))))

-- `match result { Ok(a) => ok_json(...), Err(err) => Response::err(code, ...) }`
unfoldable pub answer : {A : Type 0} → ℕ → (A → Value) → Outcome A → Response
answer code f (done a) = ok_json (f a)
answer code f (failed text) = err (pos code) text

abbrev pub flag : String → Value
flag key = object (field key (bool true) end)

unfoldable pub plugin_key : String → String → String
plugin_key device_id plugin = "plugin:" ++ device_id ++ ":" ++ plugin

unfoldable pub handle_request : World → Request → Store → Response × Store
unfolding rows_of resolve resolve_pairing kv_set plugin_rows daemon_info answer plugin_key items
handle_request w Request.ping st = (ok_json (string "pong"), st)
handle_request w Request.daemon_info st = (ok_json (daemon_info w), st)
handle_request w Request.device_list st =
    let (rows, st') = w.list_devices st in (ok_json (array (items (rows_of rows))), st')
handle_request w (Request.device_pair id) st =
    let (asked, st') = w.start_pairing id st in
    (
      answer 2001 (λ accepted. object (field "accepted" (bool accepted) end))
          (resolve_pairing asked),
      st',
    )
handle_request w (Request.device_unpair id) st =
    let (asked, st') = w.unpair id st in
    (answer 2002 (λ _. flag "unpaired") (resolve "unpair channel dropped" asked), st')
handle_request w (Request.pairing_answer id accept) st =
    let (asked, st') = w.pairing_answer id accept st in
    (answer 2003 (λ _. flag "answered") (resolve "pairing-answer channel dropped" asked), st')
handle_request w (Request.plugin_list _) st = (ok_json (array (items (plugin_rows registry))), st)
handle_request w (Request.plugin_set_enabled id plugin enabled) st =
    let (result, st') = kv_set w (plugin_key id plugin) (if enabled then "1" else "0") st in
    (answer 3000 (λ _. flag "saved") result, st')
handle_request w (Request.send_file id path) st =
    let (asked, st') = w.send_file id path st in
    (
      answer 4001 (λ t. object (field "transfer_id" (string t) end))
          (resolve "send-file channel dropped" asked),
      st',
    )
handle_request w Request.transfer_list st =
    let (rows, st') = w.transfer_list st in (ok_json (array (items (rows_of rows))), st')
handle_request w (Request.transfer_cancel id) st =
    let (asked, st') = w.transfer_cancel id st in
    (answer 4002 (λ _. flag "cancelled") (resolve "cancel channel dropped" asked), st')
handle_request w Request.notification_list st = (ok_json (array nil), st)
handle_request w (Request.notification_dismiss _) st = (ok_json (flag "dismissed"), st)
handle_request w Request.clipboard_get st =
    (answer 5000 (λ text. object (field "text" (string text) end)) w.get_text, st)
handle_request w (Request.clipboard_set text) st =
    (answer 5000 (λ _. flag "set") (w.set_text text), st)
handle_request w (Request.run_command_list _) st = (ok_json (array nil), st)
handle_request w (Request.run_command _ name) st =
    (err (pos 6000) ("remote command '" ++ name ++ "' arrives in Phase 4"), st)
handle_request w (Request.set_volume _) st =
    (err (pos 7000) "volume control arrives in Phase 4", st)
handle_request w Request.get_volume st = (err (pos 7001) "volume queries arrive in Phase 4", st)
handle_request w (Request.share_text _ _) st =
    (err (pos 8000) "text sharing arrives in Phase 4", st)
handle_request w (Request.share_url _ _) st = (err (pos 8001) "URL sharing arrives in Phase 4", st)
handle_request w (Request.request_battery _) st =
    (err (pos 9000) "battery requests arrive in Phase 4", st)
handle_request w (Request.send_sms _ _ _) st = (err (pos 9001) "SMS sending arrives in Phase 4", st)
