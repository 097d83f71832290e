-- ===== src/Ipc/Proto.antt =====
-- crates/ipc/src/proto.rs: the requests, replies and events of the local socket; how the bus events
-- of the daemon become server events. Their JSON form is serde_json.
use Prim.Native.String.{◌++◌}
use handfast.Base.{
  ◌≡◌, refl, ℕ, zero, suc, ◌/◌, ◌%◌, ℤ, String, Bool, Option, ltb, ◌==◌, if◌then◌else◌,
}
use handfast.Json.{Value, number, string, pos_int, neg_int, object, field, end}
use handfast.Base.{pos, negsuc}
use handfast.Device.State.{Event}

pub data Request : Type 0 where
  daemon_info : Request
  device_list : Request
  device_pair : String → Request
  device_unpair : String → Request
  pairing_answer : String → Bool → Request
  plugin_list : String → Request
  plugin_set_enabled : String → String → Bool → Request
  send_file : String → String → Request
  notification_list : Request
  notification_dismiss : String → Request
  clipboard_get : Request
  clipboard_set : String → Request
  ping : Request
  transfer_list : Request
  transfer_cancel : String → Request
  run_command_list : String → Request
  run_command : String → String → Request
  set_volume : ℕ → Request
  get_volume : Request
  share_text : String → String → Request
  share_url : String → String → Request
  request_battery : String → Request
  send_sms : String → String → String → Request

pub data Response : Type 0 where
  ok : Value → Response
  err : ℤ → String → Response

abbrev pub ok_json : Value → Response
ok_json v = ok v

-- An i32 as a JSON number.
abbrev pub code_number : ℤ → Value
code_number (pos n) = number (pos_int n)
code_number (negsuc n) = number (neg_int n)

unfoldable pub as_json : Response → Value
as_json (ok v) = v
as_json (err c msg) = object (field "code" (code_number c) (field "message" (string msg) end))

pub data ServerEvent : Type 0 where
  hello : ℕ → String → ℕ → ServerEvent
  device_found : String → String → ServerEvent
  device_lost : String → ServerEvent
  device_state_changed : String → String → ServerEvent
  transfer_progress : String → ℕ → ℕ → ServerEvent
  -- the transfer, the device, the direction, the file name and the size
  transfer_added : String → String → String → String → ℕ → ServerEvent
  transfer_finished : String → ServerEvent
  transfer_failed : String → String → ServerEvent
  share_received : String → String → ServerEvent
  pairing_request : String → String → ServerEvent
  notification_received : String → String → String → String → ServerEvent
  clipboard_updated : String → ServerEvent
  log_record : String → String → ServerEvent
  battery_changed : String → ℕ → Bool → ServerEvent
  telephony_event : String → String → Option String → ServerEvent
  volume_changed : ℕ → Bool → ServerEvent
  command_result : String → String → Bool → String → ServerEvent
  daemon_shutdown : ServerEvent

abbrev digit : ℕ → String
digit d =
    if d == 0
    then "0"
    else if d == 1
    then "1"
    else if d == 2
    then "2"
    else if d == 3
    then "3"
    else if d == 4
    then "4"
    else if d == 5
    then "5"
    else if d == 6
    then "6"
    else if d == 7
    then "7"
    else if d == 8
    then "8"
    else "9"

-- The decimal digits of a number that has no more of them than the fuel.
decimal_text : ℕ → ℕ → String
decimal_text zero n = ""
decimal_text (suc fuel) n =
    let front = decimal_text fuel (n / 10) in if ltb n 10 then digit n else front ++ digit (n % 10)

-- A number has fewer digits than its successor has units.
unfoldable pub to_text : ℕ → String
unfolding decimal_text
to_text n = decimal_text (suc n) n

-- `format!("t{}", n)`: the text of the id of the n-th transfer.
unfoldable pub transfer_id : ℕ → String
unfolding to_text
transfer_id n = "t" ++ to_text n

-- `From<Event> for ServerEvent`
unfoldable pub from_event : Event → ServerEvent
unfolding transfer_id
from_event (Event.device_found id name) = device_found id name
from_event (Event.device_lost id) = device_lost id
from_event (Event.device_state_changed id state) = device_state_changed id state
from_event (Event.pairing_request id name) = pairing_request id name
from_event (Event.transfer_progress n done total) = transfer_progress (transfer_id n) done total
from_event (Event.transfer_added n device_id direction name total) =
    transfer_added (transfer_id n) device_id direction name total
from_event (Event.transfer_finished n) = transfer_finished (transfer_id n)
from_event (Event.transfer_failed n why) = transfer_failed (transfer_id n) why
from_event (Event.share_received path device_id) = share_received path device_id
from_event (Event.notification_received id app title body) = notification_received id app title body
from_event (Event.clipboard_updated text) = clipboard_updated text
from_event (Event.log_record level msg) = log_record level msg
from_event Event.daemon_shutdown = daemon_shutdown

transfer_id_test : transfer_id 1024 ≡ "t1024"
unfolding transfer_id
transfer_id_test = refl
