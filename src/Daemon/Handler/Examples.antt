-- ===== src/Daemon/Handler/Examples.antt =====
-- The theorems on the request handler at concrete requests.
use mathlib.Core.Option
use handfast.Base.{pos, true, false, ◌⊎◌, some, [], map, ◌≡◌, refl}
use handfast.Json.{Value, null}
use handfast.Device.State.{Store}
use handfast.Plugins.Registry.{registry}
use handfast.Ipc.Proto.{Request, ok}
use handfast.Tui.Model.{parse_plugins}
use handfast.Daemon.Handler.{World, stopped, failed, handle_request, answer, kv_set}
use handfast.Daemon.Handler.Laws.{code_of, asks_manager, refusal_code, shown, plugins_shown_off}

-- A daemon whose manager has stopped, with no clipboard.
abbrev quiet : World
quiet = record {
  device_id = "laptop";
  version = "0.1.0";
  session = null;
  list_devices = λ st. (stopped, st);
  start_pairing = λ _ st. (some stopped, st);
  unpair = λ _ st. (stopped, st);
  pairing_answer = λ _ _ st. (stopped, st);
  send_file = λ _ _ st. (stopped, st);
  transfer_list = λ st. (stopped, st);
  transfer_cancel = λ _ st. (stopped, st);
  get_text = failed "no display";
  set_text = λ _. failed "no display";
  store_error = "disk is full";
}

abbrev empty : Store
empty = record { rows = []; kv = []; faulty = false }

abbrev full : Store
full = record empty { faulty = true }

refusal_code_example :
    (Option.map pos (code_of (Request.plugin_set_enabled "phone" "sms" true)) ≡ some (pos 3000))
    × ((asks_manager (Request.plugin_set_enabled "phone" "sms" true) ≡ true) ⊎ (full ≡ full))
unfolding handle_request answer kv_set
refusal_code_example =
    refusal_code quiet (Request.plugin_set_enabled "phone" "sms" true) full full (pos 3000)
      "disk is full" refl

plugins_shown_off_example :
    (v : Value) × (handle_request quiet (Request.plugin_list "phone") empty ≡ (ok v, empty))
    × (parse_plugins v ≡ map shown registry)
plugins_shown_off_example = plugins_shown_off quiet "phone" empty
