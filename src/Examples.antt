-- ===== src/Examples.antt =====
-- The theorems on devices and plugins at concrete inputs: a phone that is announced, connects and
-- asks to pair, with the plugins of the registry.
use handfast.Base.{◌∷◌, String, true, false, none, some, [], ◌≡◌, refl, arith, lookup}
use handfast.Json.{object, end}
use handfast.Protocol.Types.{type_pair, type_battery_request}
use handfast.Protocol.Packet.{Packet, new}
use handfast.Device.State.{
  DeviceRow, Identity, Store, Manager, DeviceState, fresh, pair_body, supports_incoming,
}
use handfast.Device.Links.Restart.{IsKeyed, row_pin, load_persisted-pin}
use handfast.Device.Lasting.{accepted_after_restart, unpaired_after_restart}
use handfast.Device.Links.{load_persisted, shell_identity}
use handfast.Device.Trust.{answer_incoming_pairing, unpair}
use handfast.Device.Invariant.{IsValid}
use handfast.Device.Accepted.{IsTrusted, accept_pins_live}
use handfast.Device.Pins.{pin_of}
use handfast.Device.Actor.{
  PluginApi, announce, connected, packet_from, pairing_answer, run_command, dispatch_all,
}
use handfast.Device.Actor.History.{Reach, here, next, handles, loaded-IsValid}
use handfast.Device.Actor.Consent.{Consent, run_command-Consent}
use handfast.Daemon.Advertised.{build_self_identity}
use handfast.Daemon.Advertised.Served.{unadvertised_silent}
use handfast.Plugins.Registry.{Plugin, plugin_api, registry}
use handfast.Plugins.Registry.Laws.{battery_request_unanswered}

abbrev api : PluginApi Plugin
api = plugin_api 7 none (λ _. none)

abbrev empty_store : Store
empty_store = record { rows = []; kv = []; faulty = false }

abbrev started : Manager Plugin
started = (load_persisted api.created "laptop" (fresh empty_store)).1

abbrev phone : Identity
phone = shell_identity "phone" "Ada's phone" "phone"

abbrev pair_request : Packet
pair_request = (new 0 type_pair (pair_body true)).0

abbrev known : Manager Plugin
known = run_command api 10 (announce "10.0.0.2" phone) started

abbrev online : Manager Plugin
online = run_command api 11 (connected "phone" "aa") known

-- The phone has asked to pair at 12, so that its request is parked until 42.
abbrev asked : Manager Plugin
asked = run_command api 12 (packet_from "phone" pair_request) online

asked_Reach : Reach api started asked
asked_Reach =
    next
      (next (next here (handles 10 (announce "10.0.0.2" phone)))
        (handles 11 (connected "phone" "aa")))
      (handles 12 (packet_from "phone" pair_request))

loaded-IsValid_example : IsValid asked
loaded-IsValid_example = loaded-IsValid api "laptop" empty_store asked asked_Reach

asked-IsValid : IsValid asked
asked-IsValid = loaded-IsValid api "laptop" empty_store asked asked_Reach

parked_test : lookup "phone" asked.incoming_pairs ≡ some 42
unfolding run_command load_persisted fresh new lookup
parked_test = refl

writable_test : asked.store.faulty ≡ false
unfolding run_command load_persisted fresh new lookup
writable_test = refl

unpinned_test : pin_of "phone" asked ≡ none
unfolding run_command load_persisted fresh new lookup
unpinned_test = refl

accepted_test : pin_of "phone" (run_command api 40 (pairing_answer "phone" true) asked) ≡ some "aa"
unfolding run_command load_persisted fresh new lookup
accepted_test = refl

run_command-Consent_example : Consent "phone" 40 (pairing_answer "phone" true) asked
run_command-Consent_example =
    run_command-Consent api "phone" "aa" 40 (pairing_answer "phone" true) asked unpinned_test
      accepted_test

accept_pins_live_example :
    (s : DeviceState Plugin) × (fp : String) × (lookup "phone" asked.devices ≡ some s)
    × (s.live_fingerprint ≡ some fp)
    × IsTrusted "phone" fp (answer_incoming_pairing 40 "phone" true asked).1
accept_pins_live_example =
    accept_pins_live 40 "phone" 42 asked asked-IsValid parked_test (omega arith) writable_test

abbrev probe : Packet
probe = (new 0 type_battery_request (object end)).0

battery_request_unanswered_example : dispatch_all api probe 3 registry ≡ (registry, [], 3)
unfolding new
battery_request_unanswered_example =
    battery_request_unanswered 7 none (λ _. none) probe 3 registry refl refl

-- A store that was left by an earlier run, with the phone paired.
abbrev phone_row : DeviceRow
phone_row = record {
  device_id = "phone";
  name = "Ada's phone";
  device_type = "phone";
  cert_fingerprint = "aa";
  paired = true;
  last_seen = some 40;
}

abbrev paired_store : Store
paired_store = record empty_store { rows = ("phone", phone_row) ∷ [] }

paired_store-IsKeyed : IsKeyed paired_store.rows
unfolding lookup
paired_store-IsKeyed = (refl, refl, tt)

load_persisted-pin_example :
    pin_of "phone" (load_persisted registry "laptop" (fresh paired_store)).1 ≡ row_pin phone_row
unfolding lookup
load_persisted-pin_example =
    load_persisted-pin registry "laptop" "phone" paired_store phone_row paired_store-IsKeyed refl
      refl refl

asked-IsKeyed : IsKeyed asked.store.rows
unfolding run_command load_persisted fresh new lookup
asked-IsKeyed = tt

accepted_after_restart_example :
    (s : DeviceState Plugin) × (fp : String) × (lookup "phone" asked.devices ≡ some s)
    × (s.live_fingerprint ≡ some fp)
    × (pin_of "phone"
          (load_persisted registry "laptop"
            (fresh (answer_incoming_pairing 40 "phone" true asked).1.store)).1
        ≡ some fp)
accepted_after_restart_example =
    accepted_after_restart registry "laptop" 40 "phone" 42 asked asked-IsValid parked_test
      (omega arith) writable_test asked-IsKeyed refl

-- The daemon after it has loaded the store that holds the paired phone.
abbrev resumed : Manager Plugin
resumed = (load_persisted registry "laptop" (fresh paired_store)).1

resumed-IsKeyed : IsKeyed resumed.store.rows
unfolding load_persisted fresh lookup
resumed-IsKeyed = (refl, refl, tt)

unpaired_after_restart_example :
    (pin_of "phone" (unpair 50 "phone" resumed) ≡ none)
    × (pin_of "phone" (load_persisted registry "laptop" (fresh (unpair 50 "phone" resumed).store)).1
        ≡ none)
unfolding load_persisted fresh lookup
unpaired_after_restart_example =
    unpaired_after_restart registry "laptop" 50 "phone" _ resumed refl resumed-IsKeyed refl refl

abbrev unknown_type : Packet
unknown_type = (new 0 "kdeconnect.unknown" (object end)).0

unadvertised_silent_example : dispatch_all api unknown_type 3 registry ≡ (registry, [], 3)
unfolding new supports_incoming build_self_identity
unadvertised_silent_example =
    unadvertised_silent 7 none (λ _. none) "laptop" "Ada's laptop" 1716 3 unknown_type registry refl
      refl
