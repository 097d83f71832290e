-- ===== src/Tui/Examples.antt =====
-- The theorems on the terminal interface at concrete inputs: a phone with its notifications.
use mathlib.Core.List.{Perm}
use handfast.Base.{
  ℕ, String, true, false, none, some, List, [], ◌∷◌, ◌++◌, map, length, drop, ◌≡◌, refl, arith,
  lookup, ◌-◌,
}
use handfast.Json.{array}
use handfast.Device.State.{DeviceRow, Store, Manager, DeviceState, Event, fresh}
use handfast.Device.Trust.{persist_trust}
use handfast.Device.Links.{load_persisted, on_connected}
use handfast.Device.Pins.{pin_of}
use handfast.Device.Snapshot.{items, snapshot}
use handfast.Device.Snapshot.Sorted.{IsSorted}
use handfast.Ipc.Proto.{ServerEvent, from_event}
use handfast.Tui.Model.{NotifRow, parse_devices}
use handfast.Tui.State.{State, new, apply_event, reply_to_notification, notification_cap}
use handfast.Tui.Focus.{get_elem?}
use handfast.Base.Text.{trim}
use handfast.Tui.Draft.{KeyCode, pop}
use handfast.Tui.Keys.{handle_key}
use handfast.Tui.Session.{Input, run, react, IsValid}
use handfast.Tui.Session.Invariant.{session-IsValid}
use handfast.Tui.Session.Reply.{press, reply_goes_to_row}
use handfast.Tui.Session.Buffers.{received, newest_kept}
use handfast.Tui.Badge.{badge, badge_follows_trust, badge_lost}
use handfast.Tui.Listed.{entry, device_name, listed_devices}

abbrev message : NotifRow
message = record { id = "n1"; app = "Chat"; title = "Ada"; body = "Lunch?" }

abbrev late : NotifRow
late = record { id = "n2"; app = "Mail"; title = "Bob"; body = "Hi" }

-- A message arrives, and the user goes to the tab of the notifications.
abbrev opening : List Input
opening = received message ∷ press KeyCode.tab ∷ press KeyCode.tab ∷ []

abbrev ready : State
ready = (run opening new).0

session-IsValid_example : IsValid (run opening new).0
session-IsValid_example = session-IsValid opening

-- "ok!", the last character taken back, while another message arrives.
abbrev composing : List Input
composing =
    press (KeyCode.char b'o')
    ∷ press (KeyCode.char b'k')
    ∷ received late
    ∷ press (KeyCode.char b'!')
    ∷ press KeyCode.backspace
    ∷ []

reply_goes_to_row_example :
    (run (press (KeyCode.char b'r') ∷ (composing ++ press KeyCode.enter ∷ [])) ready).1
    ≡ reply_to_notification "n1" (b'o' ∷ b'k' ∷ []) ∷ []
unfolding run handle_key apply_event react get_elem? trim pop new
reply_goes_to_row_example =
    reply_goes_to_row message composing ready refl refl refl
      (refl, (refl, (refl, (refl, (refl, tt)))))

newest_kept_example :
    (run (map received (message ∷ late ∷ [])) new).0.notifications
    ≡ drop
        (length (new.notifications ++ message ∷ late ∷ []) - notification_cap)
        (new.notifications ++ message ∷ late ∷ [])
unfolding new
newest_kept_example = newest_kept (message ∷ late ∷ []) new (omega arith)

-- A store that was left by an earlier run, with the phone paired.
abbrev row : DeviceRow
row = record {
  device_id = "phone";
  name = "Ada's phone";
  device_type = "phone";
  cert_fingerprint = "aa";
  paired = true;
  last_seen = none;
}

abbrev left : Store
left = record { rows = ("phone", row) ∷ []; kv = []; faulty = false }

abbrev daemon : Manager ℕ
daemon = (load_persisted [] "laptop" (fresh left)).1

abbrev watching : State
watching = apply_event (ServerEvent.device_found "phone" "Ada's phone") new

badge_follows_trust_example :
    (e : Event) × ((persist_trust 50 "phone" false daemon).events ≡ e ∷ daemon.events)
    × (badge "phone" (apply_event (from_event e) watching) ≡ some false)
unfolding load_persisted fresh lookup apply_event new
badge_follows_trust_example = badge_follows_trust 50 "phone" false daemon _ watching refl refl

badge_lost_example :
    (pin_of "phone" (on_connected [] "phone" "aa" daemon) ≡ some "aa")
    × ((e : Event) × ((on_connected [] "phone" "aa" daemon).events ≡ e ∷ daemon.events)
        × (badge "phone" (apply_event (from_event e) watching) ≡ some false))
unfolding load_persisted fresh lookup apply_event new
badge_lost_example = badge_lost [] "phone" "aa" daemon _ watching refl refl refl

listed_devices_example :
    (ds : List (String × DeviceState ℕ)) × Perm ds daemon.devices
    × IsSorted device_name ds
    × (parse_devices (array (items (snapshot daemon))) ≡ map entry ds)
listed_devices_example = listed_devices daemon
