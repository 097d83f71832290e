-- ===== src/Plugins/Signals.antt =====
-- crates/plugins/src: ping.rs, find_my_phone.rs, telephony.rs and notifications.rs. `now` is the
-- clock, and the counter that of the packet ids.
pub mod Laws
use handfast.Base.{
  ℕ, String, Bool, true, false, Option, none, some, List, [], ◌∷◌, if◌then◌else◌, str_eq, not, ◌&&◌,
  Assoc, insert, remove,
}
use handfast.Json.{Value, object, string, field, end, get_str}
use handfast.Protocol.Types.{
  type_ping, type_findmyphone, type_telephony, type_mpris_request, type_notification,
  type_notification_request,
}
use handfast.Protocol.Packet.{Packet}
use handfast.Plugins.Reply.{Reply, Handled, silent, reply_with, text_or_empty}

-- `PingPlugin::handle` on `last_ping_at`
unfoldable pub ping_handle : ℕ → Option ℕ → Packet → ℕ → Handled (Option ℕ)
unfolding reply_with
ping_handle now last p counter =
    if not (str_eq p.ptype type_ping)
    then (last, silent counter)
    else (some now, reply_with type_ping (object end) counter)

-- `FindMyPhonePlugin::apply_action` on `ringing`
unfoldable pub apply_action : Bool → Value → ℕ → Handled Bool
unfolding get_str reply_with
apply_action ringing body counter = elim (get_str "action" body) [
  | none ↦ (ringing, silent counter)
  | some action ↦
      if str_eq action "start"
      then (true, reply_with type_findmyphone body counter)
      else if str_eq action "stop"
      then (false, reply_with type_findmyphone body counter)
      else (ringing, silent counter)
]

unfoldable pub find_my_phone_handle : Bool → Packet → ℕ → Handled Bool
unfolding apply_action
find_my_phone_handle ringing p counter =
    if not (str_eq p.ptype type_findmyphone)
    then (ringing, silent counter)
    else apply_action ringing p.body counter

pub record TelephonyPlugin : Type 0 where
  pub last_call_state : Option String
  pub last_phone_number : Option String
  pub pause_music_on_ring : Bool

-- The suggestion that goes out when the phone rings.
abbrev pub play_pause : Value
play_pause = object (field "player" (string "") (field "action" (string "PlayPause") end))

unfoldable pub record_call : TelephonyPlugin → Packet → ℕ → Handled TelephonyPlugin
unfolding get_str text_or_empty reply_with
record_call s p counter = elim (get_str "event" p.body) [
  | none ↦ (s, silent counter)
  | some event ↦ (
    record s {
      last_call_state = some event;
      last_phone_number = some (text_or_empty "phoneNumber" p.body);
    },
    if str_eq event "ringing" && s.pause_music_on_ring
        then reply_with type_mpris_request play_pause counter
        else silent counter,
  )
]

unfoldable pub telephony_handle : TelephonyPlugin → Packet → ℕ → Handled TelephonyPlugin
unfolding record_call
telephony_handle s p counter =
    if not (str_eq p.ptype type_telephony) then (s, silent counter) else record_call s p counter

-- What goes out for a notification.
unfoldable pub forwarded : Value → Value
unfolding text_or_empty
forwarded body = object (
    field "id" (string (text_or_empty "id" body)) (
      field "appName" (string (text_or_empty "appName" body)) (
        field "title" (string (text_or_empty "title" body))
          (field "text" (string (text_or_empty "text" body)) end))))

-- The ids that are tracked when a notification was forwarded.
unfoldable pub track : String → Assoc String → Assoc String
unfolding insert
track id ids = if str_eq id "" then ids else insert id id ids

unfoldable pub forward : Assoc String → Value → ℕ → Handled (Assoc String)
unfolding track forwarded reply_with text_or_empty
forward ids body counter =
    if str_eq (text_or_empty "title" body) "" && str_eq (text_or_empty "text" body) ""
    then (ids, silent counter)
    else (
      track (text_or_empty "id" body) ids,
      reply_with type_notification (forwarded body) counter,
    )

-- A request about a notification: only a dismissal changes the map.
unfoldable pub act : Assoc String → Value → Assoc String
unfolding text_or_empty remove
act ids body =
    if str_eq (text_or_empty "action" body) "dismiss" && not (str_eq (text_or_empty "key" body) "")
    then remove (text_or_empty "key" body) ids
    else ids

-- `NotificationsPlugin::handle` on `id_map`
unfoldable pub notifications_handle : Assoc String → Packet → ℕ → Handled (Assoc String)
unfolding forward act
notifications_handle ids p counter =
    if str_eq p.ptype type_notification
    then forward ids p.body counter
    else if str_eq p.ptype type_notification_request
    then (act ids p.body, silent counter)
    else (ids, silent counter)
