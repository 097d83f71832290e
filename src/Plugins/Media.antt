-- ===== src/Plugins/Media.antt =====
-- crates/plugins/src: mpris.rs and system_volume.rs.
pub mod Laws
use handfast.Base.{
  ℕ, ◌+◌, ◌*◌, ◌/◌, ◌^◌, suc, min, String, Bool, true, false, Option, none, some, List, [], ◌∷◌,
  leb, if◌then◌else◌, str_eq, not,
}
use handfast.Json.{
  Value, Number, pos_int, neg_int, float, object, string, bool, number, Fields, field, end,
  get_field, as_object, as_str, as_bool, as_f64, get_str, ◌>>=◌, unwrap_or,
}
use handfast.Protocol.Types.{type_mpris_request, type_systemvolume}
use handfast.Protocol.Packet.{Packet, new}
use handfast.Plugins.Reply.{Reply, Handled, silent, reply_with}

pub data MprisAction : Type 0 where
  play pause play_pause stop next previous : MprisAction

unfoldable pub as_str_action : MprisAction → String
as_str_action play = "Play"
as_str_action pause = "Pause"
as_str_action play_pause = "PlayPause"
as_str_action stop = "Stop"
as_str_action next = "Next"
as_str_action previous = "Previous"

unfoldable pub parse_action : String → Option MprisAction
parse_action s =
    if str_eq s "Play"
    then some play
    else if str_eq s "Pause"
    then some pause
    else if str_eq s "PlayPause"
    then some play_pause
    else if str_eq s "Stop"
    then some stop
    else if str_eq s "Next"
    then some next
    else if str_eq s "Previous"
    then some previous
    else none

-- The player that a request names: "auto" is the last one that was known.
unfoldable pub resolve : Option String → String → Option String
resolve last player = if str_eq player "auto" then last else some player

-- `{"player": ..., "action": ..., "ack": true}`
unfoldable pub ack_body : String → MprisAction → Value
unfolding as_str_action
ack_body player action = object (
    field "player" (string player)
      (field "action" (string (as_str_action action)) (field "ack" (bool true) end)))

-- What a request asks for, if it is one: the player and the action.
unfoldable pub requested_action : Option String → Value → Option (String × MprisAction)
unfolding get_str parse_action resolve
requested_action last body = get_str "player" body >>= λ player.
    get_str "action" body >>= parse_action >>= λ action.
    resolve last player >>= λ known. some (known, action)

-- `MprisPlugin::handle_request` on `last_known_player`
unfoldable pub handle_mpris_request : Option String → Value → ℕ → Handled (Option String)
unfolding requested_action ack_body reply_with
handle_mpris_request last body counter = elim (requested_action last body) [
  | none ↦ (last, silent counter)
  | some r ↦ (some r.0, reply_with type_mpris_request (ack_body r.0 r.1) counter)
]

unfoldable pub mpris_handle : Option String → Packet → ℕ → Handled (Option String)
unfolding handle_mpris_request
mpris_handle last p counter =
    if not (str_eq p.ptype type_mpris_request)
    then (last, silent counter)
    else handle_mpris_request last p.body counter

pub record VolumeState : Type 0 where
  pub sink_description : Option String
  pub volume : ℕ
  pub muted : Bool

-- `raw.clamp(0.0, 100.0).round() as u8`: halves round up, and a negative number clamps to 0.
unfoldable pub clamp_round : Number → ℕ
clamp_round (pos_int n) = min n 100
clamp_round (neg_int _) = 0
clamp_round (float true _ _) = 0
clamp_round (float false m s) = if leb (100 * 2 ^ s) m then 100 else (2 * m + 2 ^ s) / (2 * 2 ^ s)

-- `.or_else(|| ...)`
unfoldable pub or_else : Option Value → Option Value → Option Value
or_else none other = other
or_else (some v) other = some v

unfoldable pub extract_state : Value → Option VolumeState
unfolding as_object get_field as_f64 as_bool as_str clamp_round or_else unwrap_or
extract_state body = as_object body >>= λ obj. get_field "volume" obj >>= as_f64 >>= λ raw.
    some (record {
      sink_description = get_field "sink_description" obj >>= as_str;
      volume = clamp_round raw;
      muted = unwrap_or (or_else (get_field "muted" obj) (get_field "mute" obj) >>= as_bool) false;
    })

unfoldable pub observe : Option VolumeState → Value → Option VolumeState
unfolding extract_state
observe s body = elim (extract_state body) [ none ↦ s | some v ↦ some v ]

-- `SystemVolumePlugin::handle` on `state`
unfoldable pub system_volume_handle : Option VolumeState → Packet → ℕ → Handled (Option VolumeState)
unfolding observe
system_volume_handle s p counter =
    if not (str_eq p.ptype type_systemvolume)
    then (s, silent counter)
    else (observe s p.body, silent counter)

unfoldable pub volume_report : ℕ → Bool → ℕ → Packet × ℕ
unfolding new
volume_report percent muted counter = new counter type_systemvolume (
    object (
      field "direction" (string "in")
        (field "volume" (number (pos_int (min percent 100))) (field "mute" (bool muted) end))))
