-- ===== src/Protocol/Types.antt =====
-- crates/protocol/src/lib.rs: the packet type names and the limits.
use handfast.Base.{ℕ, String, ◌*◌}

abbrev pub proto_version : ℕ
proto_version = 8

abbrev pub max_packet_len : ℕ
max_packet_len = 512 * 1024

abbrev pub type_identity : String
type_identity = "kdeconnect.identity"

abbrev pub type_pair : String
type_pair = "kdeconnect.pair"

abbrev pub type_ping : String
type_ping = "kdeconnect.ping"

abbrev pub type_notification : String
type_notification = "kdeconnect.notification"

abbrev pub type_notification_request : String
type_notification_request = "kdeconnect.notification.request"

abbrev pub type_mpris : String
type_mpris = "kdeconnect.mpris"

abbrev pub type_mpris_request : String
type_mpris_request = "kdeconnect.mpris.request"

abbrev pub type_clipboard : String
type_clipboard = "kdeconnect.clipboard"

abbrev pub type_share : String
type_share = "kdeconnect.share.request"

abbrev pub type_runcommand : String
type_runcommand = "kdeconnect.runcommand"

abbrev pub type_runcommand_request : String
type_runcommand_request = "kdeconnect.runcommand.request"

abbrev pub type_battery : String
type_battery = "kdeconnect.battery"

abbrev pub type_battery_request : String
type_battery_request = "kdeconnect.battery.request"

abbrev pub type_telephony : String
type_telephony = "kdeconnect.telephony"

abbrev pub type_systemvolume : String
type_systemvolume = "kdeconnect.systemvolume"

abbrev pub type_findmyphone : String
type_findmyphone = "kdeconnect.findmyphone.request"
