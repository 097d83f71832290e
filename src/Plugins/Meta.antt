-- ===== src/Plugins/Meta.antt =====
-- crates/plugins/src/meta.rs: the metadata of the plugins, in the order of the registry.
use handfast.Base.{String, Bool, true, false, List, [], ◌∷◌}

pub record PluginMeta : Type 0 where
  pub name : String
  pub title : String
  pub incoming : List String
  pub outgoing : List String
  pub default_enabled : Bool
  pub requires_wayland : Bool
  pub requires_dbus : Bool

abbrev pub battery : PluginMeta
battery = record {
  name = "battery";
  title = "Battery report";
  incoming = "kdeconnect.battery" ∷ [];
  outgoing = "kdeconnect.battery.request" ∷ [];
  default_enabled = true;
  requires_wayland = false;
  requires_dbus = false;
}

abbrev pub clipboard : PluginMeta
clipboard = record {
  name = "clipboard";
  title = "Clipboard sync";
  incoming = "kdeconnect.clipboard" ∷ [];
  outgoing = "kdeconnect.clipboard" ∷ "kdeconnect.clipboard.connect" ∷ [];
  default_enabled = true;
  requires_wayland = true;
  requires_dbus = false;
}

abbrev pub connectivity_report : PluginMeta
connectivity_report = record {
  name = "connectivity_report";
  title = "Connectivity report";
  incoming = "kdeconnect.connectivity_report" ∷ [];
  outgoing = "kdeconnect.connectivity_report.request" ∷ [];
  default_enabled = true;
  requires_wayland = false;
  requires_dbus = false;
}

abbrev pub contacts : PluginMeta
contacts = record {
  name = "contacts";
  title = "Contacts";
  incoming =
      "kdeconnect.contacts.response_uids_timestamps" ∷ "kdeconnect.contacts.response_vcards" ∷ [];
  outgoing =
      "kdeconnect.contacts.request_all_uids" ∷ "kdeconnect.contacts.request_uids_by_timestamp"
      ∷ "kdeconnect.contacts.request_vcards_by_uid" ∷ [];
  default_enabled = true;
  requires_wayland = false;
  requires_dbus = false;
}

abbrev pub findmyphone : PluginMeta
findmyphone = record {
  name = "findmyphone";
  title = "Find my phone";
  incoming = "kdeconnect.findmyphone.request" ∷ [];
  outgoing = "kdeconnect.findmyphone.request" ∷ [];
  default_enabled = true;
  requires_wayland = false;
  requires_dbus = false;
}

abbrev pub mousepad : PluginMeta
mousepad = record {
  name = "mousepad";
  title = "Remote input";
  incoming = "kdeconnect.mousepad.request" ∷ "kdeconnect.mousepad.keyboardstate" ∷ [];
  outgoing = "kdeconnect.mousepad.echo" ∷ "kdeconnect.mousepad.keyboardstate" ∷ [];
  default_enabled = true;
  requires_wayland = true;
  requires_dbus = false;
}

abbrev pub mpris : PluginMeta
mpris = record {
  name = "mpris";
  title = "Media player control";
  incoming = "kdeconnect.mpris" ∷ "kdeconnect.mpris.request" ∷ [];
  outgoing = "kdeconnect.mpris" ∷ "kdeconnect.mpris.request" ∷ [];
  default_enabled = true;
  requires_wayland = false;
  requires_dbus = true;
}

abbrev pub notifications : PluginMeta
notifications = record {
  name = "notifications";
  title = "Notifications";
  incoming =
      "kdeconnect.notification" ∷ "kdeconnect.notification.reply"
      ∷ "kdeconnect.notification.request" ∷ [];
  outgoing =
      "kdeconnect.notification" ∷ "kdeconnect.notification.reply"
      ∷ "kdeconnect.notification.request" ∷ [];
  default_enabled = true;
  requires_wayland = false;
  requires_dbus = true;
}

abbrev pub pause_music : PluginMeta
pause_music = record {
  name = "pause_music";
  title = "Pause music on call";
  incoming = "kdeconnect.telephony" ∷ [];
  outgoing = "kdeconnect.mpris.request" ∷ [];
  default_enabled = false;
  requires_wayland = false;
  requires_dbus = true;
}

abbrev pub ping : PluginMeta
ping = record {
  name = "ping";
  title = "Ping";
  incoming = "kdeconnect.ping" ∷ [];
  outgoing = "kdeconnect.ping" ∷ [];
  default_enabled = true;
  requires_wayland = false;
  requires_dbus = false;
}

abbrev pub run_commands : PluginMeta
run_commands = record {
  name = "run_commands";
  title = "Run commands";
  incoming = "kdeconnect.runcommand" ∷ "kdeconnect.runcommand.request" ∷ [];
  outgoing = "kdeconnect.runcommand" ∷ "kdeconnect.runcommand.request" ∷ [];
  default_enabled = true;
  requires_wayland = false;
  requires_dbus = false;
}

abbrev pub remote_filesystem : PluginMeta
remote_filesystem = record {
  name = "remote_filesystem";
  title = "Remote filesystem";
  incoming = "kdeconnect.sftp" ∷ [];
  outgoing = "kdeconnect.sftp" ∷ [];
  default_enabled = false;
  requires_wayland = false;
  requires_dbus = false;
}

abbrev pub share : PluginMeta
share = record {
  name = "share";
  title = "Share";
  incoming = "kdeconnect.share.request" ∷ [];
  outgoing = "kdeconnect.share.request" ∷ [];
  default_enabled = true;
  requires_wayland = false;
  requires_dbus = false;
}

abbrev pub sms : PluginMeta
sms = record {
  name = "sms";
  title = "SMS messages";
  incoming = "kdeconnect.sms.messages" ∷ "kdeconnect.sms.request" ∷ [];
  outgoing = "kdeconnect.sms.messages" ∷ "kdeconnect.sms.request" ∷ [];
  default_enabled = true;
  requires_wayland = false;
  requires_dbus = false;
}

abbrev pub system_volume : PluginMeta
system_volume = record {
  name = "system_volume";
  title = "System volume";
  incoming = "kdeconnect.systemvolume" ∷ "kdeconnect.systemvolume.request" ∷ [];
  outgoing = "kdeconnect.systemvolume" ∷ "kdeconnect.systemvolume.request" ∷ [];
  default_enabled = true;
  requires_wayland = false;
  requires_dbus = false;
}

abbrev pub telephony : PluginMeta
telephony = record {
  name = "telephony";
  title = "Telephony";
  incoming = "kdeconnect.telephony" ∷ [];
  outgoing = [];
  default_enabled = true;
  requires_wayland = false;
  requires_dbus = true;
}

abbrev pub virtual_input : PluginMeta
virtual_input = record {
  name = "virtual_input";
  title = "Virtual input";
  incoming = "kdeconnect.virtualinput" ∷ [];
  outgoing = "kdeconnect.virtualinput" ∷ [];
  default_enabled = true;
  requires_wayland = true;
  requires_dbus = false;
}

-- `ALL`
abbrev pub all : List PluginMeta
all =
    battery ∷ clipboard ∷ connectivity_report ∷ contacts ∷ findmyphone ∷ mousepad ∷ mpris
    ∷ notifications ∷ pause_music ∷ ping ∷ run_commands ∷ remote_filesystem ∷ share ∷ sms
    ∷ system_volume ∷ telephony ∷ virtual_input ∷ []
