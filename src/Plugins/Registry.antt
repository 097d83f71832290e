-- ===== src/Plugins/Registry.antt =====
-- crates/plugins/src/lib.rs and stubs.rs: the plugins as the device manager sees them. The clock and
-- the probe of the local battery are parameters.
pub mod Laws
use handfast.Base.{ℕ, String, Bool, true, false, Option, none, some, List, [], ◌∷◌, Assoc, map}
use handfast.Json.{Value}
use handfast.Protocol.Types.{type_notification, type_notification_request}
use handfast.Protocol.Packet.{Packet}
use handfast.Device.State.{Identity}
use handfast.Device.Actor.{PluginApi}
use handfast.Plugins.Meta.{
  PluginMeta, battery, clipboard, connectivity_report, contacts, findmyphone, mousepad, mpris,
  pause_music, ping, run_commands, remote_filesystem, share, sms, system_volume, telephony,
  virtual_input,
}
use handfast.Plugins.Reply.{Reply, Handled, silent}
use handfast.Plugins.Signals.{
  ping_handle, find_my_phone_handle, TelephonyPlugin, telephony_handle, notifications_handle,
}
use handfast.Plugins.Media.{mpris_handle, VolumeState, system_volume_handle}
use handfast.Plugins.Commands.{Table, run_commands_handle}
use handfast.Plugins.Battery.{BatteryState, BatteryPlugin, battery_handle}
use handfast.Plugins.Share.{ShareItem, share_handle}
use handfast.Plugins.PauseMusic.{PauseMusicPlugin, pause_music_handle}

-- notifications.rs has its own metadata.
abbrev pub notifications : PluginMeta
notifications = record {
  name = "notifications";
  title = "Notification sync";
  incoming = type_notification ∷ type_notification_request ∷ [];
  outgoing = type_notification ∷ [];
  default_enabled = true;
  requires_wayland = false;
  requires_dbus = true;
}

-- `Box<dyn Plugin>`: one constructor per implementation, with its state.
pub data Plugin : Type 0 where
  battery_plugin : BatteryPlugin → Plugin
  stub : PluginMeta → Plugin
  find_my_phone_plugin : Bool → Plugin
  mpris_plugin : Option String → Plugin
  notifications_plugin : Assoc String → Plugin
  pause_music_plugin : PauseMusicPlugin → Plugin
  ping_plugin : Option ℕ → Plugin
  run_commands_plugin : Table → Plugin
  share_plugin : List ShareItem → Plugin
  system_volume_plugin : Option VolumeState → Plugin
  telephony_plugin : TelephonyPlugin → Plugin

unfoldable pub meta : Plugin → PluginMeta
meta (battery_plugin _) = battery
meta (stub m) = m
meta (find_my_phone_plugin _) = findmyphone
meta (mpris_plugin _) = mpris
meta (notifications_plugin _) = notifications
meta (pause_music_plugin _) = pause_music
meta (ping_plugin _) = ping
meta (run_commands_plugin _) = run_commands
meta (share_plugin _) = share
meta (system_volume_plugin _) = system_volume
meta (telephony_plugin _) = telephony

-- What `create` of each factory of `registry` gives.
abbrev pub registry : List Plugin
registry =
    battery_plugin (record { last = none; device_id = none })
    ∷ stub clipboard
    ∷ stub connectivity_report
    ∷ stub contacts
    ∷ find_my_phone_plugin false
    ∷ stub mousepad
    ∷ mpris_plugin none
    ∷ notifications_plugin []
    ∷ pause_music_plugin (record { known_players = []; paused_players = [] })
    ∷ ping_plugin none
    ∷ run_commands_plugin []
    ∷ stub remote_filesystem
    ∷ share_plugin []
    ∷ stub sms
    ∷ system_volume_plugin none
    ∷ telephony_plugin
        (record { last_call_state = none; last_phone_number = none; pause_music_on_ring = false })
    ∷ stub virtual_input
    ∷ []

abbrev wrap : {A : Type 0} → (A → Plugin) → Handled A → Plugin × List Packet × ℕ
wrap f (s, r) = (f s, r.packets, r.counter)

-- A battery plugin that `registry` creates is bound to no device, so no cache is shared.
abbrev uncached : Handled (BatteryPlugin × Assoc BatteryState) → Handled BatteryPlugin
uncached h = (h.0.0, h.1)

module _ (now : ℕ) (probed : Option BatteryState) where
  unfoldable pub handle : Plugin → Packet → ℕ → Plugin × List Packet × ℕ
  unfolding battery_handle find_my_phone_handle mpris_handle notifications_handle pause_music_handle
      ping_handle run_commands_handle share_handle system_volume_handle telephony_handle
  handle (battery_plugin s) p c =
      wrap battery_plugin (uncached (battery_handle now probed (s, []) p c))
  handle (stub m) p c = (stub m, [], c)
  handle (find_my_phone_plugin s) p c = wrap find_my_phone_plugin (find_my_phone_handle s p c)
  handle (mpris_plugin s) p c = wrap mpris_plugin (mpris_handle s p c)
  handle (notifications_plugin s) p c = wrap notifications_plugin (notifications_handle s p c)
  handle (pause_music_plugin s) p c = wrap pause_music_plugin (pause_music_handle s p c)
  handle (ping_plugin s) p c = wrap ping_plugin (ping_handle now s p c)
  handle (run_commands_plugin s) p c = wrap run_commands_plugin (run_commands_handle s p c)
  handle (share_plugin s) p c = wrap share_plugin (share_handle s p c)
  handle (system_volume_plugin s) p c = wrap system_volume_plugin (system_volume_handle s p c)
  handle (telephony_plugin s) p c = wrap telephony_plugin (telephony_handle s p c)

  -- The plugins as the interface that the device manager uses.
  unfoldable pub plugin_api : (Value → Option Identity) → PluginApi Plugin
  unfolding meta handle
  plugin_api parse_identity = record {
    incoming = λ p. (meta p).incoming;
    handle = handle;
    created = registry;
    parse_identity = parse_identity;
  }
