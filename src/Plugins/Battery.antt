-- ===== src/Plugins/Battery.antt =====
-- crates/plugins/src/battery.rs: reports of the phone, and answers to its requests. The probe of the
-- local supplies is a parameter.
pub mod Laws
use handfast.Base.{
  ℕ, min, String, Bool, true, false, Option, none, some, List, [], ◌∷◌, if◌then◌else◌, str_eq,
  Assoc, insert, lookup,
}
use handfast.Json.{Value, object, number, bool, pos_int, field, end, get_u64, get_bool, unwrap_or}
use handfast.Protocol.Types.{type_battery, type_battery_request}
use handfast.Protocol.Packet.{Packet}
use handfast.Plugins.Reply.{Reply, Handled, silent, reply_with}

abbrev pub fallback_level : ℕ
fallback_level = 50

pub record BatteryState : Type 0 where
  pub level : ℕ
  pub charging : Bool
  pub reported_at : ℕ

pub record BatteryPlugin : Type 0 where
  pub last : Option BatteryState
  pub device_id : Option String

-- The body of `build_report`.
unfoldable pub report_body : ℕ → Bool → Value
report_body level charging = object (
    field "currentCharge" (number (pos_int (min level 100)))
      (field "isCharging" (bool charging) (field "thresholdEvent" (number (pos_int 0)) end)))

abbrev pub fallback_state : ℕ → BatteryState
fallback_state now = record { level = fallback_level; charging = false; reported_at = now }

-- The state that a report of the phone gives.
unfoldable pub reported : ℕ → Value → Option BatteryState
unfolding get_u64 get_bool unwrap_or
reported now body = elim (get_u64 "currentCharge" body) [
  | none ↦ none
  | some raw_level ↦ some (record {
    level = min raw_level 100;
    charging = unwrap_or (get_bool "isCharging" body) false;
    reported_at = now;
  })
]

-- `BatteryCache::set`, for a plugin that is bound to a device.
unfoldable pub mirror : Option String → BatteryState → Assoc BatteryState → Assoc BatteryState
unfolding insert
mirror none s cache = cache
mirror (some id) s cache = insert id s cache

-- The plugin and the cache that it shares.
unfoldable pub record_remote :
    ℕ → BatteryPlugin × Assoc BatteryState → Value → BatteryPlugin × Assoc BatteryState
unfolding reported mirror
record_remote now (b, cache) body = elim (reported now body) [
  | none ↦ (b, cache)
  | some s ↦ (record b { last = some s }, mirror b.device_id s cache)
]

unfoldable pub battery_handle :
    ℕ
    → Option BatteryState
    → BatteryPlugin × Assoc BatteryState
    → Packet
    → ℕ
    → Handled (BatteryPlugin × Assoc BatteryState)
unfolding report_body reply_with record_remote unwrap_or
battery_handle now probed b p counter =
    if str_eq p.ptype type_battery_request
    then (
      b,
      reply_with type_battery
          (report_body (unwrap_or probed (fallback_state now)).level
            (unwrap_or probed (fallback_state now)).charging)
          counter,
    )
    else if str_eq p.ptype type_battery
    then (record_remote now b p.body, silent counter)
    else (b, silent counter)
