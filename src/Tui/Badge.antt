-- ===== src/Tui/Badge.antt =====
-- crates/daemon/src/device.rs with crates/tui: what the terminal shows of the trust that the manager
-- keeps, through the events that it publishes.
use handfast.Base.{
  ℕ, String, Bool, true, false, Option, none, some, List, [], ◌∷◌, ◌≡◌, refl, arith, lookup, insert,
  str_eq, if◌then◌else◌, str_eq_iff,
}
use handfast.Json.{is_some}
use handfast.Device.State.{DeviceState, Manager, Event}
use handfast.Device.Trust.{persist_trust}
use handfast.Device.Links.{on_connected, mismatches, online}
use handfast.Device.Invariant.{inserted}
use handfast.Device.Pins.{pin_of}
use handfast.Ipc.Proto.{from_event}
use handfast.Tui.Model.{DeviceEntry, change_device, apply_state}
use handfast.Tui.State.{State, apply_event, on_event, clamp_cursors}

-- The badge of the first row with an id.
abbrev badge_in : String → List DeviceEntry → Option Bool
badge_in id [] = none
badge_in id (d ∷ ds) = if str_eq d.id id then some d.paired else badge_in id ds

abbrev pub badge : String → State → Option Bool
badge id s = badge_in id s.devices

badge-change :
    (id label : String) (ds : List DeviceEntry)
    → is_some (badge_in id ds) ≡ true
    → badge_in id (change_device id (apply_state label) ds) ≡ some (str_eq label "paired")
unfolding change_device apply_state
badge-change id label [] h = cc
badge-change id label (d ∷ ds) h = ground (arith, badge-change id label ds)

-- A change of state shows as the badge of the row.
shown :
    (id label : String) (t : State)
    → is_some (badge id t) ≡ true
    → badge id (apply_event (from_event (Event.device_state_changed id label)) t)
      ≡ some (str_eq label "paired")
unfolding apply_event on_event clamp_cursors from_event
shown id label t h = badge-change id label t.devices h

module _ {P : Type 0} where
  -- When the manager trusts a device that it knows, or ends its trust, it publishes one event, and a
  -- terminal that lists the device shows the badge after that event exactly if it is trusted.
  pub badge_follows_trust :
      (now : ℕ) (id : String) (paired : Bool) (m : Manager P) (s : DeviceState P) (t : State)
      → lookup id m.devices ≡ some s
      → is_some (badge id t) ≡ true
      → (e : Event) × ((persist_trust now id paired m).events ≡ e ∷ m.events)
        × (badge id (apply_event (from_event e) t) ≡ some paired)
  unfolding persist_trust
  badge_follows_trust now id true m s t l h =
      (Event.device_state_changed id "paired", rw (l, persist_trust) refl, shown id "paired" t h)
  badge_follows_trust now id false m s t l h = (
    Event.device_state_changed id "unpaired",
    rw (l, persist_trust) refl,
    shown id "unpaired" t h,
  )

  -- When a trusted device connects with its pinned certificate, it stays trusted with that
  -- certificate, but the event that the manager publishes takes the badge of the device away from a
  -- terminal that lists it.
  pub badge_lost :
      (created : List P) (id fp : String) (m : Manager P) (s : DeviceState P) (t : State)
      → lookup id m.devices ≡ some s
      → s.pinned_fingerprint ≡ some fp
      → is_some (badge id t) ≡ true
      → (pin_of id (on_connected created id fp m) ≡ some fp)
        × ((e : Event) × ((on_connected created id fp m).events ≡ e ∷ m.events)
            × (badge id (apply_event (from_event e) t) ≡ some false))
  unfolding on_connected
  badge_lost created id fp m s t l p h =
      let same : mismatches fp s ≡ false = ground (arith, str_eq_iff fp fp) in
      let there : lookup id (insert id (online fp s) m.devices) ≡ some (online fp s) =
        inserted id id (online fp s) m.devices ((str_eq_iff id id).1 refl) in
      (
        rw (l, on_connected, same, there) p,
        (
          Event.device_state_changed id "online",
          rw (l, on_connected, same) refl,
          shown id "online" t h,
        ),
      )
