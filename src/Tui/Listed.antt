-- ===== src/Tui/Listed.antt =====
-- crates/daemon/src/device.rs with crates/tui: the list of devices that the terminal reads from the
-- daemon's reply.
use mathlib.Core.List.{Perm}
use mathlib.Core.Path.{fun_ext}
use handfast.Base.{String, List, [], ◌∷◌, map, ◌≡◌, refl, ap, ◌∙◌}
use handfast.Json.{Value, array, is_some}
use handfast.Device.State.{DeviceState, Manager}
use handfast.Device.Snapshot.{items, device_row, snapshot, sort_by, row_text}
use handfast.Device.Snapshot.Sorted.{IsSorted, sort_by-IsSorted, sort_by-perm, sort_by-map}
use handfast.Tui.Model.{DeviceEntry, parse_device, parse_devices, filter_items}

module _ {P : Type 0} where
  -- How the terminal shows a device of the manager.
  abbrev pub entry : String × DeviceState P → DeviceEntry
  entry (id, s) = record {
    id = id;
    name = s.identity.name;
    kind = s.identity.device_type;
    paired = is_some s.pinned_fingerprint;
    state = "found";
  }

  abbrev pub device_name : String × DeviceState P → String
  device_name (id, s) = s.identity.name

  row_text-row : (d : String × DeviceState P) → row_text "name" (device_row d) ≡ device_name d
  unfolding row_text device_row
  row_text-row (id, s) = refl

  filter_items-rows :
      (ds : List (String × DeviceState P))
      → filter_items parse_device (items (map device_row ds)) ≡ map entry ds
  unfolding filter_items items parse_device device_row
  filter_items-rows [] = refl
  filter_items-rows ((id, s) ∷ ds) = ap (◌∷◌ (entry (id, s))) (filter_items-rows ds)

  -- The terminal reads from the daemon's list of devices exactly the devices that the manager knows,
  -- each once, in the order of their names, with their ids, names and types, and with the badge
  -- exactly if the manager has a certificate pinned for the device.
  pub listed_devices :
      (m : Manager P)
      → (ds : List (String × DeviceState P)) × Perm ds m.devices
        × IsSorted device_name ds
        × (parse_devices (array (items (snapshot m))) ≡ map entry ds)
  unfolding snapshot parse_devices
  listed_devices m = (
    sort_by device_name m.devices,
    sort_by-perm device_name m.devices,
    sort_by-IsSorted device_name m.devices,
    ap (λ (rows : List Value). filter_items parse_device (items rows))
          (sort_by-map (row_text "name") device_row m.devices
            ∙ ap (λ (key : String × DeviceState P → String). map device_row (sort_by key m.devices))
                (fun_ext row_text-row))
        ∙ filter_items-rows (sort_by device_name m.devices),
  )
