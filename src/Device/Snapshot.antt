-- ===== src/Device/Snapshot.antt =====
-- crates/daemon/src/device.rs: the lists of devices and of transfers that a client gets.
pub mod Sorted
use Prim.Native.Nat.{Ordering}
use Prim.Native.String.{compare}
use handfast.Base.{
  ℕ, String, Bool, true, false, Option, none, some, List, [], ◌∷◌, map, ◌≡◌, refl, if◌then◌else◌,
}
use handfast.Json.{
  Value, Items, Fields, Number, null, bool, number, pos_int, string, array, object, nil, cons,
  field, end, get_str, unwrap_or, is_some,
}
use handfast.Device.State.{DeviceState, Manager, TransferRecord, is_connected}

unfoldable pub items : List Value → Items
items [] = nil
items (v ∷ vs) = cons v (items vs)

-- A `Vec<String>` as JSON.
unfoldable pub texts : List String → Value
unfolding items
texts ss = array (items (map string ss))

unfoldable pub optional : Option String → Value
optional none = null
optional (some s) = string s

-- `a.cmp(b)` is not `Greater`.
abbrev pub text_le : String → String → Bool
text_le a b = elim (compare a b) [ Ordering.gt ↦ false | _ ↦ true ]

module _ {ℓ} {A : Type ℓ} (key : A → String) where
  unfoldable pub insert_by : A → List A → List A
  insert_by x [] = x ∷ []
  insert_by x (y ∷ ys) = if text_le (key x) (key y) then x ∷ y ∷ ys else y ∷ insert_by x ys

  -- A stable sort: `sort_by`, `sort_by_key`.
  unfoldable pub sort_by : List A → List A
  unfolding insert_by
  sort_by [] = []
  sort_by (x ∷ xs) = insert_by x (sort_by xs)

-- The text of a key of a JSON row, or "".
unfoldable pub row_text : String → Value → String
unfolding get_str unwrap_or
row_text key row = unwrap_or (get_str key row) ""

-- The ids are those that the transfers go by in the replies.
unfoldable pub transfer_row : (ℕ → String) → ℕ × TransferRecord → Value
unfolding optional
transfer_row transfer_id (n, r) = object (
    field "id" (string (transfer_id n)) (
      field "device_id" (string r.device_id) (
        field "direction" (string r.direction) (
          field "file_name" (string r.file_name) (
            field "total" (number (pos_int r.total)) (
              field "state" (string r.state) (
                field "done" (number (pos_int r.done))
                  (field "reason" (optional r.reason) end))))))))

module _ {P : Type 0} where
  unfoldable pub device_row : String × DeviceState P → Value
  unfolding texts
  device_row (id, s) = object (
      field "device_id" (string id) (
        field "name" (string s.identity.name) (
          field "type" (string s.identity.device_type) (
            field "paired" (bool (is_some s.pinned_fingerprint)) (
              field "online" (bool (is_connected s)) (
                field "capabilities_incoming" (texts s.identity.incoming)
                  (field "capabilities_outgoing" (texts s.identity.outgoing) end)))))))

  unfoldable pub snapshot : Manager P → List Value
  unfolding device_row sort_by row_text
  snapshot m = sort_by (row_text "name") (map device_row m.devices)

  unfoldable pub transfer_snapshot : (ℕ → String) → Manager P → List Value
  unfolding transfer_row sort_by row_text
  transfer_snapshot transfer_id m =
      sort_by (row_text "id") (map (transfer_row transfer_id) m.transfers)
