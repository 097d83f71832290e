-- ===== src/Gui/Model.antt =====
-- crates/gui/src/model.rs: the rows that the client shows, and the keys under which it remembers which
-- plugins are switched on.
use Prim.Native.Char.{code}
use Prim.Native.String.{◌++◌}
use mathlib.Core.Option
use handfast.Base.{
  ℕ, suc, String, Bool, false, ◌||◌, Option, none, some, List, [], ◌∷◌, ltb, ◌==◌, if◌then◌else◌,
  str_eq, Assoc, lookup,
}
use handfast.Ipc.Proto.{ServerEvent}

pub data ConnState : Type 0 where
  disconnected connecting connected : ConnState

pub data Tab : Type 0 where
  devices transfers notifications logs : Tab

pub record DeviceCard : Type 0 where
  pub id : String
  pub name : String
  pub kind : String
  pub paired : Bool
  pub state : String

pub record PluginRow : Type 0 where
  pub name : String
  pub title : String
  pub enabled : Bool

pub record TransferRow : Type 0 where
  pub id : String
  pub name : String
  pub done : ℕ
  pub total : ℕ

pub record NotifRow : Type 0 where
  pub id : String
  pub app : String
  pub title : String
  pub body : String

-- `DeviceCard::from_found`
unfoldable pub card_found : String → String → DeviceCard
card_found id name = record {
  id = id;
  name = name;
  kind = "unknown";
  paired = false;
  state = "found";
}

-- `DeviceCard::apply_state`
unfoldable pub card_state : String → DeviceCard → DeviceCard
card_state state card = record card { state = state; paired = str_eq state "paired" }

-- `DeviceCard::upsert`
unfoldable pub upsert_card : DeviceCard → List DeviceCard → List DeviceCard
upsert_card card [] = card ∷ []
upsert_card card (d ∷ ds) = if str_eq d.id card.id then card ∷ ds else d ∷ upsert_card card ds

-- `devices.iter().find(|d| d.id == id)`
unfoldable pub find_card : String → List DeviceCard → Option DeviceCard
find_card id [] = none
find_card id (d ∷ ds) = if str_eq d.id id then some d else find_card id ds

-- `device_mut(id)`: what `f` does to the first card with that id.
unfoldable pub change_card : String → (DeviceCard → DeviceCard) → List DeviceCard → List DeviceCard
change_card id f [] = []
change_card id f (d ∷ ds) = if str_eq d.id id then f d ∷ ds else d ∷ change_card id f ds

-- `position` and `remove`: the list without the first card with that id.
unfoldable pub remove_card : String → List DeviceCard → List DeviceCard
remove_card id [] = []
remove_card id (d ∷ ds) = if str_eq d.id id then ds else d ∷ remove_card id ds

-- `devices.iter().position(|d| d.id == id)`
unfoldable pub position_of : String → List DeviceCard → Option ℕ
position_of id [] = none
position_of id (d ∷ ds) = if str_eq d.id id then some 0 else Option.map suc (position_of id ds)

-- `TransferRow::update`
unfoldable pub update_row : ServerEvent → TransferRow → TransferRow
update_row (ServerEvent.transfer_progress _ bytes_done bytes_total) row = record row {
  done = bytes_done;
  total = if ltb 0 bytes_total || row.total == 0 then bytes_total else row.total;
}
update_row (ServerEvent.transfer_finished _) row =
    if ltb 0 row.total then record row { done = row.total } else row
update_row _ row = row

-- `TransferRow::upsert`
unfoldable pub upsert_row : TransferRow → List TransferRow → List TransferRow
upsert_row row [] = row ∷ []
upsert_row row (t ∷ ts) = if str_eq t.id row.id then row ∷ ts else t ∷ upsert_row row ts

unfoldable pub has_row : String → List TransferRow → Bool
has_row id [] = false
has_row id (t ∷ ts) = str_eq t.id id || has_row id ts

unfoldable pub change_row :
    String → (TransferRow → TransferRow) → List TransferRow → List TransferRow
change_row id f [] = []
change_row id f (t ∷ ts) = if str_eq t.id id then f t ∷ ts else t ∷ change_row id f ts

unfoldable pub without_row : String → List TransferRow → List TransferRow
without_row id [] = []
without_row id (t ∷ ts) = let rest = without_row id ts in if str_eq t.id id then rest else t ∷ rest

abbrev pub PluginToggles : Type 0
PluginToggles = Assoc Bool

unfoldable pub toggle_key : String → String → String
toggle_key device_id plugin = device_id ++ ":" ++ plugin

-- `key.split_once(':')`
unfoldable pub split_toggle_key : String → Option (String × String)
split_toggle_key String.[] = none
split_toggle_key (String.◌∷◌ c s) =
    if code c == b':'
    then some (String.[], s)
    else Option.map (λ (p : String × String). (String.◌∷◌ c p.0, p.1)) (split_toggle_key s)

-- `apply_persisted_toggles`
unfoldable pub apply_persisted_toggles : String → PluginToggles → List PluginRow → List PluginRow
unfolding toggle_key lookup
apply_persisted_toggles device_id toggles [] = []
apply_persisted_toggles device_id toggles (row ∷ rows) =
    let rest = apply_persisted_toggles device_id toggles rows in
    elim (lookup (toggle_key device_id row.name) toggles) [
      | none ↦ row ∷ rest
      | some enabled ↦ record row { enabled = enabled } ∷ rest
    ]
