-- ===== src/Tui/Model.antt =====
-- crates/tui/src/model.rs: the rows that the interface shows, and how they are read from the
-- free-form JSON of a reply.
use handfast.Base.{
  ℕ, ◌-◌, String, Bool, false, Option, none, some, List, [], ◌∷◌, ◌++◌, length, take, leb, ltb,
  ◌==◌, ◌&&◌, if◌then◌else◌, str_eq,
}
use handfast.Json.{
  Value, Items, Fields, nil, cons, get_field, as_object, as_array, as_str, as_bool, as_u64, get,
  ◌>>=◌, unwrap_or,
}

pub record DeviceEntry : Type 0 where
  pub id : String
  pub name : String
  pub kind : String
  pub paired : Bool
  pub state : String

pub record PluginRow : Type 0 where
  pub name : String
  pub title : String
  pub enabled : Bool

pub record TransferEntry : Type 0 where
  pub id : String
  pub name : String
  pub done : ℕ
  pub total : ℕ

pub record NotifRow : Type 0 where
  pub id : String
  pub app : String
  pub title : String
  pub body : String

-- `DeviceEntry::from_found`
unfoldable pub from_found : String → String → DeviceEntry
from_found id name = record {
  id = id;
  name = name;
  kind = "unknown";
  paired = false;
  state = "found";
}

unfoldable pub apply_state : String → DeviceEntry → DeviceEntry
apply_state state d = record d { state = state; paired = str_eq state "paired" }

-- `iter_mut().find(|d| d.id == id)`: what `f` does to the first device with that id.
unfoldable pub change_device :
    String → (DeviceEntry → DeviceEntry) → List DeviceEntry → List DeviceEntry
change_device id f [] = []
change_device id f (d ∷ ds) = if str_eq d.id id then f d ∷ ds else d ∷ change_device id f ds

-- `DeviceEntry::upsert`
unfoldable pub upsert : DeviceEntry → List DeviceEntry → List DeviceEntry
upsert e [] = e ∷ []
upsert e (d ∷ ds) = if str_eq d.id e.id then e ∷ ds else d ∷ upsert e ds

-- `devices.retain(|device| &device.id != id)`
unfoldable pub without : String → List DeviceEntry → List DeviceEntry
without id [] = []
without id (d ∷ ds) = let rest = without id ds in if str_eq d.id id then rest else d ∷ rest

unfoldable pub from_added : String → String → ℕ → TransferEntry
from_added id name total = record { id = id; name = name; done = 0; total = total }

unfoldable pub from_progress : String → ℕ → ℕ → TransferEntry
from_progress id done total = record { id = id; name = ""; done = done; total = total }

unfoldable pub apply_progress : ℕ → ℕ → TransferEntry → TransferEntry
apply_progress done total t = record t { done = done; total = total }

unfoldable pub mark_finished : TransferEntry → TransferEntry
mark_finished t = if ltb 0 t.total then record t { done = t.total } else t

unfoldable pub is_finished : TransferEntry → Bool
is_finished t = ltb 0 t.total && leb t.total t.done

unfoldable pub display_name : TransferEntry → String
display_name t = if str_eq t.name "" then t.id else t.name

-- `keys.iter().find_map(|key| obj.get(key).and_then(read))`
unfoldable pub find_field {ℓ} : {A : Type ℓ} → (Value → Option A) → List String → Fields → Option A
unfolding get_field
find_field read [] obj = none
find_field read (k ∷ ks) obj = elim (get_field k obj >>= read) [
  | some a ↦ some a
  | none ↦ find_field read ks obj
]

unfoldable pub field_str : List String → Fields → Option String
unfolding find_field as_str
field_str keys obj = find_field as_str keys obj

unfoldable pub field_bool : List String → Fields → Option Bool
unfolding find_field as_bool
field_bool keys obj = find_field as_bool keys obj

unfoldable pub field_u64 : List String → Fields → Option ℕ
unfolding find_field as_u64
field_u64 keys obj = find_field as_u64 keys obj

unfoldable pub list_items : String → Value → Option Items
unfolding as_array get
list_items wrapper_key v = elim (as_array v) [
  | some items ↦ some items
  | none ↦ get wrapper_key v >>= as_array
]

-- `items.iter().filter_map(f).collect()`
unfoldable pub filter_items {ℓ} : {A : Type ℓ} → (Value → Option A) → Items → List A
filter_items f nil = []
filter_items f (cons v vs) =
    let rest = filter_items f vs in elim (f v) [ none ↦ rest | some a ↦ a ∷ rest ]

unfoldable pub parse_list {ℓ} : {A : Type ℓ} → String → (Value → Option A) → Value → List A
unfolding list_items filter_items
parse_list wrapper_key f v = elim (list_items wrapper_key v) [
  | none ↦ []
  | some items ↦ filter_items f items
]

unfoldable pub parse_device : Value → Option DeviceEntry
unfolding as_object field_str field_bool unwrap_or
parse_device item = do
  obj ← as_object item
  id ← field_str ("id" ∷ "device_id" ∷ []) obj
  let state = unwrap_or (field_str ("state" ∷ "status" ∷ []) obj) "found"
  some (record {
    id = id;
    name = unwrap_or (field_str ("name" ∷ "device_name" ∷ []) obj) id;
    kind = unwrap_or (field_str ("type" ∷ "kind" ∷ "device_type" ∷ []) obj) "unknown";
    paired = unwrap_or (field_bool ("paired" ∷ []) obj) (str_eq state "paired");
    state = state;
  })

unfoldable pub parse_devices : Value → List DeviceEntry
unfolding parse_list parse_device
parse_devices v = parse_list "devices" parse_device v

unfoldable pub parse_plugin : Value → Option PluginRow
unfolding as_object field_str field_bool unwrap_or
parse_plugin item = do
  obj ← as_object item
  name ← field_str ("name" ∷ "plugin" ∷ "id" ∷ []) obj
  some (record {
    name = name;
    title = unwrap_or (field_str ("title" ∷ "label" ∷ []) obj) name;
    enabled = unwrap_or (field_bool ("enabled" ∷ "active" ∷ []) obj) false;
  })

unfoldable pub parse_plugins : Value → List PluginRow
unfolding parse_list parse_plugin
parse_plugins v = parse_list "plugins" parse_plugin v

unfoldable pub parse_notification : Value → Option NotifRow
unfolding as_object field_str unwrap_or
parse_notification item = do
  obj ← as_object item
  id ← field_str ("id" ∷ "notification_id" ∷ []) obj
  some (record {
    id = id;
    app = unwrap_or (field_str ("app" ∷ "application" ∷ "source" ∷ []) obj) "";
    title = unwrap_or (field_str ("title" ∷ "summary" ∷ []) obj) "";
    body = unwrap_or (field_str ("body" ∷ "text" ∷ "message" ∷ []) obj) "";
  })

unfoldable pub parse_notifications : Value → List NotifRow
unfolding parse_list parse_notification
parse_notifications v = parse_list "notifications" parse_notification v

-- A text that is cut is the list of its characters.
unfoldable pub short_hash : List ℕ → List ℕ
short_hash id = take 8 id

-- The text in at most `max` characters, with an ellipsis (U+2026) where it is cut.
unfoldable pub ellipsize : List ℕ → ℕ → List ℕ
ellipsize text max =
    if leb (length text) max
    then text
    else if max == 0
    then []
    else if max == 1
    then take 1 text
    else take (max - 1) text ++ 0x2026 ∷ []
