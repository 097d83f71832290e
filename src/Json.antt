-- ===== src/Json.antt =====
-- `serde_json::Value` and the accessors by which the program reads packet bodies. A number is an
-- natural number, a negative integer -(n + 1), or a finite float, ± mantissa / 2 ^ scale (every finite double is one).
use handfast.Base.{ℕ, String, Bool, true, false, Option, none, some, if◌then◌else◌, str_eq}

pub data Number : Type 0 where
  pos_int : ℕ → Number
  neg_int : ℕ → Number
  float : Bool → ℕ → ℕ → Number

mutual
  pub data Value : Type 0 where
    null : Value
    bool : Bool → Value
    number : Number → Value
    string : String → Value
    array : Items → Value
    object : Fields → Value

  pub data Items : Type 0 where
    nil : Items
    cons : Value → Items → Items

  pub data Fields : Type 0 where
    end : Fields
    field : String → Value → Fields → Fields

-- `Map::get`: keys are unique in a map, so the first binding is the binding.
unfoldable pub get_field : String → Fields → Option Value
get_field k end = none
get_field k (field j v fs) = if str_eq j k then some v else get_field k fs

unfoldable pub as_object : Value → Option Fields
as_object (object fs) = some fs
as_object _ = none

unfoldable pub as_array : Value → Option Items
as_array (array xs) = some xs
as_array _ = none

unfoldable pub as_str : Value → Option String
as_str (string s) = some s
as_str _ = none

unfoldable pub as_bool : Value → Option Bool
as_bool (bool b) = some b
as_bool _ = none

unfoldable pub as_u64 : Value → Option ℕ
as_u64 (number (pos_int n)) = some n
as_u64 _ = none

unfoldable pub as_f64 : Value → Option Number
as_f64 (number n) = some n
as_f64 _ = none

-- `Value::get` with a string index: none on anything but an object.
unfoldable pub get : String → Value → Option Value
unfolding get_field
get k (object fs) = get_field k fs
get _ _ = none

infixl 5 ◌>>=◌
abbrev pub ◌>>=◌ {ℓ κ} : {A : Type ℓ} {B : Type κ} → Option A → (A → Option B) → Option B
none >>= f = none
some a >>= f = f a

-- `body.get(key).and_then(Value::as_str)`, and so on: the chains that the handlers use.
unfoldable pub get_str : String → Value → Option String
unfolding get as_str
get_str k v = get k v >>= as_str

unfoldable pub get_bool : String → Value → Option Bool
unfolding get as_bool
get_bool k v = get k v >>= as_bool

unfoldable pub get_u64 : String → Value → Option ℕ
unfolding get as_u64
get_u64 k v = get k v >>= as_u64

-- `.filter(|value| !value.is_empty())`
unfoldable pub non_empty : Option String → Option String
non_empty none = none
non_empty (some s) = if str_eq s "" then none else some s

-- `.unwrap_or(...)`
unfoldable pub unwrap_or {ℓ} : {A : Type ℓ} → Option A → A → A
unwrap_or none d = d
unwrap_or (some a) d = a

abbrev pub is_some {ℓ} : {A : Type ℓ} → Option A → Bool
is_some none = false
is_some (some _) = true
