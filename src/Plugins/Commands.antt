-- ===== src/Plugins/Commands.antt =====
-- crates/plugins/src/run_commands.rs: the table of commands that the peer may ask for.
pub mod Laws
use handfast.Base.{
  ℕ, String, Bool, true, false, Option, none, some, List, [], ◌∷◌, if◌then◌else◌, str_eq, Assoc,
  lookup, insert, not, ◌&&◌,
}
use handfast.Json.{
  Value, Items, nil, cons, object, string, field, end, get, get_field, as_object, as_array, as_str,
  get_str, non_empty, ◌>>=◌,
}
use handfast.Protocol.Types.{type_runcommand, type_runcommand_request}
use handfast.Protocol.Packet.{Packet}
use handfast.Plugins.Reply.{Reply, Handled, silent, reply_with}

abbrev pub Table : Type 0
Table = Assoc String

-- `commands.into_iter().collect()`: a later entry replaces an earlier one.
unfoldable pub collect : Table → List (String × String) → Table
unfolding insert
collect table [] = table
collect table ((name, command) ∷ es) = collect (insert name command table) es

unfoldable pub set_commands : List (String × String) → Table
unfolding collect
set_commands es = collect [] es

-- `{"name": ..., "command": ...}`
abbrev pub confirmation : String → String → Value
confirmation name command =
    object (field "name" (string name) (field "command" (string command) end))

-- The command that a request names.
unfoldable pub requested_command : Table → Value → Option (String × String)
unfolding get_str non_empty lookup
requested_command table body = non_empty (get_str "name" body) >>= λ name.
    lookup name table >>= λ command. some (name, command)

unfoldable pub handle_request : Table → Value → ℕ → Handled Table
unfolding requested_command reply_with
handle_request table body counter = elim (requested_command table body) [
  | none ↦ (table, silent counter)
  | some e ↦ (table, reply_with type_runcommand_request (confirmation e.0 e.1) counter)
]

unfoldable pub parse_entry : Value → Option (String × String)
unfolding as_object get_field as_str non_empty
parse_entry entry = as_object entry >>= λ obj.
    non_empty (get_field "name" obj >>= as_str) >>= λ name.
    non_empty (get_field "command" obj >>= as_str) >>= λ command. some (name, command)

-- The usable entries of `commandList`, in order.
unfoldable pub usable : Items → List (String × String)
unfolding parse_entry
usable nil = []
usable (cons v vs) =
    let rest = usable vs in elim (parse_entry v) [ none ↦ rest | some e ↦ e ∷ rest ]

abbrev pub is_nil : Items → Bool
is_nil nil = true
is_nil (cons _ _) = false

abbrev pub is_empty : Table → Bool
is_empty [] = true
is_empty (_ ∷ _) = false

-- The table after a sync with these entries.
unfoldable pub synced : Table → Items → Table
unfolding collect usable
synced table entries =
    if not (is_nil entries) && is_empty (collect [] (usable entries))
    then table
    else collect [] (usable entries)

unfoldable pub handle_sync : Table → Value → Table
unfolding get as_array synced
handle_sync table body = elim (get "commandList" body >>= as_array) [
  | none ↦ table
  | some entries ↦ synced table entries
]

-- `RunCommandsPlugin::handle` on `commands`
unfoldable pub run_commands_handle : Table → Packet → ℕ → Handled Table
unfolding handle_request handle_sync
run_commands_handle table p counter =
    if str_eq p.ptype type_runcommand_request
    then handle_request table p.body counter
    else if str_eq p.ptype type_runcommand
    then (handle_sync table p.body, silent counter)
    else (table, silent counter)
