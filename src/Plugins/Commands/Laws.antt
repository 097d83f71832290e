-- ===== src/Plugins/Commands/Laws.antt =====
-- What the table of commands promises: only its own commands are confirmed, and a sync replaces it.
use handfast.Base.{
  ℕ, String, false, Option, none, some, List, [], ◌∷◌, ◌≡◌, refl, ◌∙◌, inl, inr, arith, lookup,
  insert, lookup-insert, str_eq, if◌then◌else◌, if_cases, Option-cases, not, ◌&&◌,
}
use handfast.Json.{Value, Items, get_str, non_empty}
use handfast.Protocol.Types.{type_runcommand_request}
use handfast.Plugins.Reply.{reply_with, silent}
use handfast.Plugins.Commands.{
  Table, collect, confirmation, requested_command, handle_request, usable, is_nil, is_empty, synced,
}

-- The last entry of a list that has this name.
abbrev pub last_named : String → List (String × String) → Option String
last_named name [] = none
last_named name ((n, command) ∷ es) = elim (last_named name es) [
  | some c ↦ some c
  | none ↦ if str_eq n name then some command else none
]

collect-lookup :
    (name : String) (table : Table) (es : List (String × String))
    → lookup name (collect table es)
      ≡ elim (last_named name es) [ some c ↦ some c | none ↦ lookup name table ]
unfolding collect
collect-lookup name table [] = refl
collect-lookup name table ((n, command) ∷ es) =
    let ih = collect-lookup name (insert n command table) es in
    ground (arith, ih, lookup-insert n name command table)

requested_none :
    (table : Table) (body : Value) (name : String)
    → non_empty (get_str "name" body) ≡ some name
    → lookup name table ≡ none
    → requested_command table body ≡ none
unfolding requested_command
requested_none table body name n l = rw (n, l) refl

requested_some :
    (table : Table) (body : Value) (name command : String)
    → non_empty (get_str "name" body) ≡ some name
    → lookup name table ≡ some command
    → requested_command table body ≡ some (name, command)
unfolding requested_command
requested_some table body name command n l = rw (n, l) refl

-- A request is confirmed exactly with the command that the table has under its name, and is
-- otherwise not answered; it never changes the table.
pub handle_request-lookup :
    (table : Table) (body : Value) (name : String) (c : ℕ)
    → non_empty (get_str "name" body) ≡ some name
    → handle_request table body c ≡ (
      table,
      elim (lookup name table) [
        | none ↦ silent c
        | some command ↦ reply_with type_runcommand_request (confirmation name command) c
      ],
    )
unfolding handle_request
handle_request-lookup table body name c n = elim (Option-cases (lookup name table)) [
  | inl l ↦ rw (l, requested_none table body name n l, handle_request) refl
  | inr (command, l) ↦ rw (l, requested_some table body name command n l, handle_request) refl
]

at_nothing : (o : Option String) → elim o [ some c ↦ some c | none ↦ none ] ≡ o
at_nothing none = refl
at_nothing (some c) = refl

-- After a sync with at least one usable entry, a name stands for the last usable entry that has it,
-- and for nothing else: no command of the old table is left.
pub synced-lookup :
    (table : Table) (entries : Items) (name : String)
    → is_empty (collect [] (usable entries)) ≡ false
    → lookup name (synced table entries) ≡ last_named name (usable entries)
unfolding synced lookup
synced-lookup table entries name h =
    if_cases (λ t. lookup name t ≡ last_named name (usable entries))
      (not (is_nil entries) && is_empty (collect [] (usable entries))) _ _
      (λ e. absurd (ground (arith, h, e)))
      (λ _. collect-lookup name [] (usable entries) ∙ at_nothing (last_named name (usable entries)))
