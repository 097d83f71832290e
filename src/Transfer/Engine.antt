-- ===== src/Transfer/Engine.antt =====
-- crates/daemon/src/transfer.rs: `TransferEngine`. The save directory is the content of its files by
-- name, and the failures of the file system are an argument of each operation.
pub mod Slots
pub mod Invariant
pub mod Keeps
pub mod Finish
pub mod History
use handfast.Base.{
  ℕ, zero, suc, ◌+◌, ◌*◌, ◌/◌, ◌%◌, ◌^◌, ◌-◌, String, Bool, true, false, not, ◌&&◌, Option, none,
  some, List, [], ◌∷◌, ◌++◌, length, take, ltb, ◌==◌, if◌then◌else◌, Assoc, lookup, insert, remove,
}
use handfast.Json.{is_some}
use handfast.Transfer.Name.{sanitize_file_name, fallback_name}

-- protocol/src/transfer.rs
abbrev pub chunk_size : ℕ
chunk_size = 64 * 1024

-- `u64::MAX`
abbrev pub unknown_size : ℕ
unknown_size = 2 ^ 64 - 1

abbrev pub max_name_collisions : ℕ
max_name_collisions = 10000

pub record TransferMeta : Type 0 where
  pub transfer_id : String
  pub device_id : String
  -- code points
  pub file_name : List ℕ
  pub file_size : ℕ

pub record IncomingTransfer : Type 0 where
  pub meta : TransferMeta
  pub final_name : List ℕ
  pub part_path : List ℕ
  pub received : ℕ

unfoldable pub name_eq : List ℕ → List ℕ → Bool
name_eq [] [] = true
name_eq (c ∷ cs) (d ∷ ds) = c == d && name_eq cs ds
name_eq _ _ = false

-- The files of the save directory: a name gives the bytes of the file, if there is one.
abbrev pub Files : Type 0
Files = List ℕ → Option (List ℕ)

unfoldable pub write_file : List ℕ → Option (List ℕ) → Files → Files
write_file name content files other = if name_eq name other then content else files other

-- What the file system refuses during one operation.
pub record Io : Type 0 where
  pub fails_mkdir : Bool
  pub fails_open : Bool
  -- a write or flush error, after so many bytes
  pub short_write : Option ℕ
  pub fails_rename : Bool
  pub fails_remove : Bool
  -- names for which `try_exists` gives an error
  pub fails_probe : List ℕ → Bool

abbrev pub calm : Io
calm = record {
  fails_mkdir = false;
  fails_open = false;
  short_write = none;
  fails_rename = false;
  fails_remove = false;
  fails_probe = λ _. false;
}

pub data EngineError : Type 0 where
  already_active unknown_transfer chunk_too_large overflows incomplete io : EngineError

pub data Result {ℓ} (A : Type ℓ) : Type ℓ where
  ok : A → Result A
  err : EngineError → Result A

pub record Engine : Type 0 where
  pub files : Files
  pub incoming : Assoc IncomingTransfer

abbrev pub empty : Files → Engine
empty files = record { files = files; incoming = [] }

-- ".handfast-part"
abbrev pub part_suffix : List ℕ
part_suffix = 46 ∷ 104 ∷ 97 ∷ 110 ∷ 100 ∷ 102 ∷ 97 ∷ 115 ∷ 116 ∷ 45 ∷ 112 ∷ 97 ∷ 114 ∷ 116 ∷ []

-- The entry that `start_receive` makes, for a name that is sanitized already.
abbrev pub fresh_transfer : TransferMeta → List ℕ → IncomingTransfer
fresh_transfer meta name = record {
  meta = meta;
  final_name = name;
  part_path = name ++ part_suffix;
  received = 0;
}

-- `create_new`: the staging file must not exist.
unfoldable pub reserve : Engine → TransferMeta → List ℕ → Result (Unit {0}) × Engine
unfolding write_file
reserve e meta name = if is_some (e.files (name ++ part_suffix)) then (err io, e) else (
  ok tt,
  record {
    files = write_file (name ++ part_suffix) (some []) e.files;
    incoming = insert meta.transfer_id (fresh_transfer meta name) e.incoming;
  },
)

unfoldable pub start_receive : Io → Engine → TransferMeta → Result (Unit {0}) × Engine
unfolding reserve
start_receive sys e meta =
    if is_some (lookup meta.transfer_id e.incoming)
    then (err already_active, e)
    else if sys.fails_mkdir
    then (err io, e)
    else if sys.fails_open
    then (err io, e)
    else reserve e meta (sanitize_file_name meta.file_name)

-- `write_all` and `flush` on the staging file, and the new count.
unfoldable pub append :
    Io → Engine → String → IncomingTransfer → List ℕ → List ℕ → ℕ → Result ℕ × Engine
unfolding write_file
append sys e id t content bytes total_after = elim sys.short_write [
  | some n ↦
      (err io, record e { files = write_file t.part_path (some (content ++ take n bytes)) e.files })
  | none ↦ (
    ok total_after,
    record {
      files = write_file t.part_path (some (content ++ bytes)) e.files;
      incoming = insert id (record t { received = total_after }) e.incoming;
    },
  )
]

-- The open in append mode, which wants the staging file.
unfoldable pub open_append :
    Io → Engine → String → IncomingTransfer → List ℕ → ℕ → Result ℕ × Engine
unfolding append
open_append sys e id t bytes total_after =
    if sys.fails_open then (err io, e) else elim (e.files t.part_path) [
      | none ↦ (err io, e)
      | some content ↦ append sys e id t content bytes total_after
    ]

unfoldable pub write_chunk : Io → Engine → String → List ℕ → Result ℕ × Engine
unfolding open_append
write_chunk sys e id bytes =
    if ltb chunk_size (length bytes)
    then (err chunk_too_large, e)
    else elim (lookup id e.incoming) [
      | none ↦ (err unknown_transfer, e)
      | some t ↦
          let total_after = (t.received + length bytes) % 2 ^ 64 in
          if ltb t.meta.file_size total_after
          then (err overflows, e)
          else open_append sys e id t bytes total_after
    ]

-- `exists`: trouble reads as "taken".
unfoldable pub taken : Io → Files → List ℕ → Bool
taken sys files name = if sys.fails_probe name then true else is_some (files name)

-- The last dot of a name.
unfoldable pub split_last_dot : List ℕ → Option (List ℕ × List ℕ)
split_last_dot [] = none
split_last_dot (c ∷ cs) = elim (split_last_dot cs) [
  | some (before, after) ↦ some (c ∷ before, after)
  | none ↦ if c == 46 then some ([], cs) else none
]

-- `Path::file_stem` and `Path::extension`: a name that only begins with a dot has no extension.
unfoldable pub stem_extension : List ℕ → List ℕ × Option (List ℕ)
unfolding split_last_dot
stem_extension name = elim (split_last_dot name) [
  | none ↦ (name, none)
  | some ([], after) ↦ (name, none)
  | some (c ∷ before, after) ↦ (c ∷ before, some after)
]

-- `{n}`: decimal digits, at most ten of them for a `u32`.
unfoldable pub digits : ℕ → ℕ → List ℕ → List ℕ
digits zero n acc = acc
digits (suc f) n acc =
    let more = digits f (n / 10) ((48 + n % 10) ∷ acc) in
    if n / 10 == 0 then (48 + n % 10) ∷ acc else more

-- "stem (n).ext"
unfoldable pub candidate : List ℕ × Option (List ℕ) → ℕ → List ℕ
unfolding digits
candidate (stem, none) n = stem ++ 32 ∷ 40 ∷ (digits 10 n [] ++ 41 ∷ [])
candidate (stem, some ext) n = stem ++ 32 ∷ 40 ∷ (digits 10 n [] ++ 41 ∷ 46 ∷ ext)

-- The loop from `n` on, with so many rounds left.
unfoldable pub try_numbers : Io → Files → List ℕ → List ℕ × Option (List ℕ) → ℕ → ℕ → List ℕ
unfolding taken candidate
try_numbers sys files first parts zero n = first
try_numbers sys files first parts (suc rounds) n =
    let more = try_numbers sys files first parts rounds (suc n) in
    if taken sys files (candidate parts n) then more else candidate parts n

unfoldable pub free_destination : Io → Files → List ℕ → List ℕ
unfolding taken try_numbers stem_extension
free_destination sys files name =
    let numbered = try_numbers sys files name (stem_extension name) (max_name_collisions - 1) 1 in
    if taken sys files name then numbered else name

-- `rename` of the staging file, which replaces what stands at the destination.
unfoldable pub move_part :
    Io → Engine → String → IncomingTransfer → List ℕ → Result (List ℕ) × Engine
unfolding write_file
move_part sys e id t destination =
    if sys.fails_rename then (err io, e) else elim (e.files t.part_path) [
      | none ↦ (err io, e)
      | some content ↦ (
        ok destination,
        record {
          files = write_file destination (some content) (write_file t.part_path none e.files);
          incoming = remove id e.incoming;
        },
      )
    ]

unfoldable pub finish_receive : Io → Engine → String → Result (List ℕ) × Engine
unfolding move_part
finish_receive sys e id = elim (lookup id e.incoming) [
  | none ↦ (err unknown_transfer, e)
  | some t ↦
      if not (t.meta.file_size == unknown_size) && not (t.received == t.meta.file_size)
      then (err incomplete, e)
      else move_part sys e id t (free_destination sys e.files t.final_name)
]

-- The entry is gone whatever `remove_file` says; a file that is not there is no error.
unfoldable pub abort : Io → Engine → String → Result (Unit {0}) × Engine
unfolding write_file
abort sys e id = elim (lookup id e.incoming) [
  | none ↦ (err unknown_transfer, e)
  | some t ↦
      let rest = remove id e.incoming in
      if not (is_some (e.files t.part_path))
      then (ok tt, record e { incoming = rest })
      else if sys.fails_remove
      then (err io, record e { incoming = rest })
      else (ok tt, record { files = write_file t.part_path none e.files; incoming = rest })
]

unfoldable pub is_active : Engine → String → Bool
is_active e id = is_some (lookup id e.incoming)
