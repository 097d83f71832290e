-- ===== src/Transfer/Stream/Whole.antt =====
-- From the share header to the finished file.
use handfast.Base.{
  ℕ, suc, ◌-◌, ◌≤◌, ◌<◌, ◌≡◌, ◌≢◌, refl, sym, ap, subst, ◌∙◌, String, false, none, some, List, [],
  ◌++◌, length, length-append, take, concat, ◌==◌, lookup, insert, remove, lookup-insert,
  lookup-remove, str_eq_iff, arith,
}
use handfast.Transfer.Name.{sanitize_file_name}
use handfast.Transfer.Engine.{
  Engine, Files, Io, IncomingTransfer, TransferMeta, ok, unknown_size, part_suffix, fresh_transfer,
  write_file, taken, start_receive, finish_receive, is_active,
}
use handfast.Transfer.Engine.Slots.{write_file_self, write_file_ne, plain_free}
use handfast.Transfer.Stream.{
  Env, Outcome, delivered, finish, finished, started, receive_known, pumped, receive_stream,
}
use handfast.Transfer.Stream.Delivery.{IsQuiet, Holds, receive_known-Loaded}

module _ (sys : Io) (e : Engine) (id : String) (t : IncomingTransfer) (content : List ℕ) where
  abbrev moved : Engine
  moved = record {
    files = write_file t.final_name (some content) (write_file t.part_path none e.files);
    incoming = remove id e.incoming;
  }

  finish_receive-moved :
      Holds e id t content
      → t.received ≡ t.meta.file_size
      → sys.fails_rename ≡ false
      → taken sys e.files t.final_name ≡ false
      → finish_receive sys e id ≡ (ok t.final_name, moved)
  unfolding finish_receive
  finish_receive-moved h r ren free =
      ground (arith, h.active, plain_free sys e.files t.final_name free, h.staged)

-- Where a file can be received: the name and its staging file are new, and nothing is refused.
pub record IsReady (env : Env) (e : Engine) (meta : TransferMeta) (name : List ℕ) : Type 0 where
  pub quiet : IsQuiet env
  pub directory : (env.sys 0).fails_mkdir ≡ false
  pub renames : (env.sys meta.file_size).fails_rename ≡ false
  pub probes : (env.sys meta.file_size).fails_probe name ≡ false
  pub new_id : lookup meta.transfer_id e.incoming ≡ none
  pub new_name : e.files name ≡ none
  pub new_part : e.files (name ++ part_suffix) ≡ none

name-ne-part : (name : List ℕ) → name ≢ name ++ part_suffix
name-ne-part name q = absurd (omega (arith, ap length q, length-append name part_suffix))

abbrev reserved : Engine → TransferMeta → List ℕ → Engine
reserved e meta name = record {
  files = write_file (name ++ part_suffix) (some []) e.files;
  incoming = insert meta.transfer_id (fresh_transfer meta name) e.incoming;
}

start_receive-reserved :
    (sys : Io) (e : Engine) (meta : TransferMeta)
    → lookup meta.transfer_id e.incoming ≡ none
    → sys.fails_mkdir ≡ false
    → sys.fails_open ≡ false
    → e.files (sanitize_file_name meta.file_name ++ part_suffix) ≡ none
    → start_receive sys e meta ≡ (ok tt, reserved e meta (sanitize_file_name meta.file_name))
unfolding start_receive
start_receive-reserved sys e meta l m o p = rw (l, m, o, p)

-- The file is there under `name` with these bytes, and the transfer is over.
abbrev pub IsDelivered : String → List ℕ → List ℕ → Outcome → Type 0
IsDelivered id name bytes o =
    (o.result ≡ delivered name)
    × (o.engine.files name ≡ some bytes)
    × (is_active o.engine id ≡ false)

finish-IsDelivered :
    (env : Env) (e : Engine) (id : String) (t : IncomingTransfer) (content progress : List ℕ)
    (size : ℕ)
    → Holds e id t content
    → t.received ≡ t.meta.file_size
    → (env.sys size).fails_rename ≡ false
    → taken (env.sys size) e.files t.final_name ≡ false
    → IsDelivered id t.final_name content (finish env id e size progress)
unfolding finish is_active
finish-IsDelivered env e id t content progress size h r ren free =
    rw (finish_receive-moved (env.sys size) e id t content h r ren free, finished)
      (
        refl,
        write_file_self t.final_name (some content) (write_file t.part_path none e.files),
        ground (arith, lookup-remove id id e.incoming, str_eq_iff id id),
      )

stream_started :
    (env : Env) (e e1 : Engine) (meta : TransferMeta) (reads : List (List ℕ))
    → start_receive (env.sys 0) e meta ≡ (ok tt, e1)
    → meta.file_size < unknown_size
    → receive_stream env e meta (some reads)
      ≡ receive_known
          (suc meta.file_size)
          env
          meta.transfer_id
          meta.file_size
          e1
          (concat reads)
          0
          []
unfolding receive_stream pumped
stream_started env e e1 meta reads h n =
    let known : (meta.file_size == unknown_size) ≡ false = ground arith in
    rw (h, started) (rw (known) refl)

taken-none :
    (sys : Io) (files : Files) (name : List ℕ)
    → sys.fails_probe name ≡ false
    → files name ≡ none
    → taken sys files name ≡ false
unfolding taken
taken-none sys files name p h = rw (p, h)

-- A file of an announced size arrives whole under its sanitized name, if the transfer is new, no file
-- and no staging file of that name is there, nothing that the task asks of the file system is refused,
-- nobody cancels, and the sender streams at least the announced bytes: the receive task returns the
-- name, the file holds exactly the first `file_size` bytes of the stream, and the transfer is over.
pub receive_stream_delivers :
    (env : Env) (e : Engine) (meta : TransferMeta) (reads : List (List ℕ))
    → IsReady env e meta (sanitize_file_name meta.file_name)
    → meta.file_size < unknown_size
    → meta.file_size ≤ length (concat reads)
    → IsDelivered meta.transfer_id
        (sanitize_file_name meta.file_name)
        (take meta.file_size (concat reads))
        (receive_stream env e meta (some reads))
receive_stream_delivers env e meta reads ready small long =
    let stream = concat reads in
    let name = sanitize_file_name meta.file_name in
    let id = meta.transfer_id in
    let size = meta.file_size in
    let t = fresh_transfer meta name in
    let part = name ++ part_suffix in
    let e1 = reserved e meta name in
    let start =
      start_receive-reserved (env.sys 0) e meta ready.new_id ready.directory (ready.quiet.opens 0)
        ready.new_part in
    let loaded =
      receive_known-Loaded env id ready.quiet (suc size) size 0 e1 t [] stream []
        (record {
          active = ground (arith, lookup-insert id id t e.incoming, str_eq_iff id id);
          staged = write_file_self part (some []) e.files;
        })
        refl refl (omega arith) (omega arith) (omega arith) (omega arith) in
    let free : loaded.last.files name ≡ none =
      loaded.others name (name-ne-part name)
      ∙ write_file_ne part name (some []) e.files (λ q. name-ne-part name (sym q))
      ∙ ready.new_name in
    let whole : IsDelivered id loaded.entry.final_name (take (size - 0) stream)
        (finish env id loaded.last size loaded.progress) =
      finish-IsDelivered env loaded.last id loaded.entry (take (size - 0) stream) loaded.progress
        size loaded.holds
        (loaded.received ∙ ap (λ (m : TransferMeta). m.file_size) (sym loaded.meta)) ready.renames
        (subst (λ n. taken (env.sys size) loaded.last.files n ≡ false) (sym loaded.final)
          (taken-none (env.sys size) loaded.last.files name ready.probes free)) in
    subst (IsDelivered id name (take size stream))
      (sym (stream_started env e e1 meta reads start small ∙ loaded.returned))
      (subst
        (λ n. IsDelivered id name (take n stream) (finish env id loaded.last size loaded.progress))
        (let z : size - 0 ≡ size = omega arith in z)
        (subst
          (λ n.
            IsDelivered id n (take (size - 0) stream)
              (finish env id loaded.last size loaded.progress))
          loaded.final whole))
