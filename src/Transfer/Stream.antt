-- ===== src/Transfer/Stream.antt =====
-- crates/daemon/src/device.rs: `receive_stream`, from the share header to the finished file, for a
-- local save directory. The data connection is the chunks that the sender streams, until it stops; what
-- an exact read does not get is a failed read.
pub mod Delivery
pub mod Ends
pub mod Whole
use handfast.Base.{
  ℕ, zero, suc, ◌+◌, ◌-◌, String, Bool, true, false, Option, none, some, List, [], ◌∷◌, length,
  take, drop, ltb, leb, min, concat, ◌==◌, if◌then◌else◌,
}
use handfast.Transfer.Engine.{
  Engine, EngineError, Io, TransferMeta, Result, ok, err, chunk_size, unknown_size, start_receive,
  write_chunk, finish_receive, abort,
}

-- What the environment does when `done` bytes have come: the file system's refusals, and whether the
-- cancel flag is set; and whether the sender closes the connection when it stops.
pub record Env : Type 0 where
  pub sys : ℕ → Io
  pub cancelled : ℕ → Bool
  pub closes : Bool

pub data StreamResult : Type 0 where
  delivered : List ℕ → StreamResult
  refused : EngineError → StreamResult
  cancelled read_failed out_of_fuel : StreamResult

-- The result, the engine, and the `bytes_done` of the progress events, newest first.
pub record Outcome : Type 0 where
  pub result : StreamResult
  pub engine : Engine
  pub progress : List ℕ

-- What the task returns when `finish_receive` has answered.
unfoldable pub finished : Result (List ℕ) × Engine → List ℕ → Outcome
finished (ok name, e') progress = record {
  result = delivered name;
  engine = e';
  progress = progress;
}
finished (err c, e') progress = record { result = refused c; engine = e'; progress = progress }

-- `finish_receive`, after the loop.
unfoldable pub finish : Env → String → Engine → ℕ → List ℕ → Outcome
unfolding finished
finish env id e done progress = finished (finish_receive (env.sys done) e id) progress

-- The branch on the cancel flag.
unfoldable pub cancel : Env → String → Engine → ℕ → List ℕ → Outcome
cancel env id e done progress = record {
  result = cancelled;
  engine = (abort (env.sys done) e id).1;
  progress = progress;
}

-- `write_chunk(...).await?`, and then the rest of the round.
unfoldable pub stored : Result ℕ × Engine → List ℕ → (Engine → Outcome) → Outcome
stored (err c, e') progress next = record { result = refused c; engine = e'; progress = progress }
stored (ok n, e') progress next = next e'

-- One round at an announced size: an exact read of at most `chunk_size` bytes. `more` is the next
-- rounds, from the engine that has stored the chunk.
unfoldable pub round :
    Env → String → ℕ → Engine → List ℕ → ℕ → List ℕ → (Engine → Outcome) → Outcome
unfolding finish cancel stored
round env id size e stream done progress more =
    let want = min chunk_size (size - done) in
    if env.cancelled done
    then cancel env id e done progress
    else if want == 0
    then finish env id e done progress
    else if ltb (length stream) want
    then record { result = read_failed; engine = e; progress = progress }
    else stored (write_chunk (env.sys done) e id (take want stream)) progress λ e'.
      if leb size (done + want)
      then finish env id e' (done + want) ((done + want) ∷ progress)
      else more e'

-- The loop. A round moves at least one byte, so more fuel than bytes is enough.
unfoldable pub receive_known : ℕ → Env → String → ℕ → Engine → List ℕ → ℕ → List ℕ → Outcome
unfolding round
receive_known zero env id size e stream done progress = record {
  result = out_of_fuel;
  engine = e;
  progress = progress;
}
receive_known (suc fuel) env id size e stream done progress =
    round env id size e stream done progress λ e'.
      let want = min chunk_size (size - done) in
      receive_known fuel env id size e' (drop want stream) (done + want) ((done + want) ∷ progress)

-- The sender has stopped: a clean end of the connection, or a read that fails or takes too long.
unfoldable pub stopped : Env → String → Engine → ℕ → List ℕ → Outcome
unfolding finish cancel
stopped env id e done progress =
    if env.cancelled done
    then cancel env id e done progress
    else if env.closes
    then finish env id e done progress
    else record { result = read_failed; engine = e; progress = progress }

-- The loop at an unknown size, over the reads that the connection yields. A read of no bytes is the
-- end too.
unfoldable pub receive_unknown : Env → String → Engine → List (List ℕ) → ℕ → List ℕ → Outcome
unfolding finish cancel stored stopped
receive_unknown env id e [] done progress = stopped env id e done progress
receive_unknown env id e ([] ∷ reads) done progress =
    if env.cancelled done then cancel env id e done progress else finish env id e done progress
receive_unknown env id e ((b ∷ bs) ∷ reads) done progress =
    let chunk = b ∷ bs in
    if env.cancelled done
    then cancel env id e done progress
    else stored (write_chunk (env.sys done) e id chunk) progress λ e'.
      receive_unknown env id e' reads (done + length chunk) ((done + length chunk) ∷ progress)

-- `start_receive(...).await?`, and then the loop.
unfoldable pub started : Result (Unit {0}) × Engine → (Engine → Outcome) → Outcome
started (err c, e') next = record { result = refused c; engine = e'; progress = [] }
started (ok _, e') next = next e'

-- After the transfer has started: an empty file has no data connection.
unfoldable pub pumped : Env → TransferMeta → Option (List (List ℕ)) → Engine → Outcome
unfolding receive_known receive_unknown finish
pumped env meta none e = finish env meta.transfer_id e 0 []
pumped env meta (some reads) e =
    if meta.file_size == unknown_size
    then receive_unknown env meta.transfer_id e reads 0 []
    else receive_known (suc meta.file_size) env meta.transfer_id meta.file_size e (concat reads) 0
        []

unfoldable pub receive_stream : Env → Engine → TransferMeta → Option (List (List ℕ)) → Outcome
unfolding pumped started
receive_stream env e meta payload =
    started (start_receive (env.sys 0) e meta) (pumped env meta payload)
