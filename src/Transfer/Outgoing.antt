-- ===== src/Transfer/Outgoing.antt =====
-- crates/daemon/src/device.rs, stream_outgoing: a local file goes out over a data connection. The reads
-- of the file are a list, with its end after the last one; what is cancelled and what the connection
-- refuses are functions of the bytes that are done.
pub mod Sent
use handfast.Base.{
  ℕ, ◌+◌, ◌≤◌, String, Bool, true, false, not, Option, none, some, List, [], ◌∷◌, ◌++◌, length, leb,
  if◌then◌else◌,
}

pub data StreamError : Type 0 where
  not_accepted not_opened cancelled read_failed write_failed : StreamError

pub data FileRead : Type 0 where
  chunk : List ℕ → FileRead
  fault : FileRead

pub record StreamEnv : Type 0 where
  pub accepts : Bool
  pub opens : Bool
  pub reads : List FileRead
  pub is_cancelled : ℕ → Bool
  pub writes : ℕ → Bool

-- How the stream ended, what has been written, the progress events (newest first), and the temporary
-- files that were removed.
pub record Streamed : Type 0 where
  pub error : Option StreamError
  pub written : List ℕ
  pub progress : List (ℕ × ℕ)
  pub removed : List String

unfoldable pub wrote : List ℕ → ℕ → ℕ → Streamed → Streamed
wrote c total size out = record out {
  written = out.written ++ c;
  progress = (total, size) ∷ out.progress;
}

abbrev pub fail : StreamError → Streamed → Streamed
fail e out = record out { error = some e }

-- The loop, with the bytes done so far.
unfoldable pub stream_loop : StreamEnv → ℕ → ℕ → List FileRead → Streamed → Streamed
unfolding wrote
stream_loop env size total [] out = if env.is_cancelled total then fail cancelled out else out
stream_loop env size total (fault ∷ reads) out =
    if env.is_cancelled total then fail cancelled out else fail read_failed out
stream_loop env size total (chunk [] ∷ reads) out =
    if env.is_cancelled total then fail cancelled out else out
stream_loop env size total (chunk (b ∷ bs) ∷ reads) out =
    let total' = total + length (b ∷ bs) in
    let rest = stream_loop env size total' reads (wrote (b ∷ bs) total' size out) in
    if env.is_cancelled total
    then fail cancelled out
    else if not (env.writes total)
    then fail write_failed out
    else if leb size total'
    then wrote (b ∷ bs) total' size out
    else rest

abbrev pub idle : Streamed
idle = record { error = none; written = []; progress = []; removed = [] }

abbrev pub swept : Option String → List String
swept none = []
swept (some tmp) = tmp ∷ []

unfoldable pub stream_outgoing : StreamEnv → Option String → ℕ → Streamed
unfolding stream_loop
stream_outgoing env cleanup size =
    let out =
      if not env.accepts
      then fail not_accepted idle
      else if not env.opens
      then fail not_opened idle
      else stream_loop env size 0 env.reads idle in
    record out { removed = swept cleanup }
