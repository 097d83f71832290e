-- ===== src/Ipc/Client.antt =====
-- crates/ipc/src/client.rs: the calls that share a connection to the daemon, its reader task, and
-- crates/ipc/src/server.rs, handle_connection: the daemon answers the requests of a connection one by
-- one. A call is known by its number, which is also that of its waiter. A move is a step that one of
-- the tasks takes between two points at which another one may run.
pub mod Paired
pub mod Swept
pub mod Examples
use handfast.Base.{
  ℕ, Bool, true, false, Option, none, some, List, [], ◌∷◌, ◌++◌, ◌==◌, if◌then◌else◌,
}
use handfast.Ipc.Proto.{Response, ServerEvent}

-- What a call returns; a response comes with the number of the request that the daemon answered.
pub data Reply : Type 0 where
  replied : ℕ → Response → Reply
  closed failed timed_out : Reply

-- How far a call has come: `entered` has seen the connection alive, `pushed` holds the write lock with
-- its waiter queued, `written` has given the lock back, `waiting` has seen the connection alive again.
-- `failing` is about to declare the connection dead, and `draining` to fail the queue.
pub data Phase : Type 0 where
  idle entered pushed written waiting : Phase
  failing draining returned : Reply → Phase

-- What was sent to a waiter.
pub data Told : Type 0 where
  response : ℕ → Response → Told
  hung_up : Told

pub data Frame : Type 0 where
  event : ServerEvent → Frame
  answer : ℕ → Response → Frame

pub data Reader : Type 0 where
  reading ending sweeping ended : Reader

pub record Connection : Type 0 where
  pub dead : Bool
  pub lock : Option ℕ
  pub pending : List ℕ
  -- the requests that the daemon has not answered yet, and the frames that were not read yet
  pub requests : List ℕ
  pub frames : List Frame
  pub waiters : ℕ → Option Told
  pub phases : ℕ → Phase
  pub reader : Reader
  pub events : List ServerEvent

unfoldable pub set {ℓ} : {A : Type ℓ} → ℕ → A → (ℕ → A) → ℕ → A
set n x f k = if k == n then x else f k

abbrev pub enter : ℕ → Phase → Connection → Connection
enter n p s = record s { phases = set n p s.phases }

-- The start of `request`.
unfoldable pub request : Phase → ℕ → Connection → Connection
request idle n s = if s.dead then enter n (returned closed) s else enter n entered s
request _ n s = s

unfoldable pub push : Phase → ℕ → Connection → Connection
push entered n s = elim s.lock [
  | none ↦ record s { lock = some n; pending = s.pending ++ n ∷ []; phases = set n pushed s.phases }
  | some _ ↦ s
]
push _ n s = s

-- The frame was written, or `write_frame` failed.
unfoldable pub write : Bool → Phase → ℕ → Connection → Connection
write true pushed n s = record s {
  lock = none;
  requests = s.requests ++ n ∷ [];
  phases = set n written s.phases;
}
write false pushed n s = record s { lock = none; phases = set n (failing failed) s.phases }
write _ _ n s = s

unfoldable pub check : Phase → ℕ → Connection → Connection
check written n s = if s.dead then enter n (returned closed) s else enter n waiting s
check _ n s = s

unfoldable pub resume : Phase → ℕ → Connection → Connection
resume waiting n s = elim (s.waiters n) [
  | none ↦ s
  | some (response m r) ↦ enter n (returned (replied m r)) s
  | some hung_up ↦ enter n (returned closed) s
]
resume _ n s = s

-- The ten seconds are over, and nothing was sent to the waiter.
unfoldable pub expire : Phase → ℕ → Connection → Connection
expire waiting n s = elim (s.waiters n) [ none ↦ enter n (failing timed_out) s | some _ ↦ s ]
expire _ n s = s

unfoldable pub hang_up : List ℕ → (ℕ → Option Told) → ℕ → Option Told
unfolding set
hang_up [] f = f
hang_up (p ∷ ps) f = hang_up ps (set p (some hung_up) f)

unfoldable pub drain : Connection → Connection
unfolding hang_up
drain s = record s { pending = []; waiters = hang_up s.pending s.waiters }

-- `fail_all_pending`, in its two steps.
unfoldable pub fail_all_pending : Phase → ℕ → Connection → Connection
unfolding drain
fail_all_pending (failing why) n s = record (enter n (draining why) s) { dead = true }
fail_all_pending (draining why) n s = enter n (returned why) (drain s)
fail_all_pending _ n s = s

-- A response goes to the oldest waiter.
unfoldable pub route : List ℕ → ℕ → Response → List Frame → Connection → Connection
unfolding set
route [] m r fs s = record s { frames = fs; reader = ending }
route (p ∷ ps) m r fs s = record s {
  frames = fs;
  pending = ps;
  waiters = set p (some (response m r)) s.waiters;
}

unfoldable pub read_one : List Frame → Connection → Connection
unfolding route
read_one [] s = s
read_one (event e ∷ fs) s = record s { frames = fs; events = e ∷ s.events }
read_one (answer m r ∷ fs) s = route s.pending m r fs s

-- The reader task reads a frame; after its loop it declares the connection dead, and fails the queue.
unfoldable pub reader_loop : Reader → Connection → Connection
unfolding read_one drain
reader_loop reading s = read_one s.frames s
reader_loop ending s = record s { dead = true; reader = sweeping }
reader_loop sweeping s = record (drain s) { reader = ended }
reader_loop ended s = s

-- The read fails or a frame cannot be decoded.
unfoldable pub break_off : Reader → Connection → Connection
break_off reading s = record s { reader = ending }
break_off _ s = s

-- The daemon answers its oldest request.
unfoldable pub serve : List ℕ → Response → Connection → Connection
serve [] r s = s
serve (m ∷ ms) r s = record s { requests = ms; frames = s.frames ++ answer m r ∷ [] }

pub data Move : Type 0 where
  starts pushes checks resumes expires fails : ℕ → Move
  writes : Bool → ℕ → Move
  reads breaks : Move
  serves : Response → Move
  publishes : ServerEvent → Move

unfoldable pub advance : Move → Connection → Connection
unfolding request push write check resume expire fail_all_pending reader_loop break_off serve
advance (starts n) s = request (s.phases n) n s
advance (pushes n) s = push (s.phases n) n s
advance (writes fine n) s = write fine (s.phases n) n s
advance (checks n) s = check (s.phases n) n s
advance (resumes n) s = resume (s.phases n) n s
advance (expires n) s = expire (s.phases n) n s
advance (fails n) s = fail_all_pending (s.phases n) n s
advance reads s = reader_loop s.reader s
advance breaks s = break_off s.reader s
advance (serves r) s = serve s.requests r s
advance (publishes e) s = record s { frames = s.frames ++ event e ∷ [] }

-- Any interleaving of the tasks.
unfoldable pub run : List Move → Connection → Connection
unfolding advance
run [] s = s
run (a ∷ rest) s = run rest (advance a s)

-- A new connection: the daemon has said hello.
abbrev pub connect : ServerEvent → Connection
connect greeting = record {
  dead = false;
  lock = none;
  pending = [];
  requests = [];
  frames = event greeting ∷ [];
  waiters = λ _. none;
  phases = λ _. idle;
  reader = reading;
  events = [];
}
