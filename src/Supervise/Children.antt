-- ===== src/Supervise/Children.antt =====
-- crates/core/src/supervise.rs: which children run. A child is a number. A join handle that is
-- dropped detaches its child, which keeps running; only `abort` stops it.
use handfast.Base.{
  ℕ, suc, ◌==◌, String, Bool, true, false, ◌||◌, Option, none, some, List, [], ◌∷◌, ◌≡◌, refl, sym,
  ap, subst, ◌∙◌, arith, Assoc, lookup, insert, lookup-insert, str_eq_iff, if◌then◌else◌, if_cases,
}

-- `latest_child` is the slot that the watcher shares; `watcher` holds once the watcher has started.
pub record Entry : Type 0 where
  pub generation : ℕ
  pub latest_child : Option ℕ

pub record Supervisor : Type 0 where
  pub shutdown : Bool
  pub generations : ℕ
  pub children : Assoc Entry
  pub running : List ℕ

abbrev pub is_running : ℕ → List ℕ → Bool
is_running n [] = false
is_running n (m ∷ ms) = m == n || is_running n ms

-- `child.abort()`
unfoldable pub stop : ℕ → List ℕ → List ℕ
stop n [] = []
stop n (m ∷ ms) = let rest = stop n ms in if m == n then rest else m ∷ rest

-- `if let Some(child) = lock(&slot).take() { child.abort() }`
unfoldable pub stop_slot : Option ℕ → List ℕ → List ℕ
unfolding stop
stop_slot none running = running
stop_slot (some n) running = stop n running

-- The entry that is superseded, if there is one: its slot is emptied and its child aborted.
unfoldable pub supersede : Option Entry → List ℕ → List ℕ
unfolding stop_slot
supersede none running = running
supersede (some old) running = stop_slot old.latest_child running

-- `Supervisor::spawn`
unfoldable pub spawn : String → Supervisor → Supervisor
unfolding lookup insert supersede
spawn name s = if s.shutdown then s else record s {
  generations = suc s.generations;
  children =
      insert name (record { generation = suc s.generations; latest_child = none }) s.children;
  running = supersede (lookup name s.children) s.running;
}

-- The start of a round of `watch_loop`: the child is started and parked in the slot.
unfoldable pub park : String → ℕ → Supervisor → Supervisor
unfolding lookup insert
park name child s = elim (lookup name s.children) [
  | none ↦ s
  | some e ↦ record s {
    children = insert name (record e { latest_child = some child }) s.children;
    running = child ∷ s.running;
  }
]

-- Then the watcher takes the handle out of the slot, to await it.
unfoldable pub take_child : String → Supervisor → Supervisor
unfolding lookup insert
take_child name s = elim (lookup name s.children) [
  | none ↦ s
  | some e ↦ record s { children = insert name (record e { latest_child = none }) s.children }
]

unfoldable pub stop_all : Assoc Entry → List ℕ → List ℕ
unfolding stop_slot
stop_all [] running = running
stop_all ((_, e) ∷ es) running = stop_all es (stop_slot e.latest_child running)

-- `shutdown_all`
unfoldable pub shutdown_all : Supervisor → Supervisor
unfolding stop_all
shutdown_all s = record s {
  shutdown = true;
  children = [];
  running = stop_all s.children s.running;
}

-- A child is started by the watcher of `name`.
unfoldable pub start : String → ℕ → Supervisor → Supervisor
unfolding park take_child
start name child s = take_child name (park name child s)

-- The slot of the entry, with this child.
abbrev holding : Entry → Option ℕ → Entry
holding e child = record e { latest_child = child }

found : (name : String) (e : Entry) (m : Assoc Entry) → lookup name (insert name e m) ≡ some e
found name e m = lookup-insert name name e m ∙ rw ((str_eq_iff name name).1 refl) refl

park_found :
    (name : String) (child : ℕ) (s : Supervisor) (e : Entry)
    → lookup name s.children ≡ some e
    → park name child s ≡ record s {
      children = insert name (holding e (some child)) s.children;
      running = child ∷ s.running;
    }
unfolding park
park_found name child s e l = rw (l, park) refl

take_found :
    (name : String) (s : Supervisor) (e : Entry)
    → lookup name s.children ≡ some e
    → take_child name s ≡ record s { children = insert name (holding e none) s.children }
unfolding take_child
take_found name s e l = rw (l, take_child) refl

-- A supervisor whose child of this name is awaited.
abbrev awaiting : String → ℕ → Supervisor → Entry → Supervisor
awaiting name child s e = record s {
  children = insert name (holding e none) (insert name (holding e (some child)) s.children);
  running = child ∷ s.running;
}

start_found :
    (name : String) (child : ℕ) (s : Supervisor) (e : Entry)
    → lookup name s.children ≡ some e
    → start name child s ≡ awaiting name child s e
unfolding start
start_found name child s e l =
    ap (take_child name) (park_found name child s e l)
    ∙ take_found name
        (record s {
          children = insert name (holding e (some child)) s.children;
          running = child ∷ s.running;
        })
        (holding e (some child)) (found name (holding e (some child)) s.children)

front_running : (child : ℕ) (running : List ℕ) → is_running child (child ∷ running) ≡ true
front_running child running = ground arith

spawn-awaiting :
    (name : String) (child : ℕ) (s : Supervisor) (e : Entry)
    → is_running child (spawn name (awaiting name child s e)).running ≡ true
unfolding spawn supersede stop_slot
spawn-awaiting name child s e =
    if_cases (λ (t : Supervisor). is_running child t.running ≡ true) s.shutdown _ _
      (λ _. front_running child s.running)
      (λ _.
        rw
          (found name (holding e none) (insert name (holding e (some child)) s.children), supersede)
          (front_running child s.running))

-- The child of a task that is being awaited is in no slot: spawning the name again, which is said to
-- abort the old child, leaves it running beside the new generation.
pub superseded-is_running :
    (name : String) (child : ℕ) (s : Supervisor) (e : Entry)
    → lookup name s.children ≡ some e
    → is_running child (spawn name (start name child s)).running ≡ true
superseded-is_running name child s e l =
    subst (λ t. is_running child (spawn name t).running ≡ true) (sym (start_found name child s e l))
      (spawn-awaiting name child s e)
