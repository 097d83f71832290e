-- ===== src/Ipc/Client/Swept.antt =====
-- Where a call that is under way stands, and what the end of the reader leaves of the queue.
pub mod Steps
pub mod Returned
use handfast.Base.{
  ℕ, Bool, true, false, Option, none, some, List, [], ◌∷◌, ◌++◌, ◌==◌, ◌||◌, ◌≡◌, ◌≢◌, refl, sym,
  subst, arith, All, if◌then◌else◌, if_cases, Option-cases, inl, inr, ◌∙◌,
}
use handfast.Ipc.Proto.{Response, ServerEvent}
use handfast.Ipc.Client.{
  Connection, Reply, replied, closed, failed, timed_out, Phase, idle, entered, pushed, written,
  waiting, failing, draining, returned, Told, response, hung_up, Frame, event, answer, Reader,
  reading, ending, sweeping, ended, set, enter, hang_up, drain, request, push, write, check, resume,
  expire, fail_all_pending, route, read_one, reader_loop, break_off, serve, Move, advance, starts,
  pushes, checks, resumes, expires, fails, writes, reads, breaks, serves, publishes, run, connect,
}
use handfast.Ipc.Client.Paired.{updated, All-set, All-last, last_pushed}

unfoldable pub is_in : ℕ → List ℕ → Bool
is_in n [] = false
is_in n (p ∷ ps) = (n == p) || is_in n ps

-- A call that is under way is in the queue until its waiter is told something.
abbrev pub Queued : List ℕ → ℕ → Phase → Option Told → Type 0
Queued ps n pushed none = is_in n ps ≡ true
Queued ps n written none = is_in n ps ≡ true
Queued ps n waiting none = is_in n ps ≡ true
Queued ps n _ _ = Unit

-- Once the reader has ended, nobody waits in the queue.
abbrev pub IsSwept : Bool → List ℕ → (ℕ → Phase) → Reader → Type 0
IsSwept dead pending phases sweeping = dead ≡ true
IsSwept dead pending phases ended = (dead ≡ true) × All (λ p. phases p ≢ waiting) pending
IsSwept dead pending phases _ = Unit

pub record IsAwaited (s : Connection) : Type 0 where
  pub queued : (n : ℕ) → Queued s.pending n (s.phases n) (s.waiters n)
  pub swept : IsSwept s.dead s.pending s.phases s.reader

told-Queued : (ps : List ℕ) (n : ℕ) (p : Phase) (t : Told) → Queued ps n p (some t)
told-Queued ps n p t = elim p as (λ k. Queued ps n k (some t)) [
  | idle ↦ tt
  | entered ↦ tt
  | pushed ↦ tt
  | written ↦ tt
  | waiting ↦ tt
  | failing _ ↦ tt
  | draining _ ↦ tt
  | returned _ ↦ tt
]

-- From one queue to another that holds the call too.
moved :
    (ps qs : List ℕ) (n : ℕ) (p : Phase) (w : Option Told)
    → (is_in n ps ≡ true → is_in n qs ≡ true)
    → Queued ps n p w
    → Queued qs n p w
moved ps qs n pushed none f h = f h
moved ps qs n written none f h = f h
moved ps qs n waiting none f h = f h
moved ps qs n p (some t) f h = told-Queued qs n p t
moved ps qs n idle none f h = tt
moved ps qs n entered none f h = tt
moved ps qs n (failing _) none f h = tt
moved ps qs n (draining _) none f h = tt
moved ps qs n (returned _) none f h = tt

-- The oldest waiter is told something.
pub popped :
    (p : ℕ) (ps : List ℕ) (t : Told) (phases : ℕ → Phase) (w : ℕ → Option Told)
    → ((k : ℕ) → Queued (p ∷ ps) k (phases k) (w k))
    → (k : ℕ) → Queued ps k (phases k) (set p (some t) w k)
unfolding is_in
popped p ps t phases w h =
    updated (λ k v. Queued ps k (phases k) v) p (some t) w (told-Queued ps p (phases p) t)
      (λ k e. moved (p ∷ ps) ps k (phases k) (w k) (λ i. sym (rw e refl) ∙ i) (h k))

hung_up-Queued :
    (phases : ℕ → Phase) (ps : List ℕ) (w : ℕ → Option Told)
    → ((k : ℕ) → Queued ps k (phases k) (w k))
    → (k : ℕ) → Queued [] k (phases k) (hang_up ps w k)
unfolding hang_up
hung_up-Queued phases [] w h k = h k
hung_up-Queued phases (p ∷ ps) w h k =
    hung_up-Queued phases ps (set p (some hung_up) w) (popped p ps hung_up phases w h) k

is_in-last : (n : ℕ) (ps : List ℕ) → is_in n (ps ++ n ∷ []) ≡ true
unfolding is_in
is_in-last n [] = ground arith
is_in-last n (p ∷ ps) = ground (arith, is_in-last n ps)

is_in-append : (k n : ℕ) (ps : List ℕ) → is_in k ps ≡ true → is_in k (ps ++ n ∷ []) ≡ true
unfolding is_in
is_in-append k n [] h = absurd (cc)
is_in-append k n (p ∷ ps) h = ground (arith, is_in-append k n ps)

enter-IsSwept :
    (n : ℕ) (p : Phase) (dead : Bool) (ps : List ℕ) (phases : ℕ → Phase) (r : Reader)
    → p ≢ waiting
    → IsSwept dead ps phases r
    → IsSwept dead ps (set n p phases) r
enter-IsSwept n p dead ps phases ended w h = (h.0, All-set n p phases ps w h.1)
enter-IsSwept n p dead ps phases sweeping w h = h
enter-IsSwept n p dead ps phases reading w h = tt
enter-IsSwept n p dead ps phases ending w h = tt

pub dead-IsSwept :
    (dead : Bool) (ps : List ℕ) (phases : ℕ → Phase) (r : Reader)
    → IsSwept dead ps phases r
    → IsSwept true ps phases r
dead-IsSwept dead ps phases ended h = (refl, h.1)
dead-IsSwept dead ps phases sweeping h = refl
dead-IsSwept dead ps phases reading h = tt
dead-IsSwept dead ps phases ending h = tt

empty-IsSwept :
    (dead : Bool) (ps : List ℕ) (phases : ℕ → Phase) (r : Reader)
    → IsSwept dead ps phases r
    → IsSwept dead [] phases r
empty-IsSwept dead ps phases ended h = (h.0, tt)
empty-IsSwept dead ps phases sweeping h = h
empty-IsSwept dead ps phases reading h = tt
empty-IsSwept dead ps phases ending h = tt

pub enter-IsAwaited :
    (n : ℕ) (p : Phase) (s : Connection)
    → p ≢ waiting
    → Queued s.pending n p (s.waiters n)
    → IsAwaited s
    → IsAwaited (enter n p s)
enter-IsAwaited n p s w q h = record {
  queued = updated (λ k x. Queued s.pending k x (s.waiters k)) n p s.phases q (λ k _. h.queued k);
  swept = enter-IsSwept n p s.dead s.pending s.phases s.reader w h.swept;
}

pub drain-IsAwaited : (s : Connection) → IsAwaited s → IsAwaited (drain s)
unfolding drain
drain-IsAwaited s h = record {
  queued = hung_up-Queued s.phases s.pending s.waiters h.queued;
  swept = empty-IsSwept s.dead s.pending s.phases s.reader h.swept;
}

pub pushed-IsAwaited :
    (n : ℕ) (s : Connection)
    → IsAwaited s
    → IsAwaited
        (record s { lock = some n; pending = s.pending ++ n ∷ []; phases = set n pushed s.phases })
pushed-IsAwaited n s h = record {
  queued =
      updated (λ k x. Queued (s.pending ++ n ∷ []) k x (s.waiters k)) n pushed s.phases
        (last (s.waiters n))
        (λ k _.
          moved s.pending (s.pending ++ n ∷ []) k (s.phases k) (s.waiters k)
            (is_in-append k n s.pending) (h.queued k));
  swept = longer s.reader h.swept;
}
  where
    last : (w : Option Told) → Queued (s.pending ++ n ∷ []) n pushed w
    last none = is_in-last n s.pending
    last (some t) = tt

    longer :
        (r : Reader)
        → IsSwept s.dead s.pending s.phases r
        → IsSwept s.dead (s.pending ++ n ∷ []) (set n pushed s.phases) r
    longer ended g = (
      g.0,
      All-last _ s.pending n (All-set n pushed s.phases s.pending (λ e. cc) g.1)
          (last_pushed n s.phases),
    )
    longer sweeping g = g
    longer reading g = tt
    longer ending g = tt
