-- ===== src/Ipc/Client/Swept/Steps.antt =====
-- Every move keeps the calls under way in the queue, and the queue swept.
use handfast.Base.{
  ℕ, Bool, true, false, Option, none, some, List, [], ◌∷◌, ◌≡◌, refl, sym, subst, if_cases,
  Option-cases, inl, inr,
}
use handfast.Ipc.Proto.{Response}
use handfast.Ipc.Client.{
  Connection, replied, closed, failed, timed_out, Phase, idle, entered, pushed, written, waiting,
  failing, draining, returned, Told, response, hung_up, Frame, event, answer, Reader, reading,
  ending, sweeping, ended, set, enter, drain, request, push, write, check, resume, expire,
  fail_all_pending, route, read_one, reader_loop, break_off, serve, Move, advance, starts, pushes,
  checks, resumes, expires, fails, writes, reads, breaks, serves, publishes,
}
use handfast.Ipc.Client.Paired.{updated}
use handfast.Ipc.Client.Swept.{
  Queued, IsSwept, IsAwaited, popped, dead-IsSwept, enter-IsAwaited, drain-IsAwaited,
  pushed-IsAwaited,
}

-- A call goes on from one stage under way to another.
carried : (ps : List ℕ) (n : ℕ) (w : Option Told) → Queued ps n written w → Queued ps n waiting w
carried ps n none h = h
carried ps n (some t) h = tt

carried_pushed :
    (ps : List ℕ) (n : ℕ) (w : Option Told) → Queued ps n pushed w → Queued ps n written w
carried_pushed ps n none h = h
carried_pushed ps n (some t) h = tt

phase-IsAwaited :
    (p : Phase) (n : ℕ) (s : Connection)
    → s.phases n ≡ p
    → IsAwaited s
    → Queued s.pending n p (s.waiters n)
phase-IsAwaited p n s e h = subst (λ q. Queued s.pending n q (s.waiters n)) e (h.queued n)

request-IsAwaited : (p : Phase) (n : ℕ) (s : Connection) → IsAwaited s → IsAwaited (request p n s)
unfolding request
request-IsAwaited idle n s h =
    if_cases IsAwaited s.dead _ _ (λ _. enter-IsAwaited n (returned closed) s (λ e. cc) tt h)
      (λ _. enter-IsAwaited n entered s (λ e. cc) tt h)
request-IsAwaited _ n s h = h

push-IsAwaited : (p : Phase) (n : ℕ) (s : Connection) → IsAwaited s → IsAwaited (push p n s)
unfolding push
push-IsAwaited entered n s h = elim (Option-cases s.lock) [
  | inl e ↦ rw (e, push) (pushed-IsAwaited n s h)
  | inr (k, e) ↦ rw (e, push) h
]
push-IsAwaited _ n s h = h

write-IsAwaited :
    (fine : Bool) (p : Phase) (n : ℕ) (s : Connection)
    → s.phases n ≡ p
    → IsAwaited s
    → IsAwaited (write fine p n s)
unfolding write
write-IsAwaited true pushed n s e h =
    let at =
      enter-IsAwaited n written s (λ e. cc)
        (carried_pushed s.pending n (s.waiters n) (phase-IsAwaited pushed n s e h)) h in
    record { queued = at.queued; swept = at.swept }
write-IsAwaited false pushed n s e h =
    let at = enter-IsAwaited n (failing failed) s (λ e. cc) tt h in
    record { queued = at.queued; swept = at.swept }
write-IsAwaited true _ n s e h = h
write-IsAwaited false _ n s e h = h

check-IsAwaited :
    (p : Phase) (n : ℕ) (s : Connection) → s.phases n ≡ p → IsAwaited s → IsAwaited (check p n s)
unfolding check
check-IsAwaited written n s e h =
    if_cases IsAwaited s.dead _ _ (λ _. enter-IsAwaited n (returned closed) s (λ e. cc) tt h)
      (λ alive. record {
        queued =
            updated (λ k x. Queued s.pending k x (s.waiters k)) n waiting s.phases
              (carried s.pending n (s.waiters n) (phase-IsAwaited written n s e h))
              (λ k _. h.queued k);
        swept = still alive s.reader h.swept;
      })
  where
    still :
        s.dead ≡ false
        → (r : Reader) → IsSwept s.dead s.pending s.phases r
        → IsSwept s.dead s.pending (set n waiting s.phases) r
    still alive ended g = absurd (cc)
    still alive sweeping g = g
    still alive reading g = tt
    still alive ending g = tt
check-IsAwaited _ n s e h = h

resume-IsAwaited : (p : Phase) (n : ℕ) (s : Connection) → IsAwaited s → IsAwaited (resume p n s)
unfolding resume
resume-IsAwaited waiting n s h = told (s.waiters n)
  where
    told :
        (w : Option Told)
        → IsAwaited (elim w [
          | none ↦ s
          | some (response m r) ↦ enter n (returned (replied m r)) s
          | some hung_up ↦ enter n (returned closed) s
        ])
    told none = h
    told (some (response m r)) = enter-IsAwaited n (returned (replied m r)) s (λ e. cc) tt h
    told (some hung_up) = enter-IsAwaited n (returned closed) s (λ e. cc) tt h
resume-IsAwaited _ n s h = h

expire-IsAwaited : (p : Phase) (n : ℕ) (s : Connection) → IsAwaited s → IsAwaited (expire p n s)
unfolding expire
expire-IsAwaited waiting n s h = elim (Option-cases (s.waiters n)) [
  | inl e ↦ rw (e, expire) (enter-IsAwaited n (failing timed_out) s (λ e. cc) tt h)
  | inr (k, e) ↦ rw (e, expire) h
]
expire-IsAwaited _ n s h = h

fail-IsAwaited :
    (p : Phase) (n : ℕ) (s : Connection) → IsAwaited s → IsAwaited (fail_all_pending p n s)
unfolding fail_all_pending
fail-IsAwaited (failing why) n s h =
    enter-IsAwaited n (draining why) (record s { dead = true }) (λ e. cc) tt
      (record {
        queued = h.queued;
        swept = dead-IsSwept s.dead s.pending s.phases s.reader h.swept;
      })
fail-IsAwaited (draining why) n s h =
    enter-IsAwaited n (returned why) (drain s) (λ e. cc) tt (drain-IsAwaited s h)
fail-IsAwaited _ n s h = h

route-IsAwaited :
    (ps : List ℕ) (m : ℕ) (r : Response) (fs : List Frame) (s : Connection)
    → s.pending ≡ ps
    → s.reader ≡ reading
    → IsAwaited s
    → IsAwaited (route ps m r fs s)
unfolding route
route-IsAwaited [] m r fs s e f h = record { queued = h.queued; swept = tt }
route-IsAwaited (p ∷ ps) m r fs s e f h = record {
  queued =
      popped p ps (response m r) s.phases s.waiters
        (subst (λ qs. (k : ℕ) → Queued qs k (s.phases k) (s.waiters k)) e h.queued);
  swept = subst (IsSwept s.dead ps s.phases) (sym f) tt;
}

read_one-IsAwaited :
    (fs : List Frame) (s : Connection)
    → s.reader ≡ reading
    → IsAwaited s
    → IsAwaited (read_one fs s)
unfolding read_one
read_one-IsAwaited [] s f h = h
read_one-IsAwaited (event e ∷ fs) s f h = record { queued = h.queued; swept = h.swept }
read_one-IsAwaited (answer m r ∷ fs) s f h = route-IsAwaited s.pending m r fs s refl f h

reader_loop-IsAwaited :
    (r : Reader) (s : Connection) → s.reader ≡ r → IsAwaited s → IsAwaited (reader_loop r s)
unfolding reader_loop drain
reader_loop-IsAwaited reading s e h = read_one-IsAwaited s.frames s e h
reader_loop-IsAwaited ending s e h = record { queued = h.queued; swept = refl }
reader_loop-IsAwaited sweeping s e h = record {
  queued = (drain-IsAwaited s h).queued;
  swept = (subst (IsSwept s.dead s.pending s.phases) e h.swept, tt);
}
reader_loop-IsAwaited ended s e h = h

break_off-IsAwaited : (r : Reader) (s : Connection) → IsAwaited s → IsAwaited (break_off r s)
unfolding break_off
break_off-IsAwaited reading s h = record { queued = h.queued; swept = tt }
break_off-IsAwaited _ s h = h

serve-IsAwaited :
    (ms : List ℕ) (r : Response) (s : Connection) → IsAwaited s → IsAwaited (serve ms r s)
unfolding serve
serve-IsAwaited [] r s h = h
serve-IsAwaited (m ∷ ms) r s h = record { queued = h.queued; swept = h.swept }

pub advance-IsAwaited : (a : Move) (s : Connection) → IsAwaited s → IsAwaited (advance a s)
unfolding advance
advance-IsAwaited (starts n) s h = request-IsAwaited (s.phases n) n s h
advance-IsAwaited (pushes n) s h = push-IsAwaited (s.phases n) n s h
advance-IsAwaited (writes fine n) s h = write-IsAwaited fine (s.phases n) n s refl h
advance-IsAwaited (checks n) s h = check-IsAwaited (s.phases n) n s refl h
advance-IsAwaited (resumes n) s h = resume-IsAwaited (s.phases n) n s h
advance-IsAwaited (expires n) s h = expire-IsAwaited (s.phases n) n s h
advance-IsAwaited (fails n) s h = fail-IsAwaited (s.phases n) n s h
advance-IsAwaited reads s h = reader_loop-IsAwaited s.reader s refl h
advance-IsAwaited breaks s h = break_off-IsAwaited s.reader s h
advance-IsAwaited (serves r) s h = serve-IsAwaited s.requests r s h
advance-IsAwaited (publishes e) s h = record { queued = h.queued; swept = h.swept }
