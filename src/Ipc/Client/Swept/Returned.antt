-- ===== src/Ipc/Client/Swept/Returned.antt =====
-- No call is left behind when the reader of a shared connection has ended.
use handfast.Base.{
  ℕ, true, Option, none, some, List, [], ◌∷◌, ◌==◌, ◌≡◌, ◌≢◌, refl, sym, subst, arith, All, inl,
  inr, ◌∙◌, ap, Bool-cases,
}
use handfast.Ipc.Proto.{ServerEvent}
use handfast.Ipc.Client.{
  Connection, Reply, replied, closed, Phase, waiting, returned, Told, response, hung_up, ended, set,
  enter, resume, Move, advance, resumes, run, connect,
}
use handfast.Ipc.Client.Swept.{is_in, Queued, IsSwept, IsAwaited}
use handfast.Ipc.Client.Swept.Steps.{advance-IsAwaited}

run-IsAwaited : (acts : List Move) (s : Connection) → IsAwaited s → IsAwaited (run acts s)
unfolding run
run-IsAwaited [] s h = h
run-IsAwaited (a ∷ acts) s h = run-IsAwaited acts (advance a s) (advance-IsAwaited a s h)

connect-IsAwaited : (e : ServerEvent) → IsAwaited (connect e)
connect-IsAwaited e = record { queued = λ n. tt; swept = tt }

All-in : (P : ℕ → Type 0) (n : ℕ) (ps : List ℕ) → All P ps → is_in n ps ≡ true → P n
unfolding is_in
All-in P n [] a h = absurd (cc)
All-in P n (p ∷ ps) a h = elim (Bool-cases (n == p)) [
  | inl e ↦ let same : p ≡ n = ground arith in subst P same a.0
  | inr e ↦ All-in P n ps a.1 (sym (rw e refl) ∙ h)
]

-- A waiting call that was told nothing would still be in the queue.
told :
    (n : ℕ) (s : Connection) (w : Option Told)
    → s.reader ≡ ended
    → s.phases n ≡ waiting
    → Queued s.pending n waiting w
    → IsAwaited s
    → (t : Told) × (w ≡ some t)
told n s (some t) e p q h = (t, refl)
told n s none e p q h =
    let (_, all) = subst (IsSwept s.dead s.pending s.phases) e h.swept in
    absurd (All-in (λ k. s.phases k ≢ waiting) n s.pending all q p)

resumed :
    (n : ℕ) (s : Connection) (t : Told)
    → s.waiters n ≡ some t
    → (why : Reply) × (resume waiting n s ≡ enter n (returned why) s)
unfolding resume
resumed n s (response m r) e = (replied m r, rw (e, resume) refl)
resumed n s hung_up e = (closed, rw (e, resume) refl)

set-same : (n : ℕ) (p : Phase) (f : ℕ → Phase) → set n p f n ≡ p
unfolding set
set-same n p f = let same : (n == n) ≡ true = ground arith in rw same refl

-- However the calls, the reader and the daemon are interleaved, also when requests fail to be written:
-- once the reader of the connection has ended, a call that still waits has been told its response or
-- that the connection is closed, so that it returns when it runs next, and need not wait for its timeout.
pub no_call_left :
    (greeting : ServerEvent) (acts : List Move) (n : ℕ)
    → (run acts (connect greeting)).reader ≡ ended
    → (run acts (connect greeting)).phases n ≡ waiting
    → (why : Reply) × ((advance (resumes n) (run acts (connect greeting))).phases n ≡ returned why)
unfolding advance
no_call_left greeting acts n e p =
    let s = run acts (connect greeting) in
    let h = run-IsAwaited acts (connect greeting) (connect-IsAwaited greeting) in
    let q : Queued s.pending n waiting (s.waiters n) =
      subst (λ x. Queued s.pending n x (s.waiters n)) p (h.queued n) in
    let (t, w) = told n s (s.waiters n) e p q h in
    let (why, r) = resumed n s t w in
    (
      why,
      ap (λ x. (resume x n s).phases n) p
          ∙ ap (λ (c : Connection). c.phases n) r
          ∙ set-same n (returned why) s.phases,
    )
