-- ===== src/Ipc/Client/Paired/Matched.antt =====
-- What a call returns on a shared connection.
use handfast.Base.{ℕ, true, List, [], ◌∷◌, ◌≡◌, inl, refl, subst, All}
use handfast.Ipc.Proto.{Response, ServerEvent}
use handfast.Ipc.Client.{Connection, replied, returned, Move, advance, run, connect}
use handfast.Ipc.Client.Paired.{IsPaired, HasOwn, tags}
use handfast.Ipc.Client.Paired.Steps.{advance-IsPaired, is_fine}

connect-IsPaired : (e : ServerEvent) → IsPaired (connect e)
unfolding tags
connect-IsPaired e = record {
  aligned = inl refl;
  kept = λ n. (tt, tt, inl tt);
  holds = λ n. tt;
  reader_owes = tt;
}

run-IsPaired :
    (acts : List Move) (s : Connection)
    → All (λ a. is_fine a ≡ true) acts
    → IsPaired s
    → IsPaired (run acts s)
unfolding run
run-IsPaired [] s f h = h
run-IsPaired (a ∷ acts) s f h = run-IsPaired acts (advance a s) f.1 (advance-IsPaired a s f.0 h)

-- However the calls, the reader and the daemon are interleaved, and wherever a call times out, the
-- reading fails or the connection is declared dead: a call that returns a response returns the one that
-- the daemon gave to its own request. The condition is that no request fails to be written.
pub response_matches :
    (greeting : ServerEvent) (acts : List Move) (n m : ℕ) (r : Response)
    → All (λ a. is_fine a ≡ true) acts
    → (run acts (connect greeting)).phases n ≡ returned (replied m r)
    → m ≡ n
response_matches greeting acts n m r f e =
    subst (HasOwn n) e
      ((run-IsPaired acts (connect greeting) f (connect-IsPaired greeting)).kept n).0
