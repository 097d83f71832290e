-- ===== src/Ipc/Client/Paired/Steps.antt =====
-- Every move keeps the waiters in the order of the requests.
use handfast.Base.{
  ℕ, Bool, true, false, Option, none, some, List, [], ◌∷◌, ◌++◌, ◌==◌, ◌≡◌, inl, inr, refl, sym, ap,
  subst, ◌∙◌, arith, append-nil, append_assoc, if_cases, Option-cases,
}
use handfast.Ipc.Client.{
  Connection, replied, closed, timed_out, Phase, idle, entered, pushed, written, waiting, failing,
  draining, returned, Told, response, hung_up, set, enter, drain, request, push, write, check,
  resume, expire, fail_all_pending, Move, advance, starts, pushes, checks, resumes, expires, fails,
  writes, reads, breaks, serves, publishes,
}
use handfast.Ipc.Client.Paired.{
  tags, holder, IsOwn, HasOwn, Owes, Holds, Kept, IsPaired, updated, All-set, All-last,
  enter-IsPaired, dead-IsPaired, drain-IsPaired, last_pushed,
}
use handfast.Ipc.Client.Paired.Routing.{
  reader_loop-IsPaired, break_off-IsPaired, serve-IsPaired, publish-IsPaired,
}

request-IsPaired : (p : Phase) (n : ℕ) (s : Connection) → IsPaired s → IsPaired (request p n s)
unfolding request
request-IsPaired idle n s h =
    if_cases IsPaired s.dead _ _ (λ _. enter-IsPaired n (returned closed) s (λ e. cc) tt tt tt h)
      (λ _. enter-IsPaired n entered s (λ e. cc) tt tt tt h)
request-IsPaired _ n s h = h

snoc : (xs ys : List ℕ) (n : ℕ) → (xs ++ (ys ++ [])) ++ n ∷ [] ≡ xs ++ (ys ++ n ∷ [])
snoc xs ys n = ap (λ zs. (xs ++ zs) ++ n ∷ []) (append-nil ys) ∙ append_assoc xs ys (n ∷ [])

-- A call takes the free lock.
pushed-IsPaired :
    (n : ℕ) (s : Connection)
    → s.lock ≡ none
    → IsPaired s
    → IsPaired
        (record s { lock = some n; pending = s.pending ++ n ∷ []; phases = set n pushed s.phases })
pushed-IsPaired n s free h = record {
  aligned = elim h.aligned [
    | inl e ↦ inl (
        ap (λ ps. ps ++ n ∷ []) e
        ∙ ap (λ l. (tags s.frames ++ (s.requests ++ holder l)) ++ n ∷ []) free
        ∙ snoc (tags s.frames) s.requests n)
    | inr (d, all) ↦ inr (
      d,
      All-last _ s.pending n (All-set n pushed s.phases s.pending (λ e. cc) all)
          (λ e. absurd (last_pushed n s.phases e)),
    )
  ];
  kept =
      updated (λ k q. Kept s.dead k q (s.waiters k)) n pushed s.phases
        (tt, tt, elim (h.kept n).2 [ inl o ↦ inl o | inr (d, _) ↦ inr (d, λ e. cc) ])
        (λ k _. h.kept k);
  holds =
      updated (Holds (some n)) n pushed s.phases refl
        (λ k _. none_held k (s.phases k) (subst (λ l. Holds l k (s.phases k)) free (h.holds k)));
  reader_owes = h.reader_owes;
}
  where
    none_held : (k : ℕ) (p : Phase) → Holds none k p → Holds (some n) k p
    none_held k pushed e = absurd (cc)
    none_held k _ e = tt

push-IsPaired : (p : Phase) (n : ℕ) (s : Connection) → IsPaired s → IsPaired (push p n s)
unfolding push
push-IsPaired entered n s h = elim (Option-cases s.lock) [
  | inl e ↦ rw (e, push) (pushed-IsPaired n s e h)
  | inr (k, e) ↦ rw (e, push) h
]
push-IsPaired _ n s h = h

-- The lock is given back with the request on its way.
written-IsPaired :
    (n : ℕ) (s : Connection)
    → s.phases n ≡ pushed
    → IsPaired s
    → IsPaired
        (record s { lock = none; requests = s.requests ++ n ∷ []; phases = set n written s.phases })
written-IsPaired n s p h =
    let held : s.lock ≡ some n = subst (Holds s.lock n) p (h.holds n) in
    record {
      aligned = elim h.aligned [
        | inl e ↦ inl (
            e
            ∙ ap (λ l. tags s.frames ++ (s.requests ++ holder l)) held
            ∙ ap (λ ys. tags s.frames ++ ys) (sym (append-nil (s.requests ++ n ∷ []))))
        | inr (d, all) ↦ inr (d, All-set n written s.phases s.pending (λ e. cc) all)
      ];
      kept =
          updated (λ k q. Kept s.dead k q (s.waiters k)) n written s.phases
            (tt, tt, elim (h.kept n).2 [ inl o ↦ inl o | inr (d, _) ↦ inr (d, λ e. cc) ])
            (λ k _. h.kept k);
      holds =
          updated (Holds none) n written s.phases tt
            (λ k e. freed k (s.phases k) e (subst (λ l. Holds l k (s.phases k)) held (h.holds k)));
      reader_owes = h.reader_owes;
    }
  where
    freed : (k : ℕ) (q : Phase) → (k == n) ≡ false → Holds (some n) k q → Holds none k q
    freed k pushed other e = let same : n ≡ k = cc in ground arith
    freed k _ other e = tt

write-IsPaired :
    (p : Phase) (n : ℕ) (s : Connection) → s.phases n ≡ p → IsPaired s → IsPaired (write true p n s)
unfolding write
write-IsPaired pushed n s e h = written-IsPaired n s e h
write-IsPaired _ n s e h = h

check-IsPaired : (p : Phase) (n : ℕ) (s : Connection) → IsPaired s → IsPaired (check p n s)
unfolding check
check-IsPaired written n s h =
    if_cases IsPaired s.dead _ _ (λ _. enter-IsPaired n (returned closed) s (λ e. cc) tt tt tt h)
      (λ alive. record {
        aligned = elim h.aligned [ inl e ↦ inl e | inr (d, _) ↦ absurd (cc) ];
        kept =
            updated (λ k q. Kept s.dead k q (s.waiters k)) n waiting s.phases
              (tt, tt, elim (h.kept n).2 [ inl o ↦ inl o | inr (d, _) ↦ absurd (cc) ])
              (λ k _. h.kept k);
        holds = updated (Holds s.lock) n waiting s.phases tt (λ k _. h.holds k);
        reader_owes = h.reader_owes;
      })
check-IsPaired _ n s h = h

-- What a waiting call reads is the response to its request.
own : (n : ℕ) (s : Connection) → s.phases n ≡ waiting → IsPaired s → IsOwn n (s.waiters n)
own n s p h = elim (h.kept n).2 [ inl o ↦ o | inr (_, w) ↦ absurd (w p) ]

resume-IsPaired :
    (p : Phase) (n : ℕ) (s : Connection) → s.phases n ≡ p → IsPaired s → IsPaired (resume p n s)
unfolding resume
resume-IsPaired waiting n s e h = told (s.waiters n) (own n s e h)
  where
    told :
        (w : Option Told)
        → IsOwn n w
        → IsPaired (elim w [
          | none ↦ s
          | some (response m r) ↦ enter n (returned (replied m r)) s
          | some hung_up ↦ enter n (returned closed) s
        ])
    told none o = h
    told (some (response m r)) o = enter-IsPaired n (returned (replied m r)) s (λ e. cc) o tt tt h
    told (some hung_up) o = enter-IsPaired n (returned closed) s (λ e. cc) tt tt tt h
resume-IsPaired _ n s e h = h

expire-IsPaired : (p : Phase) (n : ℕ) (s : Connection) → IsPaired s → IsPaired (expire p n s)
unfolding expire
expire-IsPaired waiting n s h = elim (Option-cases (s.waiters n)) [
  | inl e ↦ rw (e, expire) (enter-IsPaired n (failing timed_out) s (λ e. cc) tt tt tt h)
  | inr (k, e) ↦ rw (e, expire) h
]
expire-IsPaired _ n s h = h

fail-IsPaired :
    (p : Phase) (n : ℕ) (s : Connection)
    → s.phases n ≡ p
    → IsPaired s
    → IsPaired (fail_all_pending p n s)
unfolding fail_all_pending
fail-IsPaired (failing why) n s e h =
    enter-IsPaired n (draining why) (record s { dead = true }) (λ e. cc)
      (subst (HasOwn n) e (h.kept n).0) refl tt (dead-IsPaired s h)
fail-IsPaired (draining why) n s e h =
    let d : s.dead ≡ true = subst (Owes s.dead) e (h.kept n).1 in
    enter-IsPaired n (returned why) (drain s) (λ e. cc) (subst (HasOwn n) e (h.kept n).0) tt tt
      (drain-IsPaired s d h)
fail-IsPaired _ n s e h = h

-- `write_frame` does not fail.
abbrev pub is_fine : Move → Bool
is_fine (writes fine _) = fine
is_fine _ = true

pub advance-IsPaired :
    (a : Move) (s : Connection) → is_fine a ≡ true → IsPaired s → IsPaired (advance a s)
unfolding advance
advance-IsPaired (starts n) s f h = request-IsPaired (s.phases n) n s h
advance-IsPaired (pushes n) s f h = push-IsPaired (s.phases n) n s h
advance-IsPaired (writes true n) s f h = write-IsPaired (s.phases n) n s refl h
advance-IsPaired (writes false n) s f h = absurd (cc)
advance-IsPaired (checks n) s f h = check-IsPaired (s.phases n) n s h
advance-IsPaired (resumes n) s f h = resume-IsPaired (s.phases n) n s refl h
advance-IsPaired (expires n) s f h = expire-IsPaired (s.phases n) n s h
advance-IsPaired (fails n) s f h = fail-IsPaired (s.phases n) n s refl h
advance-IsPaired reads s f h = reader_loop-IsPaired s.reader s refl h
advance-IsPaired breaks s f h = break_off-IsPaired s.reader s h
advance-IsPaired (serves r) s f h = serve-IsPaired s.requests r s refl h
advance-IsPaired (publishes e) s f h = publish-IsPaired e s h
