-- ===== src/Ipc/Client/Paired/Routing.antt =====
-- The reader and the daemon keep the waiters in the order of the requests.
use handfast.Base.{
  ℕ, true, some, List, [], ◌∷◌, ◌++◌, ◌≡◌, ◌≢◌, ◌⊎◌, inl, inr, refl, sym, ap, subst, ◌∙◌,
  append-nil, append_assoc,
}
use handfast.Ipc.Proto.{Response, ServerEvent}
use handfast.Ipc.Client.{
  Connection, waiting, response, Frame, event, answer, Reader, reading, ending, sweeping, ended,
  drain, route, read_one, reader_loop, break_off, serve,
}
use handfast.Ipc.Client.Paired.{
  tags, holder, ReaderOwes, Kept, Aligned, IsPaired, updated, dead-IsPaired, drain-IsPaired,
  tags-append,
}

route-IsPaired :
    (ps : List ℕ) (m : ℕ) (r : Response) (fs : List Frame) (s : Connection)
    → s.pending ≡ ps
    → s.frames ≡ answer m r ∷ fs
    → IsPaired s
    → IsPaired (route ps m r fs s)
unfolding route tags
route-IsPaired [] m r fs s e f h = record {
  aligned = elim h.aligned [
    | inl q ↦ absurd (nothing (sym e ∙ q ∙ ap (λ gs. tags gs ++ (s.requests ++ holder s.lock)) f))
    | inr late ↦ inr late
  ];
  kept = h.kept;
  holds = h.holds;
  reader_owes = tt;
}
  where
    nothing : [] ≢ tags (answer m r ∷ fs) ++ (s.requests ++ holder s.lock)
    nothing q = cc
route-IsPaired (p ∷ ps) m r fs s e f h =
    let at : Aligned s.dead (p ∷ ps) (answer m r ∷ fs) s.requests s.lock s.phases =
      subst (λ gs. Aligned s.dead (p ∷ ps) gs s.requests s.lock s.phases) f
        (subst (λ qs. Aligned s.dead qs s.frames s.requests s.lock s.phases) e h.aligned) in
    record {
      aligned = rest at;
      kept =
          updated (λ k w. Kept s.dead k (s.phases k) w) p (some (response m r)) s.waiters
            ((h.kept p).0, (h.kept p).1, oldest at) (λ k _. h.kept k);
      holds = h.holds;
      reader_owes = h.reader_owes;
    }
  where
    rest :
        Aligned s.dead (p ∷ ps) (answer m r ∷ fs) s.requests s.lock s.phases
        → Aligned s.dead ps fs s.requests s.lock s.phases
    rest (inl q) = inl cc
    rest (inr (d, all)) = inr (d, all.1)

    oldest :
        Aligned s.dead (p ∷ ps) (answer m r ∷ fs) s.requests s.lock s.phases
        → (m ≡ p) ⊎ ((s.dead ≡ true) × (s.phases p ≢ waiting))
    oldest (inl q) = inl cc
    oldest (inr (d, all)) = inr (d, all.0)

read_one-IsPaired :
    (fs : List Frame) (s : Connection) → s.frames ≡ fs → IsPaired s → IsPaired (read_one fs s)
unfolding read_one tags
read_one-IsPaired [] s f h = h
read_one-IsPaired (event e ∷ fs) s f h = record {
  aligned =
      skipped (subst (λ gs. Aligned s.dead s.pending gs s.requests s.lock s.phases) f h.aligned);
  kept = h.kept;
  holds = h.holds;
  reader_owes = h.reader_owes;
}
  where
    skipped :
        Aligned s.dead s.pending (event e ∷ fs) s.requests s.lock s.phases
        → Aligned s.dead s.pending fs s.requests s.lock s.phases
    skipped a = a
read_one-IsPaired (answer m r ∷ fs) s f h = route-IsPaired s.pending m r fs s refl f h

-- The reader goes on to another stage.
turned-IsPaired :
    (r : Reader) (s : Connection)
    → ReaderOwes s.dead r
    → IsPaired s
    → IsPaired (record s { reader = r })
turned-IsPaired r s o h = record {
  aligned = h.aligned;
  kept = h.kept;
  holds = h.holds;
  reader_owes = o;
}

-- The daemon moves the front of its requests to the end of the frames.
moved-IsPaired :
    (ms : List ℕ) (fs : List Frame) (s : Connection)
    → Aligned s.dead s.pending fs ms s.lock s.phases
    → IsPaired s
    → IsPaired (record s { requests = ms; frames = fs })
moved-IsPaired ms fs s a h = record {
  aligned = a;
  kept = h.kept;
  holds = h.holds;
  reader_owes = h.reader_owes;
}

pub reader_loop-IsPaired :
    (r : Reader) (s : Connection) → s.reader ≡ r → IsPaired s → IsPaired (reader_loop r s)
unfolding reader_loop
reader_loop-IsPaired reading s e h = read_one-IsPaired s.frames s refl h
reader_loop-IsPaired ending s e h =
    turned-IsPaired sweeping (record s { dead = true }) refl (dead-IsPaired s h)
reader_loop-IsPaired sweeping s e h =
    let d : s.dead ≡ true = subst (ReaderOwes s.dead) e h.reader_owes in
    turned-IsPaired ended (drain s) tt (drain-IsPaired s d h)
reader_loop-IsPaired ended s e h = h

pub break_off-IsPaired : (r : Reader) (s : Connection) → IsPaired s → IsPaired (break_off r s)
unfolding break_off
break_off-IsPaired reading s h = turned-IsPaired ending s tt h
break_off-IsPaired _ s h = h

pub serve-IsPaired :
    (ms : List ℕ) (r : Response) (s : Connection)
    → s.requests ≡ ms
    → IsPaired s
    → IsPaired (serve ms r s)
unfolding serve tags
serve-IsPaired [] r s e h = h
serve-IsPaired (m ∷ ms) r s e h =
    moved-IsPaired ms (s.frames ++ answer m r ∷ []) s
      (elim h.aligned [
        | inl q ↦ inl (
            q
            ∙ ap (λ ns. tags s.frames ++ (ns ++ holder s.lock)) e
            ∙ sym (append_assoc (tags s.frames) (m ∷ []) (ms ++ holder s.lock))
            ∙ ap (λ ts. ts ++ (ms ++ holder s.lock)) (sym (tags_last s.frames m r)))
        | inr late ↦ inr late
      ])
      h
  where
    tags_last :
        (fs : List Frame) (k : ℕ) (x : Response) → tags (fs ++ answer k x ∷ []) ≡ tags fs ++ k ∷ []
    tags_last fs k x = tags-append fs (answer k x ∷ [])

pub publish-IsPaired :
    (e : ServerEvent) (s : Connection)
    → IsPaired s
    → IsPaired (record s { frames = s.frames ++ event e ∷ [] })
unfolding tags
publish-IsPaired e s h =
    moved-IsPaired s.requests (s.frames ++ event e ∷ []) s
      (elim h.aligned [
        | inl q ↦ inl (q ∙ ap (λ ts. ts ++ (s.requests ++ holder s.lock)) (sym (same s.frames)))
        | inr late ↦ inr late
      ])
      h
  where
    same : (fs : List Frame) → tags (fs ++ event e ∷ []) ≡ tags fs
    same fs = tags-append fs (event e ∷ []) ∙ append-nil (tags fs)
