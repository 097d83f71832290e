-- ===== src/Ipc/Client/Paired.antt =====
-- A response reaches the call that asked for it, however the tasks are interleaved.
pub mod Routing
pub mod Steps
pub mod Matched
use handfast.Base.{
  ℕ, Bool, true, false, Option, none, some, List, [], ◌∷◌, ◌++◌, ◌==◌, ◌≡◌, ◌≢◌, ◌⊎◌, inl, inr,
  refl, sym, ap, subst, ◌∙◌, arith, All, append-nil, append_assoc, if◌then◌else◌, if_cases,
  Bool-cases,
}
use handfast.Ipc.Client.{
  Connection, Reply, replied, closed, failed, timed_out, Phase, idle, entered, pushed, written,
  waiting, failing, draining, returned, Told, response, hung_up, Frame, event, answer, Reader,
  sweeping, set, enter, hang_up, drain,
}

-- The numbers of the answers that are under way, in order.
unfoldable pub tags : List Frame → List ℕ
tags [] = []
tags (event e ∷ fs) = tags fs
tags (answer m r ∷ fs) = m ∷ tags fs

abbrev pub holder : Option ℕ → List ℕ
holder none = []
holder (some n) = n ∷ []

abbrev pub IsReply : ℕ → Reply → Type 0
IsReply n (replied m r) = m ≡ n
IsReply n _ = Unit

abbrev pub HasOwn : ℕ → Phase → Type 0
HasOwn n (failing why) = IsReply n why
HasOwn n (draining why) = IsReply n why
HasOwn n (returned why) = IsReply n why
HasOwn n _ = Unit

abbrev pub IsOwn : ℕ → Option Told → Type 0
IsOwn n (some (response m r)) = m ≡ n
IsOwn n _ = Unit

abbrev pub Owes : Bool → Phase → Type 0
Owes dead (draining _) = dead ≡ true
Owes dead _ = Unit

abbrev pub ReaderOwes : Bool → Reader → Type 0
ReaderOwes dead sweeping = dead ≡ true
ReaderOwes dead _ = Unit

abbrev pub Holds : Option ℕ → ℕ → Phase → Type 0
Holds lock n pushed = lock ≡ some n
Holds lock n _ = Unit

-- What was sent to a waiter is the response to its request, or nobody waits for it any more.
abbrev pub Kept : Bool → ℕ → Phase → Option Told → Type 0
Kept dead n p w = HasOwn n p × Owes dead p × (IsOwn n w ⊎ ((dead ≡ true) × (p ≢ waiting)))

-- The waiters stand in the order of the requests that are not answered, or the connection is dead and
-- none of the queued calls will read its waiter.
abbrev pub Aligned : Bool → List ℕ → List Frame → List ℕ → Option ℕ → (ℕ → Phase) → Type 0
Aligned dead pending frames requests lock phases =
    (pending ≡ tags frames ++ (requests ++ holder lock))
    ⊎ ((dead ≡ true) × All (λ p. phases p ≢ waiting) pending)

pub record IsPaired (s : Connection) : Type 0 where
  pub aligned : Aligned s.dead s.pending s.frames s.requests s.lock s.phases
  pub kept : (n : ℕ) → Kept s.dead n (s.phases n) (s.waiters n)
  pub holds : (n : ℕ) → Holds s.lock n (s.phases n)
  pub reader_owes : ReaderOwes s.dead s.reader

-- A property of every entry after one was replaced.
pub updated {ℓ κ} :
    {A : Type ℓ} (P : ℕ → A → Type κ) (n : ℕ) (x : A) (f : ℕ → A)
    → P n x
    → ((k : ℕ) → (k == n) ≡ false → P k (f k))
    → (k : ℕ) → P k (set n x f k)
unfolding set
updated P n x f h old k =
    if_cases (P k) (k == n) x (f k) (λ e. subst (λ j. P j x) (sym (same e)) h) (λ e. old k e)
  where
    same : (k == n) ≡ true → k ≡ n
    same e = ground arith

pub All-set :
    (n : ℕ) (x : Phase) (f : ℕ → Phase) (ps : List ℕ)
    → x ≢ waiting
    → All (λ p. f p ≢ waiting) ps
    → All (λ p. set n x f p ≢ waiting) ps
unfolding set
All-set n x f [] h a = tt
All-set n x f (p ∷ ps) h a = (
  if_cases (λ (q : Phase). q ≢ waiting) (p == n) x (f p) (λ _. h) (λ _. a.0),
  All-set n x f ps h a.1,
)

pub All-last : (P : ℕ → Type 0) (ps : List ℕ) (n : ℕ) → All P ps → P n → All P (ps ++ n ∷ [])
All-last P [] n a h = (h, tt)
All-last P (p ∷ ps) n a h = (a.0, All-last P ps n a.1 h)

-- The waiters that a drain reaches have been told nothing wrong.
pub hang_up-Kept :
    (dead : Bool) (phases : ℕ → Phase) (ps : List ℕ) (w : ℕ → Option Told)
    → ((k : ℕ) → Kept dead k (phases k) (w k))
    → (k : ℕ) → Kept dead k (phases k) (hang_up ps w k)
unfolding hang_up
hang_up-Kept dead phases [] w h k = h k
hang_up-Kept dead phases (p ∷ ps) w h k =
    hang_up-Kept dead phases ps (set p (some hung_up) w)
      (updated (λ j v. Kept dead j (phases j) v) p (some hung_up) w ((h p).0, (h p).1, inl tt)
        (λ j _. h j))
      k

-- A call that does not go on to wait enters a phase.
pub enter-IsPaired :
    (n : ℕ) (p : Phase) (s : Connection)
    → p ≢ waiting
    → HasOwn n p
    → Owes s.dead p
    → Holds s.lock n p
    → IsPaired s
    → IsPaired (enter n p s)
enter-IsPaired n p s w own owes hold h = record {
  aligned = elim h.aligned [
    | inl e ↦ inl e
    | inr (d, all) ↦ inr (d, All-set n p s.phases s.pending w all)
  ];
  kept =
      updated (λ k q. Kept s.dead k q (s.waiters k)) n p s.phases
        (own, owes, elim (h.kept n).2 [ inl o ↦ inl o | inr (d, _) ↦ inr (d, w) ])
        (λ k _. h.kept k);
  holds = updated (Holds s.lock) n p s.phases hold (λ k _. h.holds k);
  reader_owes = h.reader_owes;
}

Owes-dead : (d : Bool) (p : Phase) → Owes true p
Owes-dead d (draining _) = refl
Owes-dead d _ = tt

-- The connection is declared dead.
pub dead-IsPaired : (s : Connection) → IsPaired s → IsPaired (record s { dead = true })
dead-IsPaired s h = record {
  aligned = elim h.aligned [ inl e ↦ inl e | inr (_, all) ↦ inr (refl, all) ];
  kept = λ k. (
    (h.kept k).0,
    Owes-dead true (s.phases k),
    elim (h.kept k).2 [ inl o ↦ inl o | inr (_, w) ↦ inr (refl, w) ],
  );
  holds = h.holds;
  reader_owes = owes s.reader;
}
  where
    owes : (r : Reader) → ReaderOwes true r
    owes sweeping = refl
    owes _ = tt

pub drain-IsPaired : (s : Connection) → s.dead ≡ true → IsPaired s → IsPaired (drain s)
unfolding drain
drain-IsPaired s d h = record {
  aligned = inr (d, tt);
  kept = hang_up-Kept s.dead s.phases s.pending s.waiters h.kept;
  holds = h.holds;
  reader_owes = h.reader_owes;
}

pub tags-append : (fs gs : List Frame) → tags (fs ++ gs) ≡ tags fs ++ tags gs
unfolding tags
tags-append [] gs = refl
tags-append (event e ∷ fs) gs = tags-append fs gs
tags-append (answer m r ∷ fs) gs = ap (◌∷◌ m) (tags-append fs gs)

-- A call that has just been queued does not wait.
pub last_pushed : (n : ℕ) (f : ℕ → Phase) → set n pushed f n ≢ waiting
unfolding set
last_pushed n f = let same : (n == n) ≡ true = ground arith in rw same (λ e. cc)
