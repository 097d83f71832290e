-- ===== src/Transfer/Stream/Delivery.antt =====
-- A file whose sender streams it whole is delivered byte for byte, and the loop ends.
use handfast.Base.{
  ℕ, zero, suc, ◌+◌, ◌-◌, ◌%◌, ◌^◌, ◌≤◌, ◌<◌, ◌≡◌, ◌≢◌, refl, sym, ap, subst, ◌∙◌, String, false,
  none, some, List, [], ◌∷◌, ◌++◌, length, length-take, length-drop, take, drop, leb, min,
  if◌then◌else◌, if_cases, leb→le, lookup, insert, lookup-insert, str_eq_iff, arith, append-nil,
  append_assoc,
}
use native.Mathlib.Decide.{dec_lt}
use native.Mathlib.Nat.{mod-eq_of_lt}
use handfast.Transfer.Engine.{Engine, Io, IncomingTransfer, ok, chunk_size, write_file, write_chunk}
use handfast.Transfer.Engine.Slots.{write_file_self, write_file_ne}
use handfast.Transfer.Stream.{Env, Outcome, finish, round, receive_known}

-- The environment refuses nothing that the loop asks for.
pub record IsQuiet (env : Env) : Type 0 where
  pub opens : (n : ℕ) → (env.sys n).fails_open ≡ false
  pub writes : (n : ℕ) → (env.sys n).short_write ≡ none
  pub runs : (n : ℕ) → env.cancelled n ≡ false

-- A transfer that has stored `content`, and nothing else of the engine matters to its loop.
pub record Holds (e : Engine) (id : String) (t : IncomingTransfer) (content : List ℕ) : Type 0 where
  pub active : lookup id e.incoming ≡ some t
  pub staged : e.files t.part_path ≡ some content

-- The engine after a chunk is stored.
abbrev pub with_chunk : Engine → String → IncomingTransfer → List ℕ → List ℕ → Engine
with_chunk e id t content bytes = record {
  files = write_file t.part_path (some (content ++ bytes)) e.files;
  incoming = insert id (record t { received = t.received + length bytes }) e.incoming;
}

write_chunk-stores :
    (sys : Io) (e : Engine) (id : String) (t : IncomingTransfer) (content bytes : List ℕ)
    → sys.fails_open ≡ false
    → sys.short_write ≡ none
    → Holds e id t content
    → length bytes ≤ chunk_size
    → t.received + length bytes ≤ t.meta.file_size
    → t.meta.file_size < 2 ^ 64
    → write_chunk sys e id bytes ≡ (ok (t.received + length bytes), with_chunk e id t content bytes)
unfolding write_chunk
write_chunk-stores sys e id t content bytes o s h c f m =
    let wrap : (t.received + length bytes) % 2 ^ 64 ≡ t.received + length bytes =
      mod-eq_of_lt (omega arith) in
    ground (arith, h.active, h.staged, wrap)

Holds-with_chunk :
    (e : Engine) (id : String) (t : IncomingTransfer) (content bytes : List ℕ)
    → Holds e id t content
    → Holds
        (with_chunk e id t content bytes)
        id
        (record t { received = t.received + length bytes })
        (content ++ bytes)
Holds-with_chunk e id t content bytes h = record {
  active = ground (
    arith,
    lookup-insert id id (record t { received = t.received + length bytes }) e.incoming,
    str_eq_iff id id,
  );
  staged = write_file_self t.part_path (some (content ++ bytes)) e.files;
}

take-add : (a b : ℕ) (s : List ℕ) → take (a + b) s ≡ take a s ++ take b (drop a s)
take-add zero b s = rw (let z : zero + b ≡ b = omega arith in z)
take-add (suc a) b [] = rw (let z : suc a + b ≡ suc (a + b) = omega arith in z) (nil b)
  where
    nil : (b : ℕ) → ◌≡◌ {A = List ℕ} [] (take b [])
    nil zero = refl
    nil (suc b) = refl
take-add (suc a) b (x ∷ s) =
    rw (let z : suc a + b ≡ suc (a + b) = omega arith in z) (ap (◌∷◌ x) (take-add a b s))

-- The end of the loop: every byte is stored, nothing but the staging file changed, and what is
-- left is to finish.
pub record Loaded (env : Env) (e : Engine) (id : String) (t : IncomingTransfer) (content : List ℕ)
    (o : Outcome) : Type 0 where
  pub last : Engine
  pub entry : IncomingTransfer
  pub progress : List ℕ
  pub holds : Holds last id entry content
  pub meta : entry.meta ≡ t.meta
  pub part : entry.part_path ≡ t.part_path
  pub final : entry.final_name ≡ t.final_name
  pub received : entry.received ≡ t.meta.file_size
  pub others : (n : List ℕ) → n ≢ t.part_path → last.files n ≡ e.files n
  pub returned : o ≡ finish env id last t.meta.file_size progress

module _ (env : Env) (id : String) (quiet : IsQuiet env) (size done : ℕ) (e : Engine)
    (stream progress : List ℕ) (more : Engine → Outcome) where
  round_end :
      size ≤ done → round env id size e stream done progress more ≡ finish env id e done progress
  unfolding round
  round_end h = rw (quiet.runs done) (ground arith)

  round_stored :
      (e' : Engine) (n want : ℕ)
      → want ≡ min chunk_size (size - done)
      → done < size
      → size - done ≤ length stream
      → write_chunk (env.sys done) e id (take want stream) ≡ (ok n, e')
      → round env id size e stream done progress more ≡ (
          if leb size (done + want)
          then finish env id e' (done + want) ((done + want) ∷ progress)
          else more e')
  unfolding round
  round_stored e' n want ew l s w = rw (← ew, quiet.runs done, w) (ground arith)

-- Nothing is left to read.
Loaded-finish :
    (env : Env) (id : String) (size done rest : ℕ) (e : Engine) (t : IncomingTransfer)
    (content stream progress : List ℕ)
    → Holds e id t content
    → t.received ≡ done
    → t.meta.file_size ≡ size
    → done ≡ size
    → rest ≡ 0
    → Loaded env e id t (content ++ take rest stream) (finish env id e done progress)
Loaded-finish env id size done rest e t content stream progress h r m d z =
    rw (z, append-nil content)
      (record {
        last = e;
        entry = t;
        progress = progress;
        holds = h;
        meta = refl;
        part = refl;
        final = refl;
        received = r ∙ d ∙ sym m;
        others = λ n _. refl;
        returned = ap (λ n. finish env id e n progress) (d ∙ sym m);
      })

-- What one more chunk adds to a loop that goes on from it.
Loaded-chunk :
    (env : Env) (e : Engine) (id : String) (t : IncomingTransfer) (content bytes rest : List ℕ)
    (o : Outcome)
    → Loaded env
        (with_chunk e id t content bytes)
        id
        (record t { received = t.received + length bytes })
        ((content ++ bytes) ++ rest)
        o
    → Loaded env e id t (content ++ (bytes ++ rest)) o
Loaded-chunk env e id t content bytes rest o l = record {
  last = l.last;
  entry = l.entry;
  progress = l.progress;
  holds = subst (Holds l.last id l.entry) (append_assoc content bytes rest) l.holds;
  meta = l.meta;
  part = l.part;
  final = l.final;
  received = l.received;
  others = λ n ne.
      l.others n ne
      ∙ write_file_ne t.part_path n (some (content ++ bytes)) e.files (λ q. ne (sym q));
  returned = l.returned;
}

Loaded-outcome :
    (env : Env) (e : Engine) (id : String) (t : IncomingTransfer) (content : List ℕ)
    {o o' : Outcome}
    → o ≡ o'
    → Loaded env e id t content o'
    → Loaded env e id t content o
Loaded-outcome env e id t content q l = subst (Loaded env e id t content) (sym q) l

module _ (env : Env) (id : String) (quiet : IsQuiet env) where
  pub receive_known-Loaded :
      (fuel size done : ℕ) (e : Engine) (t : IncomingTransfer) (content stream progress : List ℕ)
      → Holds e id t content
      → t.received ≡ done
      → t.meta.file_size ≡ size
      → size < 2 ^ 64
      → done ≤ size
      → size - done ≤ length stream
      → size - done < fuel
      → Loaded env e id t
          (content ++ take (size - done) stream)
          (receive_known fuel env id size e stream done progress)
  unfolding receive_known
  receive_known-Loaded zero size done e t content stream progress h r m b d s f =
      absurd (omega arith)
  receive_known-Loaded (suc fuel) size done e t content stream progress h r m b d s f =
      let want : ℕ = min chunk_size (size - done) in
      let next : ℕ = done + want in
      let more : Engine → Outcome =
        λ e'. receive_known fuel env id size e' (drop want stream) next (next ∷ progress) in
      elim (dec_lt done size) [
        | no last ↦
            Loaded-outcome env e id t (content ++ take (size - done) stream)
              (round_end env id quiet size done e stream progress more (omega arith))
              (Loaded-finish env id size done (size - done) e t content stream progress h r m
                (omega arith) (omega arith))
        | yes l ↦
            let chunk : List ℕ = take want stream in
            let len : length chunk ≡ want = length-take want stream (omega arith) in
            let e1 : Engine = with_chunk e id t content chunk in
            let t1 : IncomingTransfer = record t { received = t.received + length chunk } in
            let h1 = Holds-with_chunk e id t content chunk h in
            let stores =
              write_chunk-stores (env.sys done) e id t content chunk (quiet.opens done)
                (quiet.writes done) h (omega (arith, len)) (omega (arith, len, r, m))
                (omega (arith, m)) in
            let left : ℕ = size - next in
            let outcome : Outcome =
              if leb size next then finish env id e1 next (next ∷ progress) else more e1 in
            let tail : Loaded env e1 id t1 ((content ++ chunk) ++ take left (drop want stream))
                outcome =
              if_cases (Loaded env e1 id t1 ((content ++ chunk) ++ take left (drop want stream)))
                (leb size next) (finish env id e1 next (next ∷ progress)) (more e1)
                (λ q.
                  Loaded-finish env id size next left e1 t1 (content ++ chunk) (drop want stream)
                    (next ∷ progress) h1 (omega (arith, len, r)) m
                    (omega (arith, leb→le size next q)) (omega (arith, leb→le size next q)))
                (λ q.
                  receive_known-Loaded fuel size next e1 t1 (content ++ chunk) (drop want stream)
                    (next ∷ progress) h1 (omega (arith, len, r)) m b (omega arith)
                    (omega (arith, length-drop want stream)) (omega arith)) in
            let split : take (size - done) stream ≡ chunk ++ take left (drop want stream) =
              ap (λ n. take n stream) (let z : size - done ≡ want + left = omega arith in z)
              ∙ take-add want left stream in
            Loaded-outcome env e id t (content ++ take (size - done) stream)
              (round_stored env id quiet size done e stream progress more e1
                (t.received + length chunk) want refl l s stores)
              (subst (λ c. Loaded env e id t (content ++ c) outcome) (sym split)
                (Loaded-chunk env e id t content chunk (take left (drop want stream)) outcome tail))
      ]
