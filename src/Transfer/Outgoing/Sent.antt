-- ===== src/Transfer/Outgoing/Sent.antt =====
-- What a data connection carries of a file that can be read.
use handfast.Base.{
  ℕ, ◌+◌, ◌≤◌, String, true, false, Option, none, List, [], ◌∷◌, ◌++◌, length, leb, map, concat,
  Chunked, length-append, append-nil, append_assoc, ◌≡◌, refl, ◌∙◌, arith, Bool-cases, inl, inr,
}
use handfast.Transfer.Outgoing.{
  StreamEnv, Streamed, chunk, stream_loop, stream_outgoing, wrote, idle, swept,
}

-- The connection is there, nobody cancels, and each write succeeds.
pub record IsSmooth (env : StreamEnv) : Type 0 where
  pub accepted : env.accepts ≡ true
  pub opened : env.opens ≡ true
  pub kept : (n : ℕ) → env.is_cancelled n ≡ false
  pub written : (n : ℕ) → env.writes n ≡ true

-- No chunk is left once the size is reached.
none_left : (cs : List (List ℕ)) → Chunked cs → length (concat cs) ≤ 0 → concat cs ≡ []
none_left [] h n = refl
none_left ([] ∷ cs) h n = absurd (h.0 refl)
none_left ((b ∷ bs) ∷ cs) h n = absurd (omega arith)

loop_written :
    (env : StreamEnv) (size total : ℕ) (cs : List (List ℕ)) (out : Streamed)
    → IsSmooth env
    → Chunked cs
    → total + length (concat cs) ≤ size
    → out.error ≡ none
    → ((stream_loop env size total (map chunk cs) out).error ≡ none)
      × ((stream_loop env size total (map chunk cs) out).written ≡ out.written ++ concat cs)
unfolding stream_loop
loop_written env size total [] out s h n e =
    (simp (s.kept total, e), simp (s.kept total, append-nil))
loop_written env size total ([] ∷ cs) out s h n e = absurd (h.0 refl)
loop_written env size total ((b ∷ bs) ∷ cs) out s h n e =
    let c = b ∷ bs in
    let total' = total + length c in
    elim (Bool-cases (leb size total')) [
      | inl full ↦
          let gone = none_left cs h.1 (ground (arith, length-append c (concat cs))) in
          (
            simp (s.kept total, s.written total, full, e),
            simp (s.kept total, s.written total, full, gone, append-nil),
          )
      | inr more ↦
          let rec =
            loop_written env size total' cs (wrote c total' size out) s h.1
              (omega (arith, length-append c (concat cs))) e in
          simp (s.kept total, s.written total, more)
            (rec.0, rec.1 ∙ append_assoc out.written c (concat cs))
    ]

-- A file whose reads yield no more bytes than were announced, over a connection that works, goes out
-- whole and in order, the stream ends without an error, and the temporary copy is removed. This holds
-- also for a file that has become shorter than the size that was announced to the peer.
pub stream_outgoing-sends :
    (env : StreamEnv) (cleanup : Option String) (size : ℕ) (chunks : List (List ℕ))
    → IsSmooth env
    → env.reads ≡ map chunk chunks
    → Chunked chunks
    → length (concat chunks) ≤ size
    → ((stream_outgoing env cleanup size).error ≡ none)
      × ((stream_outgoing env cleanup size).written ≡ concat chunks)
      × ((stream_outgoing env cleanup size).removed ≡ swept cleanup)
unfolding stream_outgoing
stream_outgoing-sends env cleanup size chunks s r h n =
    let (e, w) = loop_written env size 0 chunks idle s h (omega arith) refl in
    (simp (s.accepted, s.opened, r) e, simp (s.accepted, s.opened, r) w, refl)
