-- ===== src/Ipc/Codec/Pipelined.antt =====
-- Frames written back to back are all returned, in order.
use handfast.Base.{
  ℕ, ◌≤◌, ◌≡◌, refl, ap, ◌∙◌, List, [], ◌∷◌, ◌++◌, length, concat, Chunked, append_assoc, arith,
}
use handfast.Ipc.Codec.{max_frame_bytes, Result, ok, err, ◌>>=◌, write_frame, write_all, next_all}
use handfast.Ipc.Codec.Frames.{framed, next-Found}

bind-eq-ok :
    {A B : Type 0} {out : B} (first : Result A) (next : A → Result B)
    → (first >>= next) ≡ ok out
    → (a : A) × (next a ≡ ok out) × (first ≡ ok a)
bind-eq-ok (err e) f h = cc
bind-eq-ok (ok a) f h = (a, h, refl)

write_frame-ok :
    (payload bytes : List ℕ)
    → write_frame payload ≡ ok bytes
    → (length payload ≤ max_frame_bytes) × (bytes ≡ framed payload)
unfolding write_frame
write_frame-ok payload bytes h = ground arith

-- Messages that were written are all read, in order, whatever the chunks, and what was written
-- behind them is still in the buffer or in the stream.
pub next_all-write_all :
    (ps : List (List ℕ)) (bytes more buf : List ℕ) (reads : List (List ℕ))
    → write_all ps ≡ ok bytes
    → Chunked reads
    → buf ++ concat reads ≡ bytes ++ more
    → (buf' : List ℕ) × (reads' : List (List ℕ)) × (next_all ps buf reads ≡ ok (ps, buf', reads'))
      × (buf' ++ concat reads' ≡ more)
unfolding write_all next_all
next_all-write_all [] bytes more buf reads w c e = (buf, reads, refl, cc)
next_all-write_all (p ∷ ps) bytes more buf reads w c e =
    let (bs, w2, w1) =
      bind-eq-ok (write_frame p) (λ bs. write_all ps >>= λ rest. ok (bs ++ rest)) w in
    let (rest, w4, w3) = bind-eq-ok (write_all ps) (λ rest. ok (bs ++ rest)) w2 in
    let (fits, ef) = write_frame-ok p bs w1 in
    let eb : bytes ≡ framed p ++ rest = cc in
    let found =
      next-Found p (rest ++ more) buf reads fits c
        (e ∙ ap (λ f. f ++ more) eb ∙ append_assoc (framed p) rest more) in
    let (buf', reads', r, f) =
      next_all-write_all ps rest more found.buf found.reads w3 found.chunked found.following in
    (buf', reads', rw (found.returned, r), f)
