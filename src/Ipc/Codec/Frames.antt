-- ===== src/Ipc/Codec/Frames.antt =====
-- One frame: what `next` returns, whatever the chunks in which the stream arrives.
use handfast.Base.{
  ℕ, ◌+◌, ◌/◌, ◌%◌, ◌≤◌, ◌<◌, ◌≡◌, ◌≢◌, refl, sym, ap, subst, ◌∙◌, List, [], ◌∷◌, ◌++◌, length,
  length-append, take-length-append, drop-length-append, concat, Chunked, append-align,
  append_assoc, append-nil, arith, lt→ltb,
}
use native.Mathlib.Decide.{dec_lt}
use handfast.Ipc.Codec.{
  max_frame_bytes, Result, ok, err, frame_too_large, closed, to_le_bytes, from_le_bytes, frame,
  too_large, partial, carve, carve_declared, Read, settle, next,
}

-- A payload behind its length.
abbrev pub framed : List ℕ → List ℕ
framed payload = to_le_bytes (length payload) ++ payload

from-to :
    (n : ℕ)
    → n < 4294967296
    → from_le_bytes (n % 256) (n / 256 % 256) (n / 65536 % 256) (n / 16777216 % 256) ≡ n
from-to n h = omega arith

carve_declared-full :
    (payload t : List ℕ) (n : ℕ)
    → length payload ≤ max_frame_bytes
    → n ≡ length payload
    → carve_declared n (payload ++ t) ≡ frame payload t
unfolding carve_declared
carve_declared-full payload t n h e = rw e (
    ground
      (arith, length-append payload t, take-length-append payload t, drop-length-append payload t))

carve-full :
    (payload t : List ℕ)
    → length payload ≤ max_frame_bytes
    → carve (framed payload ++ t) ≡ frame payload t
unfolding carve to_le_bytes
carve-full payload t h = carve_declared-full payload t _ h (from-to (length payload) (omega arith))

carve-partial :
    (buf r payload more : List ℕ)
    → length payload ≤ max_frame_bytes
    → buf ++ r ≡ framed payload ++ more
    → length buf < 4 + length payload
    → carve buf ≡ partial
unfolding carve carve_declared to_le_bytes
carve-partial [] r p m h e l = refl
carve-partial (a ∷ []) r p m h e l = refl
carve-partial (a ∷ b ∷ []) r p m h e l = refl
carve-partial (a ∷ b ∷ c ∷ []) r p m h e l = refl
carve-partial (a ∷ b ∷ c ∷ d ∷ t) r p m h e l =
    let n = length p in
    let ea : a ≡ n % 256 = cc in
    let eb : b ≡ n / 256 % 256 = cc in
    let ec : c ≡ n / 65536 % 256 = cc in
    let ed : d ≡ n / 16777216 % 256 = cc in
    let declared : from_le_bytes a b c d ≡ length p = omega arith in rw declared (ground arith)

-- A call of `next` that found a frame: the payload, and where the bytes behind it are.
pub record Found (payload more : List ℕ) (result : Result Read) : Type 0 where
  pub buf : List ℕ
  pub reads : List (List ℕ)
  pub returned : result ≡ ok (payload, buf, reads)
  pub following : buf ++ concat reads ≡ more
  pub chunked : Chunked reads

next-frame :
    (payload buf : List ℕ) (reads : List (List ℕ))
    → length payload ≤ max_frame_bytes
    → next (framed payload ++ buf) reads ≡ ok (payload, buf, reads)
unfolding next settle
next-frame payload buf [] h = rw (carve-full payload buf h, settle)
next-frame payload buf ([] ∷ reads) h = rw (carve-full payload buf h, settle)
next-frame payload buf ((b ∷ bs) ∷ reads) h = rw (carve-full payload buf h, settle)

next-partial :
    (buf c : List ℕ) (reads : List (List ℕ))
    → c ≢ []
    → carve buf ≡ partial
    → next buf (c ∷ reads) ≡ next (buf ++ c) reads
unfolding next settle
next-partial buf [] reads n h = absurd (n refl)
next-partial buf (b ∷ bs) reads n h = rw (h, settle)

length-framed : (payload : List ℕ) → length (framed payload) ≡ 4 + length payload
unfolding to_le_bytes
length-framed payload = omega arith

-- The frame is in the buffer already.
next-buffered :
    (payload more buf : List ℕ) (reads : List (List ℕ))
    → length payload ≤ max_frame_bytes
    → Chunked reads
    → buf ++ concat reads ≡ framed payload ++ more
    → length (framed payload) ≤ length buf
    → Found payload more (next buf reads)
next-buffered payload more buf reads h c e full =
    let (rest, eb, em) = append-align (framed payload) more buf (concat reads) full (sym e) in
    record {
      buf = rest;
      reads = reads;
      returned = ap (λ b. next b reads) eb ∙ next-frame payload rest reads h;
      following = sym em;
      chunked = c;
    }

-- A frame of at most `max_frame_bytes` is returned whatever the chunks, and no byte behind it is
-- lost: it stays in the buffer or in the stream.
pub next-Found :
    (payload more buf : List ℕ) (reads : List (List ℕ))
    → length payload ≤ max_frame_bytes
    → Chunked reads
    → buf ++ concat reads ≡ framed payload ++ more
    → Found payload more (next buf reads)
next-Found payload more buf [] h c e =
    next-buffered payload more buf [] h c e
      (omega (arith, ap length e, length-append buf [], length-append (framed payload) more))
next-Found payload more buf (x ∷ reads) h c e = elim (dec_lt (length buf) (4 + length payload)) [
  | yes short ↦
      subst (Found payload more)
        (sym (
          next-partial buf x reads c.0
            (carve-partial buf (x ++ concat reads) payload more h e short)))
        (next-Found payload more (buf ++ x) reads h c.1 (append_assoc buf x (concat reads) ∙ e))
  | no full ↦
      next-buffered payload more buf (x ∷ reads) h c e (omega (arith, length-framed payload))
]

next-too_large :
    (buf : List ℕ) (reads : List (List ℕ)) (n : ℕ)
    → carve buf ≡ too_large n
    → next buf reads ≡ err (frame_too_large n)
unfolding next settle
next-too_large buf [] n h = rw (h, settle)
next-too_large buf ([] ∷ reads) n h = rw (h, settle)
next-too_large buf ((b ∷ bs) ∷ reads) n h = rw (h, settle)

carve-too_large :
    (a b c d : ℕ) (tail : List ℕ)
    → max_frame_bytes < from_le_bytes a b c d
    → carve (a ∷ b ∷ c ∷ d ∷ tail) ≡ too_large (from_le_bytes a b c d)
unfolding carve carve_declared
carve-too_large a b c d tail h = rw (lt→ltb _ _ h)

carve-short : (buf : List ℕ) → length buf < 4 → carve buf ≡ partial
unfolding carve
carve-short [] h = refl
carve-short (a ∷ []) h = refl
carve-short (a ∷ b ∷ []) h = refl
carve-short (a ∷ b ∷ c ∷ []) h = refl
carve-short (a ∷ b ∷ c ∷ d ∷ t) h = absurd (omega arith)

module _ (a b c d : ℕ) (more : List ℕ) (h : max_frame_bytes < from_le_bytes a b c d) where
  header_buffered :
      (buf : List ℕ) (reads : List (List ℕ))
      → buf ++ concat reads ≡ (a ∷ b ∷ c ∷ d ∷ []) ++ more
      → 4 ≤ length buf
      → next buf reads ≡ err (frame_too_large (from_le_bytes a b c d))
  header_buffered buf reads e full =
      let (tail, eb, _) = append-align (a ∷ b ∷ c ∷ d ∷ []) more buf (concat reads) full (sym e) in
      next-too_large buf reads _ (ap carve eb ∙ carve-too_large a b c d tail h)

  -- A declared length above the limit is refused as soon as its four bytes are there, whatever comes
  -- after them: the payload is not waited for.
  pub next_refuses_too_large :
      (buf : List ℕ) (reads : List (List ℕ))
      → Chunked reads
      → buf ++ concat reads ≡ (a ∷ b ∷ c ∷ d ∷ []) ++ more
      → next buf reads ≡ err (frame_too_large (from_le_bytes a b c d))
  next_refuses_too_large buf [] ch e =
      header_buffered buf [] e (omega (arith, ap length e, length-append buf []))
  next_refuses_too_large buf (x ∷ reads) ch e = elim (dec_lt (length buf) 4) [
    | yes short ↦
        next-partial buf x reads ch.0 (carve-short buf short)
        ∙ next_refuses_too_large (buf ++ x) reads ch.1 (append_assoc buf x (concat reads) ∙ e)
    | no full ↦ header_buffered buf (x ∷ reads) e (omega arith)
  ]

truncated-partial :
    (payload buf rest : List ℕ)
    → length payload ≤ max_frame_bytes
    → 0 < length rest
    → buf ++ rest ≡ framed payload
    → carve buf ≡ partial
truncated-partial payload buf rest h n e =
    carve-partial buf rest payload [] h (e ∙ sym (append-nil (framed payload)))
      (omega (arith, ap length e, length-append buf rest, length-framed payload))

next-end : (buf : List ℕ) → carve buf ≡ partial → next buf [] ≡ err closed
unfolding next settle
next-end buf h = rw (h, settle)

-- A stream that ends inside a frame, or before one, is a closed connection: no part of a frame is
-- ever returned.
pub next_truncated :
    (payload missing buf : List ℕ) (reads : List (List ℕ))
    → length payload ≤ max_frame_bytes
    → Chunked reads
    → 0 < length missing
    → (buf ++ concat reads) ++ missing ≡ framed payload
    → next buf reads ≡ err closed
next_truncated payload missing buf [] h c n e =
    next-end buf (
      truncated-partial payload buf missing h n (ap (λ s. s ++ missing) (sym (append-nil buf)) ∙ e))
next_truncated payload missing buf (x ∷ reads) h c n e =
    next-partial buf x reads c.0 (
      truncated-partial payload buf ((x ++ concat reads) ++ missing) h
        (omega (arith, length-append (x ++ concat reads) missing))
        (sym (append_assoc buf (x ++ concat reads) missing) ∙ e))
    ∙ next_truncated payload missing (buf ++ x) reads h c.1 n
        (ap (λ s. s ++ missing) (append_assoc buf x (concat reads)) ∙ e)
