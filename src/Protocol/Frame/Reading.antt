-- ===== src/Protocol/Frame/Reading.antt =====
-- What the incremental scan returns, whatever the chunks of the stream.
use handfast.Base.{
  ℕ, suc, ◌+◌, ◌≤◌, ◌<◌, ◌≡◌, ◌≢◌, refl, sym, ap, subst, ◌∙◌, inl, inr, List, [], ◌∷◌, ◌++◌, length,
  length-append, drop, take-length-append, concat, Chunked, Free, Free-align, Free-suffix,
  first_unique, Free-or-Cut, Free-position, position-append, append_assoc, arith, lt→ltb,
}
use handfast.Protocol.Types.{max_packet_len}
use handfast.Protocol.Frame.{
  Result, ok, err, Reader, oversized, consume, read_loop, read_frame, scan,
}

-- A frame that `read_frame` found: the payload, and a reader that holds what followed the newline.
pub record Found (payload more : List ℕ) (result : Result (List ℕ × Reader)) : Type 0 where
  pub rest : Reader
  pub returned : result ≡ ok (payload, rest)
  pub following : concat rest ≡ more
  pub chunked : Chunked rest

drop-suc-append : (q : List ℕ) (b : ℕ) (t : List ℕ) → drop (suc (length q)) (q ++ b ∷ t) ≡ t
drop-suc-append [] b t = refl
drop-suc-append (x ∷ q) b t = drop-suc-append q b t

pub consume_after : List ℕ → Reader → Reader
consume_after [] rest = rest
consume_after (b ∷ t) rest = (b ∷ t) ∷ rest

consume-cut :
    (q t : List ℕ) (b : ℕ) (rest : Reader)
    → consume (suc (length q)) (q ++ b ∷ t) rest ≡ consume_after t rest
unfolding consume consume_after
consume-cut q t b rest = rw (drop-suc-append q b t, consume) (go t)
  where
    go : (t : List ℕ) → (elim t [ [] ↦ rest | b ∷ bs ↦ (b ∷ bs) ∷ rest ]) ≡ consume_after t rest
    go [] = refl
    go (x ∷ t) = refl

concat-consume_after :
    (t : List ℕ) (rest : Reader) → concat (consume_after t rest) ≡ t ++ concat rest
unfolding consume_after
concat-consume_after [] rest = refl
concat-consume_after (b ∷ t) rest = refl

consume_after-Chunked : (t : List ℕ) (rest : Reader) → Chunked rest → Chunked (consume_after t rest)
unfolding consume_after
consume_after-Chunked [] rest h = h
consume_after-Chunked (b ∷ t) rest h = ((λ e. cc), h)

module _ (line q : List ℕ) (rest : Reader) (more : Result (List ℕ × Reader)) (f : Free 10 q) where
  -- The chunk that has the newline ends the frame.
  pub scan_cut :
      (t : List ℕ)
      → length line + length q ≤ max_packet_len
      → scan line (q ++ 10 ∷ t) rest more ≡ ok (line ++ q, consume_after t rest)
  unfolding scan
  scan_cut t h =
      rw (position-append 10 q t f, scan)
        (ground (arith, take-length-append q (10 ∷ t), consume-cut q t 10 rest))

  pub scan_cut_oversized :
      (t : List ℕ)
      → max_packet_len < length line + length q
      → scan line (q ++ 10 ∷ t) rest more ≡ err oversized
  unfolding scan
  scan_cut_oversized t h = rw (position-append 10 q t f, scan) (rw (lt→ltb _ _ h))

  -- A chunk with no newline is taken whole, or ends the scan.
  pub scan_free : length line + length q ≤ max_packet_len → scan line q rest more ≡ more
  unfolding scan
  scan_free h = rw (Free-position 10 q f, scan) (ground arith)

  pub scan_free_oversized :
      max_packet_len < length line + length q → scan line q rest more ≡ err oversized
  unfolding scan
  scan_free_oversized h = rw (Free-position 10 q f, scan) (rw (lt→ltb _ _ h))

pub step :
    (line c : List ℕ) (rest : Reader)
    → c ≢ []
    → read_loop line (c ∷ rest) ≡ scan line c rest (read_loop (line ++ c) rest)
unfolding read_loop
step line [] rest h = absurd (h refl)
step line (b ∷ c) rest h = refl

nil-ne-append : (p m : List ℕ) (b : ℕ) → [] ≢ p ++ b ∷ m
nil-ne-append [] m b e = cc
nil-ne-append (x ∷ p) m b e = cc

-- A chunk with no newline is one more round.
read_through :
    (line x p more : List ℕ) (r : Reader)
    → Free 10 x
    → x ≢ []
    → length line + length (x ++ p) ≤ max_packet_len
    → Found ((line ++ x) ++ p) more (read_loop (line ++ x) r)
    → Found (line ++ (x ++ p)) more (read_loop line (x ∷ r))
read_through line x p more r f n h found = record {
  rest = found.rest;
  returned =
      step line x r n
      ∙ scan_free line x r (read_loop (line ++ x) r) f (omega (arith, length-append x p))
      ∙ found.returned
      ∙ ap (λ l. ok (l, found.rest)) (append_assoc line x p);
  following = found.following;
  chunked = found.chunked;
}

-- A chunk with the newline is the last.
read_cut :
    (line q t : List ℕ) (r : Reader)
    → Free 10 q
    → Chunked r
    → length line + length q ≤ max_packet_len
    → Found (line ++ q) (t ++ concat r) (read_loop line ((q ++ 10 ∷ t) ∷ r))
read_cut line q t r f c h = record {
  rest = consume_after t r;
  returned =
      step line (q ++ 10 ∷ t) r (λ e. nil-ne-append q t 10 (sym e))
      ∙ scan_cut line q r (read_loop (line ++ (q ++ 10 ∷ t)) r) f t h;
  following = concat-consume_after t r;
  chunked = consume_after-Chunked t r c;
}

read_loop-Found :
    (line payload more : List ℕ) (r : Reader)
    → Free 10 payload
    → Chunked r
    → length line + length payload ≤ max_packet_len
    → concat r ≡ payload ++ 10 ∷ more
    → Found (line ++ payload) more (read_loop line r)
read_loop-Found line payload more [] f c h e = absurd (nil-ne-append payload more 10 e)
read_loop-Found line payload more (x ∷ r) f c h e = elim (Free-or-Cut 10 x) [
  | inl g ↦
      let (p, e1, e2) = Free-align 10 x (concat r) payload more g e in
      let fits : length line + length (x ++ p) ≤ max_packet_len = rw (← e1) h in
      subst (λ l. Found (line ++ l) more (read_loop line (x ∷ r))) (sym e1)
        (read_through line x p more r g c.0 fits (
          read_loop-Found (line ++ x) p more r (Free-suffix 10 x p (subst (Free 10) e1 f)) c.1
            (omega (arith, fits, length-append x p, length-append line x)) e2))
  | inr (q, t, g, ex) ↦
      let (e1, e2) =
        first_unique 10 q (t ++ concat r) payload more g f
          (sym (append_assoc q (10 ∷ t) (concat r)) ∙ ap (λ y. y ++ concat r) (sym ex) ∙ e) in
      let fits : length line + length q ≤ max_packet_len = rw e1 h in
      subst (λ y. Found (line ++ payload) more (read_loop line (y ∷ r))) (sym ex)
        (subst (λ m. Found (line ++ payload) m (read_loop line ((q ++ 10 ∷ t) ∷ r))) e2
          (subst (λ l. Found (line ++ l) (t ++ concat r) (read_loop line ((q ++ 10 ∷ t) ∷ r))) e1
            (read_cut line q t r g c.1 fits)))
]

-- A payload of at most `max_packet_len` bytes and its newline are read whatever the chunks, and
-- what follows stays in the reader.
pub read_frame-Found :
    (payload more : List ℕ) (r : Reader)
    → Free 10 payload
    → Chunked r
    → length payload ≤ max_packet_len
    → concat r ≡ payload ++ 10 ∷ more
    → Found payload more (read_frame r)
unfolding read_frame
read_frame-Found payload more r f c h e = read_loop-Found [] payload more r f c (omega arith) e
