-- ===== src/Protocol/Frame/Refusal.antt =====
-- The streams on which the scan fails: too long before a newline, or ended before one.
use native.Mathlib.Decide.{dec_lt}
use handfast.Base.{
  ℕ, ◌+◌, ◌≤◌, ◌<◌, ◌≡◌, sym, ap, subst, ◌∙◌, inl, inr, List, [], ◌∷◌, ◌++◌, length, length-append,
  concat, Chunked, Free, Free-or-Cut, Free-length-le, Free-prefix, Free-suffix, append-align,
  append-nil, append_assoc, arith,
}
use handfast.Protocol.Types.{max_packet_len}
use handfast.Protocol.Frame.{err, Reader, oversized, at_eof, scan, read_loop, read_frame}
use handfast.Protocol.Frame.Reading.{step, scan_free, scan_free_oversized, scan_cut_oversized}

read_loop_oversized :
    (line p m : List ℕ) (r : Reader)
    → Free 10 p
    → Chunked r
    → max_packet_len < length line + length p
    → length line ≤ max_packet_len
    → concat r ≡ p ++ m
    → read_loop line r ≡ err oversized
read_loop_oversized line [] m [] f c h l e = absurd (omega arith)
read_loop_oversized line (y ∷ p) m [] f c h l e = cc
read_loop_oversized line p m (x ∷ r) f c h l e = elim (Free-or-Cut 10 x) [
  | inl g ↦ elim (dec_lt max_packet_len (length line + length x)) [
    | yes long ↦ step line x r c.0 ∙ scan_free_oversized line x r (read_loop (line ++ x) r) g long
    | no short ↦
        let fits : length line + length x ≤ max_packet_len = omega arith in
        let (p', e1, e2) = append-align x (concat r) p m (omega arith) e in
        step line x r c.0
        ∙ scan_free line x r (read_loop (line ++ x) r) g fits
        ∙ read_loop_oversized (line ++ x) p' m r (Free-suffix 10 x p' (subst (Free 10) e1 f)) c.1
            (omega (arith, ap length e1, length-append x p', length-append line x))
            (omega (arith, length-append line x)) e2
  ]
  | inr (q, t, g, ex) ↦
      let ep = sym (append_assoc q (10 ∷ t) (concat r)) ∙ ap (λ y. y ++ concat r) (sym ex) ∙ e in
      let long : max_packet_len < length line + length q =
        omega (arith, Free-length-le 10 q (t ++ concat r) p m f ep) in
      step line x r c.0
      ∙ subst (λ y. scan line y r (read_loop (line ++ x) r) ≡ err oversized) (sym ex)
          (scan_cut_oversized line q r (read_loop (line ++ x) r) g t long)
]

-- More than `max_packet_len` bytes with no newline are refused, whatever the chunks and whatever
-- comes after them.
pub read_frame_oversized :
    (prefix more : List ℕ) (r : Reader)
    → Free 10 prefix
    → Chunked r
    → max_packet_len < length prefix
    → concat r ≡ prefix ++ more
    → read_frame r ≡ err oversized
unfolding read_frame
read_frame_oversized prefix more r f c h e =
    read_loop_oversized [] prefix more r f c (omega arith) (omega arith) e

read_loop_ended :
    (line : List ℕ) (r : Reader)
    → Free 10 (concat r)
    → Chunked r
    → length line + length (concat r) ≤ max_packet_len
    → read_loop line r ≡ err (at_eof (line ++ concat r))
unfolding read_loop
read_loop_ended line [] f c h = ap (λ l. err (at_eof l)) (sym (append-nil line))
read_loop_ended line (x ∷ r) f c h =
    step line x r c.0
    ∙ scan_free line x r (read_loop (line ++ x) r) (Free-prefix 10 x (concat r) f)
        (omega (arith, length-append x (concat r)))
    ∙ read_loop_ended (line ++ x) r (Free-suffix 10 x (concat r) f) c.1
        (omega (arith, length-append x (concat r), length-append line x))
    ∙ ap (λ l. err (at_eof l)) (append_assoc line x (concat r))

-- A stream that ends with no newline, within the limit, is an error that tells an empty stream from
-- a frame that was cut.
pub read_frame_ended :
    (r : Reader)
    → Free 10 (concat r)
    → Chunked r
    → length (concat r) ≤ max_packet_len
    → read_frame r ≡ err (at_eof (concat r))
unfolding read_frame
read_frame_ended r f c h = read_loop_ended [] r f c (omega arith)
