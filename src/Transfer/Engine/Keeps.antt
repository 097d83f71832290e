-- ===== src/Transfer/Engine/Keeps.antt =====
-- Every operation of the staging engine keeps its invariant.
use native.Mathlib.Nat.{mod-le}
use handfast.Base.{
  ℕ, ◌+◌, ◌%◌, ◌^◌, ◌≤◌, ◌≡◌, ◌≢◌, inl, inr, refl, subst, some, String, List, [], ◌++◌, take,
  length, length-append, arith, Bool-cases, Option-cases, if_cases, str_eq, str_eq_iff, ltb, lookup,
  insert,
}
use handfast.Json.{is_some}
use handfast.Transfer.Name.{sanitize_file_name}
use handfast.Transfer.Name.Safety.{IsSafe, sanitize-IsSafe}
use handfast.Transfer.Engine.{
  Engine, Io, TransferMeta, IncomingTransfer, Result, part_suffix, fresh_transfer, write_file,
  reserve, start_receive, append, open_append, write_chunk, chunk_size,
}
use handfast.Transfer.Engine.Slots.{write_file_self, write_file_ne, none-apart}
use handfast.Transfer.Engine.Invariant.{IsStaged, IsStaged-frame, IsValid, updated-IsValid}

reserve-IsValid :
    (e : Engine) (meta : TransferMeta) (name : List ℕ)
    → IsSafe name
    → IsValid e
    → IsValid (reserve e meta name).1
unfolding reserve
reserve-IsValid e meta name s v = elim (Option-cases (e.files (name ++ part_suffix))) [
  | inr (c, e1) ↦ rw (e1, reserve) v
  | inl e1 ↦
      let part : List ℕ = name ++ part_suffix in
      rw (e1, reserve)
        (updated-IsValid e meta.transfer_id v (fresh_transfer meta name)
          (write_file part (some []) e.files)
          (record {
            part = refl;
            safe = s;
            fits = omega arith;
            content = [];
            there = write_file_self part (some []) e.files;
            counted = omega arith;
          })
          (λ j t l _.
            let staged = v.staged j t l in
            let n : part ≢ t.part_path =
              none-apart e.files part t.part_path staged.content e1 staged.there in
            (write_file_ne part t.part_path (some []) e.files n, n)))
]

abbrev After {ℓ} : {A : Type ℓ} → Result A × Engine → Type 0
After r = IsValid r.1

pub start_receive-IsValid :
    (sys : Io) (e : Engine) (meta : TransferMeta) → IsValid e → IsValid (start_receive sys e meta).1
unfolding start_receive
start_receive-IsValid sys e meta v =
    if_cases After (is_some (lookup meta.transfer_id e.incoming)) _ _ (λ _. v)
      λ _.
        if_cases After sys.fails_mkdir _ _ (λ _. v)
          λ _.
            if_cases After sys.fails_open _ _ (λ _. v)
              λ _.
                reserve-IsValid e meta (sanitize_file_name meta.file_name)
                  (sanitize-IsSafe meta.file_name) v

module _ (sys : Io) (e : Engine) (id : String) (t : IncomingTransfer) (v : IsValid e)
    (l : lookup id e.incoming ≡ some t) where
  -- The entry with more bytes in its staging file, and a count that they cover.
  grown-IsValid :
      (bytes : List ℕ) (count : ℕ)
      → count ≤ t.meta.file_size
      → count ≤ length bytes
      → IsValid (record {
        files = write_file t.part_path (some bytes) e.files;
        incoming = insert id (record t { received = count }) e.incoming;
      })
  grown-IsValid bytes count fits counted =
      let old = v.staged id t l in
      updated-IsValid e id v (record t { received = count })
        (write_file t.part_path (some bytes) e.files)
        (record {
          part = old.part;
          safe = old.safe;
          fits = fits;
          content = bytes;
          there = write_file_self t.part_path (some bytes) e.files;
          counted = counted;
        })
        (λ j s ls n.
          let apart = v.apart id j t s l ls n in
          (write_file_ne t.part_path s.part_path (some bytes) e.files apart, apart))

  -- The same where the count stays: a write that failed after some bytes.
  partly_written-IsValid :
      (content bytes : List ℕ)
      → e.files t.part_path ≡ some content
      → IsValid (record e { files = write_file t.part_path (some (content ++ bytes)) e.files })
  partly_written-IsValid content bytes h = record {
    staged = λ j s ls. elim (Bool-cases (str_eq id j)) [
      | inl same ↦
          let old = v.staged id t l in
          let es : t ≡ s = ground (arith, str_eq_iff id j) in
          subst (IsStaged (write_file t.part_path (some (content ++ bytes)) e.files)) es (record {
            part = old.part;
            safe = old.safe;
            fits = old.fits;
            content = content ++ bytes;
            there = write_file_self t.part_path (some (content ++ bytes)) e.files;
            counted = ground (arith, length-append content bytes, old.there, old.counted);
          })
      | inr n ↦
          IsStaged-frame e.files _ s
            (write_file_ne t.part_path s.part_path (some (content ++ bytes)) e.files
              (v.apart id j t s l ls (ground (arith, str_eq_iff id j))))
            (v.staged j s ls)
    ];
    apart = v.apart;
  }

  append-IsValid :
      (content bytes : List ℕ) (total_after : ℕ)
      → e.files t.part_path ≡ some content
      → total_after ≤ t.meta.file_size
      → total_after ≤ t.received + length bytes
      → IsValid (append sys e id t content bytes total_after).1
  unfolding append
  append-IsValid content bytes total_after h fits le = elim (Option-cases sys.short_write) [
    | inr (n, e1) ↦ rw (e1, append) (partly_written-IsValid content (take n bytes) h)
    | inl e1 ↦
        rw (e1, append)
          (grown-IsValid (content ++ bytes) total_after fits (
            ground (
              arith,
              length-append content bytes,
              (v.staged id t l).there,
              (v.staged id t l).counted,
            )))
  ]

  open_append-IsValid :
      (bytes : List ℕ) (total_after : ℕ)
      → total_after ≤ t.meta.file_size
      → total_after ≤ t.received + length bytes
      → IsValid (open_append sys e id t bytes total_after).1
  unfolding open_append
  open_append-IsValid bytes total_after fits le =
      if_cases After sys.fails_open _ _ (λ _. v)
        λ _. elim (Option-cases (e.files t.part_path)) [
          | inl e1 ↦ rw e1 v
          | inr (content, e1) ↦ rw e1 (append-IsValid content bytes total_after e1 fits le)
        ]

pub write_chunk-IsValid :
    (sys : Io) (e : Engine) (id : String) (bytes : List ℕ)
    → IsValid e
    → IsValid (write_chunk sys e id bytes).1
unfolding write_chunk
write_chunk-IsValid sys e id bytes v =
    if_cases After (ltb chunk_size (length bytes)) _ _ (λ _. v)
      λ _. elim (Option-cases (lookup id e.incoming)) [
        | inl l ↦ rw l v
        | inr (t, l) ↦
            let total_after = (t.received + length bytes) % 2 ^ 64 in
            rw l (
              if_cases After (ltb t.meta.file_size total_after) _ _ (λ _. v)
                λ fits.
                  open_append-IsValid sys e id t v l bytes total_after (ground arith)
                    (mod-le (t.received + length bytes) (2 ^ 64)))
      ]
