-- ===== src/Transfer/Engine/Invariant.antt =====
-- The invariant of the staging engine, which every operation keeps, whatever the file system refuses.
use handfast.Base.{
  ℕ, ◌≤◌, ◌≡◌, ◌≢◌, ◌⊎◌, inl, inr, sym, ap, subst, ◌∙◌, some, String, List, ◌++◌, length, arith,
  lookup, insert, remove, lookup-insert, lookup-remove, str_eq_iff,
}
use handfast.Transfer.Name.Safety.{IsSafe}
use handfast.Transfer.Engine.{Engine, Files, IncomingTransfer, part_suffix, empty}

-- One transfer in flight: its names, its count, and its staging file.
pub record IsStaged (files : Files) (t : IncomingTransfer) : Type 0 where
  pub part : t.part_path ≡ t.final_name ++ part_suffix
  pub safe : IsSafe t.final_name
  pub fits : t.received ≤ t.meta.file_size
  pub content : List ℕ
  pub there : files t.part_path ≡ some content
  pub counted : t.received ≤ length content

pub record IsValid (e : Engine) : Type 0 where
  pub staged :
      (id : String) (t : IncomingTransfer) → lookup id e.incoming ≡ some t → IsStaged e.files t
  pub apart :
      (i j : String) (s t : IncomingTransfer)
      → lookup i e.incoming ≡ some s
      → lookup j e.incoming ≡ some t
      → i ≢ j
      → s.part_path ≢ t.part_path

pub empty-IsValid : (files : Files) → IsValid (empty files)
unfolding lookup
empty-IsValid files = record { staged = λ id t h. cc; apart = λ i j s t h k n. cc }

-- A staging file that an operation did not touch.
pub IsStaged-frame :
    (files files' : Files) (t : IncomingTransfer)
    → files' t.part_path ≡ files t.part_path
    → IsStaged files t
    → IsStaged files' t
IsStaged-frame files files' t e s = record {
  part = s.part;
  safe = s.safe;
  fits = s.fits;
  content = s.content;
  there = e ∙ s.there;
  counted = s.counted;
}

-- An update of one entry whose staging file is apart from the others.
module _ (e : Engine) (id : String) (v : IsValid e) (new : IncomingTransfer) (files : Files)
    (staged : IsStaged files new)
    (others : (j : String) (t : IncomingTransfer)
      → lookup j e.incoming ≡ some t
      → id ≢ j
      → (files t.part_path ≡ e.files t.part_path) × (new.part_path ≢ t.part_path)) where
  abbrev pub updated : Engine
  updated = record { files = files; incoming = insert id new e.incoming }

  found :
      (j : String) (t : IncomingTransfer)
      → lookup j updated.incoming ≡ some t
      → ((id ≡ j) × (new ≡ t)) ⊎ ((id ≢ j) × (lookup j e.incoming ≡ some t))
  found j t h = ground (arith, lookup-insert id j new e.incoming, str_eq_iff id j)

  pub updated-IsValid : IsValid updated
  updated-IsValid = record {
    staged = λ j t h. elim (found j t h) [
      | inl (same, et) ↦ subst (IsStaged files) et staged
      | inr (n, l) ↦ IsStaged-frame e.files files t (others j t l n).0 (v.staged j t l)
    ];
    apart = λ i j s t hs ht n. elim (found i s hs) [
      | inl (same, es) ↦ elim (found j t ht) [
        | inl (same', _) ↦ absurd (n (sym same ∙ same'))
        | inr (n', l) ↦
            λ eq. (others j t l n').1 (ap (λ (x : IncomingTransfer). x.part_path) es ∙ eq)
      ]
      | inr (ns, ls) ↦ elim (found j t ht) [
        | inl (same, et) ↦
            λ eq. (others i s ls ns).1 (ap (λ (x : IncomingTransfer). x.part_path) et ∙ sym eq)
        | inr (nt, lt) ↦ v.apart i j s t ls lt n
      ]
    ];
  }

-- The removal of one entry, where the files of the others are left.
module _ (e : Engine) (id : String) (v : IsValid e) (files : Files)
    (others : (j : String) (t : IncomingTransfer)
      → lookup j e.incoming ≡ some t
      → id ≢ j
      → files t.part_path ≡ e.files t.part_path) where
  pub removed-IsValid : IsValid (record { files = files; incoming = remove id e.incoming })
  removed-IsValid = record {
    staged = λ j t h.
        let (n, l) = kept j t h in IsStaged-frame e.files files t (others j t l n) (v.staged j t l);
    apart = λ i j s t hs ht. v.apart i j s t (kept i s hs).1 (kept j t ht).1;
  }
    where
      kept :
          (j : String) (t : IncomingTransfer)
          → lookup j (remove id e.incoming) ≡ some t
          → (id ≢ j) × (lookup j e.incoming ≡ some t)
      kept j t h = ground (arith, lookup-remove id j e.incoming, str_eq_iff id j)
