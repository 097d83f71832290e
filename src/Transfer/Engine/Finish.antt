-- ===== src/Transfer/Engine/Finish.antt =====
-- The end of a transfer: `finish_receive` and `abort` keep the invariant, and no file is overwritten.
use handfast.Base.{
  ℕ, ◌≡◌, ◌≢◌, ◌⊎◌, inl, inr, refl, sym, subst, ◌∙◌, false, none, some, String, not, ◌&&◌, ◌==◌,
  List, arith, Option-cases, if_cases, lookup, remove, lookup-remove, str_eq_iff,
}
use handfast.Json.{is_some}
use handfast.Transfer.Engine.{
  Engine, Io, IncomingTransfer, Result, EngineError, ok, err, io, incomplete, write_file,
  free_destination, move_part, finish_receive, abort, unknown_size, is_active,
}
use handfast.Transfer.Engine.Slots.{
  write_file_self, write_file_ne, HasSlot, free_destination-free, free-none, none-apart,
}
use handfast.Transfer.Engine.Invariant.{IsValid, removed-IsValid}

abbrev After {ℓ} : {A : Type ℓ} → Result A × Engine → Type 0
After r = IsValid r.1

module _ (sys : Io) (e : Engine) (id : String) (v : IsValid e) where
  move_part-IsValid :
      (t : IncomingTransfer) (destination : List ℕ)
      → lookup id e.incoming ≡ some t
      → e.files destination ≡ none
      → IsValid (move_part sys e id t destination).1
  unfolding move_part
  move_part-IsValid t destination l free =
      if_cases After sys.fails_rename _ _ (λ _. v)
        λ _. elim (Option-cases (e.files t.part_path)) [
          | inl e1 ↦ rw e1 v
          | inr (content, e1) ↦ rw e1 (
              removed-IsValid e id v
                (write_file destination (some content) (write_file t.part_path none e.files))
                (λ j s ls n.
                  let there = (v.staged j s ls).there in
                  let n1 : destination ≢ s.part_path =
                    none-apart e.files destination s.part_path (v.staged j s ls).content free
                      there in
                  write_file_ne destination s.part_path (some content)
                    (write_file t.part_path none e.files) n1
                  ∙ write_file_ne t.part_path s.part_path none e.files (v.apart id j t s l ls n)))
        ]

  -- Finishing keeps the invariant, as long as some name is free for the file.
  pub finish_receive-IsValid :
      ((t : IncomingTransfer) → lookup id e.incoming ≡ some t → HasSlot sys e.files t.final_name)
      → IsValid (finish_receive sys e id).1
  unfolding finish_receive
  finish_receive-IsValid slot = elim (Option-cases (lookup id e.incoming)) [
    | inl l ↦ rw (l, finish_receive) v
    | inr (t, l) ↦
        rw (l, finish_receive)
          (if_cases After
            (not (t.meta.file_size == unknown_size) && not (t.received == t.meta.file_size)) _ _
            (λ _. v)
            λ _.
              move_part-IsValid t (free_destination sys e.files t.final_name) l (
                free-none sys e.files _
                  (free_destination-free sys e.files t.final_name (slot t l))))
  ]

  pub abort-IsValid : IsValid (abort sys e id).1
  unfolding abort
  abort-IsValid = elim (Option-cases (lookup id e.incoming)) [
    | inl l ↦ rw (l, abort) v
    | inr (t, l) ↦
        let kept = removed-IsValid e id v e.files (λ j s ls n. refl) in
        rw (l, abort)
          (if_cases After (not (is_some (e.files t.part_path))) _ _ (λ _. kept)
            λ _.
              if_cases After sys.fails_remove _ _ (λ _. kept)
                λ _. removed-IsValid e id v (write_file t.part_path none e.files) λ j s ls n.
                  write_file_ne t.part_path s.part_path none e.files (v.apart id j t s l ls n))
  ]

-- What `finish_receive` promises when it succeeds: the file has the staged bytes under a name that
-- no file had, the staging file is gone, every other file is as it was, and the transfer has ended.
pub record Delivered (before after : Engine) (id : String) (t : IncomingTransfer) (name : List ℕ)
    : Type 0 where
  pub fresh : before.files name ≡ none
  pub delivered : after.files name ≡ before.files t.part_path
  pub cleared : after.files t.part_path ≡ none
  pub untouched :
      (other : List ℕ) → other ≢ name → other ≢ t.part_path → after.files other ≡ before.files other
  pub ended : is_active after id ≡ false
  pub complete : (t.meta.file_size ≡ unknown_size) ⊎ (t.received ≡ t.meta.file_size)

-- The same of a result: it is asked only of one that succeeds.
abbrev Promise : Engine → String → IncomingTransfer → List ℕ → Result (List ℕ) × Engine → Type 0
Promise e id t name r = r.0 ≡ ok name → Delivered e r.1 id t name

refused :
    (e e' : Engine) (id : String) (t : IncomingTransfer) (name : List ℕ) (c : EngineError)
    → Promise e id t name (err c, e')
refused e e' id t name c h = absurd (never h)
  where
    never : ◌≡◌ {A = Result (List ℕ)} (err c) (ok name) → ⊥
    never h = cc

moved-Delivered :
    (e : Engine) (id : String) (t : IncomingTransfer) (destination content : List ℕ)
    → e.files destination ≡ none
    → e.files t.part_path ≡ some content
    → (t.meta.file_size ≡ unknown_size) ⊎ (t.received ≡ t.meta.file_size)
    → Delivered e
        (record {
          files = write_file destination (some content) (write_file t.part_path none e.files);
          incoming = remove id e.incoming;
        })
        id
        t
        destination
unfolding is_active
moved-Delivered e id t destination content free there complete =
    let cleared = write_file t.part_path none e.files in
    let n : destination ≢ t.part_path =
      none-apart e.files destination t.part_path content free there in
    record {
      fresh = free;
      delivered = write_file_self destination (some content) cleared ∙ sym there;
      cleared =
          write_file_ne destination t.part_path (some content) cleared n
          ∙ write_file_self t.part_path none e.files;
      untouched = λ other n1 n2.
          write_file_ne destination other (some content) cleared (λ q. n1 (sym q))
          ∙ write_file_ne t.part_path other none e.files (λ q. n2 (sym q));
      ended = ground (arith, lookup-remove id id e.incoming, str_eq_iff id id);
      complete = complete;
    }

module _ (sys : Io) (e : Engine) (id : String) (t : IncomingTransfer) (name : List ℕ) where
  move_part-Delivered :
      (destination : List ℕ)
      → e.files destination ≡ none
      → (t.meta.file_size ≡ unknown_size) ⊎ (t.received ≡ t.meta.file_size)
      → Promise e id t name (move_part sys e id t destination)
  unfolding move_part
  move_part-Delivered destination free complete =
      if_cases (Promise e id t name) sys.fails_rename _ _ (λ _. refused e e id t name io)
        λ _. elim (Option-cases (e.files t.part_path)) [
          | inl e1 ↦ rw e1 (refused e e id t name io)
          | inr (content, e1) ↦ rw e1 λ h.
              let same : destination ≡ name = cc in
              subst (Delivered e _ id t) same
                (moved-Delivered e id t destination content free e1 complete)
        ]

  -- A transfer that is finished while the plain name of its file or one of the numbered names is free is
  -- delivered whole, under a name that no file had: if the finish succeeds, the file has the staged
  -- bytes, the staging file is gone, every other file is as it was, the transfer has ended, and all
  -- that was announced has arrived, unless the size was not known.
  pub finish_receive-Delivered :
      lookup id e.incoming ≡ some t
      → HasSlot sys e.files t.final_name
      → (finish_receive sys e id).0 ≡ ok name
      → Delivered e (finish_receive sys e id).1 id t name
  unfolding finish_receive
  finish_receive-Delivered l slot =
      rw (l, finish_receive)
        (if_cases (Promise e id t name)
          (not (t.meta.file_size == unknown_size) && not (t.received == t.meta.file_size)) _ _
          (λ _. refused e e id t name incomplete)
          λ whole.
            move_part-Delivered (free_destination sys e.files t.final_name)
              (free-none sys e.files _ (free_destination-free sys e.files t.final_name slot))
              (ground arith))
