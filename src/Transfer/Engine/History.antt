-- ===== src/Transfer/Engine/History.antt =====
-- Histories of the engine: any interleaving of the operations of any transfers, whatever the file
-- system refuses on the way, as long as a file that is finished still finds a free name.
use handfast.Base.{ℕ, String, List, ◌≡◌, some, lookup}
use handfast.Transfer.Engine.{
  Engine, Files, Io, TransferMeta, IncomingTransfer, empty, start_receive, write_chunk,
  finish_receive, abort,
}
use handfast.Transfer.Engine.Slots.{HasSlot}
use handfast.Transfer.Engine.Invariant.{IsValid, empty-IsValid}
use handfast.Transfer.Engine.Keeps.{start_receive-IsValid, write_chunk-IsValid}
use handfast.Transfer.Engine.Finish.{finish_receive-IsValid, abort-IsValid}

-- One call. A finish is a step only where some name is free for its file: past
-- `max_name_collisions` taken names the source replaces the file that has the plain name.
pub data Step (e : Engine) : Engine → Type 0 where
  starts : (sys : Io) (meta : TransferMeta) → Step e (start_receive sys e meta).1
  writes : (sys : Io) (id : String) (bytes : List ℕ) → Step e (write_chunk sys e id bytes).1
  finishes :
      (sys : Io) (id : String)
      → ((t : IncomingTransfer) → lookup id e.incoming ≡ some t → HasSlot sys e.files t.final_name)
      → Step e (finish_receive sys e id).1
  aborts : (sys : Io) (id : String) → Step e (abort sys e id).1

pub data Reach (e : Engine) : Engine → Type 0 where
  here : Reach e e
  next : {d f : Engine} → Reach e d → Step d f → Reach e f

Step-IsValid : {d e : Engine} → Step d e → IsValid d → IsValid e
Step-IsValid {d} (starts sys meta) v = start_receive-IsValid sys d meta v
Step-IsValid {d} (writes sys id bytes) v = write_chunk-IsValid sys d id bytes v
Step-IsValid {d} (finishes sys id slot) v = finish_receive-IsValid sys d id v slot
Step-IsValid {d} (aborts sys id) v = abort-IsValid sys d id v

Reach-keeps : {d e : Engine} → IsValid d → Reach d e → IsValid e
Reach-keeps v here = v
Reach-keeps v (next r s) = Step-IsValid s (Reach-keeps v r)

-- After any history from an engine with no transfer, in which each file that was finished had a free
-- name among the plain one and the numbered ones, each transfer in flight has a safe name, a count
-- within its announced size, and a staging file of its own with at least that many bytes.
pub Reach-IsValid : (files : Files) (e : Engine) → Reach (empty files) e → IsValid e
Reach-IsValid files e r = Reach-keeps (empty-IsValid files) r
