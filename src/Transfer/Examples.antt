-- ===== src/Transfer/Examples.antt =====
-- The theorems on transfers at a concrete file: five bytes for "a.txt", streamed with two more,
-- and streamed out in two chunks.
use handfast.Base.{
  ℕ, ◌≡◌, ◌≢◌, refl, false, true, map, Chunked, inl, none, some, List, [], ◌∷◌, arith, lookup,
}
use handfast.Transfer.Name.{sanitize_file_name, fallback_name}
use handfast.Transfer.Name.Safety.{IsSafe, sanitize-IsSafe}
use handfast.Transfer.Name.Kept.{sanitize_keeps}
use handfast.Transfer.Engine.{
  Engine, Files, TransferMeta, IncomingTransfer, empty, calm, start_receive, write_chunk,
  finish_receive, free_destination, abort, fresh_transfer, name_eq, write_file, taken,
}
use handfast.Transfer.Engine.Invariant.{IsValid}
use handfast.Transfer.Engine.Finish.{Delivered, finish_receive-Delivered}
use handfast.Transfer.Engine.History.{here, next, starts, writes, aborts, Reach-IsValid}
use handfast.Transfer.Outgoing.{StreamEnv, chunk, stream_outgoing}
use handfast.Transfer.Outgoing.Sent.{IsSmooth, stream_outgoing-sends}
use handfast.Transfer.Stream.{Env, receive_stream, out_of_fuel}
use handfast.Transfer.Stream.Ends.{receive_stream_ends}
use handfast.Transfer.Stream.Whole.{IsReady, IsDelivered, receive_stream_delivers}

-- "a.txt"
abbrev a_txt : List ℕ
a_txt = 97 ∷ 46 ∷ 116 ∷ 120 ∷ 116 ∷ []

-- "../a.txt"
abbrev traversal : List ℕ
traversal = 46 ∷ 46 ∷ 47 ∷ a_txt

traversal_test : sanitize_file_name traversal ≡ a_txt
unfolding sanitize_file_name
traversal_test = refl

dots_test : sanitize_file_name (46 ∷ 46 ∷ 46 ∷ []) ≡ fallback_name
unfolding sanitize_file_name
dots_test = refl

sanitize-IsSafe_example : IsSafe (sanitize_file_name traversal)
sanitize-IsSafe_example = sanitize-IsSafe traversal

a_txt-IsSafe : IsSafe a_txt
a_txt-IsSafe = record { clean_chars = omega arith; bare = tt; short = omega arith }

sanitize_keeps_example : sanitize_file_name a_txt ≡ a_txt
sanitize_keeps_example = sanitize_keeps a_txt a_txt-IsSafe (omega arith)

abbrev no_files : Files
no_files = λ _. none

abbrev meta : TransferMeta
meta = record { transfer_id = "t1"; device_id = "phone"; file_name = traversal; file_size = 5 }

abbrev five : List ℕ
five = 1 ∷ 2 ∷ 3 ∷ 4 ∷ 5 ∷ []

-- A start, a chunk, and an abort by another id.
abbrev receiving : Engine
receiving =
    (abort calm (write_chunk calm (start_receive calm (empty no_files) meta).1 "t1" five).1 "t9").1

Reach-IsValid_example : IsValid receiving
Reach-IsValid_example =
    Reach-IsValid no_files receiving
      (next (next (next here (starts calm meta)) (writes calm "t1" five)) (aborts calm "t9"))

-- The engine when all five bytes are staged.
abbrev staged_engine : Engine
staged_engine = record {
  files = write_file (fresh_transfer meta a_txt).part_path (some five) no_files;
  incoming = ("t1", record (fresh_transfer meta a_txt) { received = 5 }) ∷ [];
}

abbrev staged_transfer : IncomingTransfer
staged_transfer = record (fresh_transfer meta a_txt) { received = 5 }

finish_receive-Delivered_example :
    Delivered staged_engine (finish_receive calm staged_engine "t1").1 "t1" staged_transfer a_txt
unfolding lookup taken write_file name_eq finish_receive free_destination
finish_receive-Delivered_example =
    finish_receive-Delivered calm staged_engine "t1" staged_transfer a_txt refl (inl refl) refl

abbrev calm_env : Env
calm_env = record { sys = λ _. calm; cancelled = λ _. false; closes = true }

ready : IsReady calm_env (empty no_files) meta (sanitize_file_name traversal)
unfolding lookup
ready = record {
  quiet = record { opens = λ n. refl; writes = λ n. refl; runs = λ n. refl };
  directory = refl;
  renames = refl;
  probes = refl;
  new_id = refl;
  new_name = refl;
  new_part = refl;
}

-- Seven bytes in two chunks.
abbrev seven : List (List ℕ)
seven = (1 ∷ 2 ∷ 3 ∷ []) ∷ (4 ∷ 5 ∷ 6 ∷ 7 ∷ []) ∷ []

receive_stream_delivers_example :
    IsDelivered "t1"
      (sanitize_file_name traversal)
      five
      (receive_stream calm_env (empty no_files) meta (some seven))
receive_stream_delivers_example =
    receive_stream_delivers calm_env (empty no_files) meta seven ready (omega arith) (omega arith)

-- A file that is read in two chunks.
abbrev two_chunks : List (List ℕ)
two_chunks = (1 ∷ 2 ∷ 3 ∷ []) ∷ (4 ∷ 5 ∷ []) ∷ []

abbrev smooth_env : StreamEnv
smooth_env = record {
  accepts = true;
  opens = true;
  reads = map chunk two_chunks;
  is_cancelled = λ _. false;
  writes = λ _. true;
}

smooth : IsSmooth smooth_env
smooth = record { accepted = refl; opened = refl; kept = λ n. refl; written = λ n. refl }

two_chunks-Chunked : Chunked two_chunks
two_chunks-Chunked = (λ p. cc, (λ p. cc, tt))

stream_outgoing-sends_example :
    ((stream_outgoing smooth_env (some "/tmp/copy-7") 5).error ≡ none)
    × ((stream_outgoing smooth_env (some "/tmp/copy-7") 5).written ≡ five)
    × ((stream_outgoing smooth_env (some "/tmp/copy-7") 5).removed ≡ "/tmp/copy-7" ∷ [])
stream_outgoing-sends_example =
    stream_outgoing-sends smooth_env (some "/tmp/copy-7") 5 two_chunks smooth refl
      two_chunks-Chunked (omega arith)

-- The sender stops after two bytes, and nobody cancels.
receive_stream_ends_example :
    (receive_stream calm_env (empty no_files) meta (some ((1 ∷ 2 ∷ []) ∷ []))).result ≢ out_of_fuel
receive_stream_ends_example =
    receive_stream_ends calm_env (empty no_files) meta (some ((1 ∷ 2 ∷ []) ∷ []))
