-- ===== src/Transfer/Stream/Ends.antt =====
-- The receive task ends.
use handfast.Base.{
  Option, none, some, concat, ℕ, zero, suc, ◌+◌, ◌-◌, ◌<◌, String, false, List, [], ◌∷◌, length,
  take, drop, ltb, leb, min, ◌==◌, ◌≡◌, ◌≢◌, arith, if_cases,
}
use handfast.Transfer.Engine.{
  Engine, TransferMeta, unknown_size, Result, ok, err, chunk_size, start_receive, write_chunk,
}
use handfast.Transfer.Stream.{
  Env, Outcome, out_of_fuel, finished, finish, cancel, stored, round, receive_known, started,
  receive_stream, stopped, receive_unknown, pumped,
}

abbrev Ends : Outcome → Type 0
Ends o = o.result ≢ out_of_fuel

finished-Ends : (r : Result (List ℕ) × Engine) (progress : List ℕ) → Ends (finished r progress)
unfolding finished
finished-Ends (ok name, e) progress p = cc
finished-Ends (err c, e) progress p = cc

stored-Ends :
    (r : Result ℕ × Engine) (progress : List ℕ) (next : Engine → Outcome)
    → ((e : Engine) → Ends (next e))
    → Ends (stored r progress next)
unfolding stored
stored-Ends (err c, e) progress next h p = cc
stored-Ends (ok n, e) progress next h p = h e p

round-Ends :
    (env : Env) (id : String) (size : ℕ) (e : Engine) (stream : List ℕ) (done : ℕ)
    (progress : List ℕ) (more : Engine → Outcome)
    → ((min chunk_size (size - done) == 0) ≡ false
        → leb size (done + min chunk_size (size - done)) ≡ false
        → (e' : Engine) → Ends (more e'))
    → Ends (round env id size e stream done progress more)
unfolding round finish cancel
round-Ends env id size e stream done progress more h =
    let want = min chunk_size (size - done) in
    if_cases Ends (env.cancelled done) _ _ (λ _ p. cc)
      (λ _.
        if_cases Ends (want == 0) _ _ (λ _. finished-Ends _ progress)
          (λ some_left.
            if_cases Ends (ltb (length stream) want) _ _ (λ _ p. cc)
              (λ _.
                stored-Ends (write_chunk (env.sys done) e id (take want stream)) progress _ (λ e'.
                  if_cases Ends (leb size (done + want)) _ _
                    (λ _. finished-Ends _ ((done + want) ∷ progress))
                    (λ not_full. h some_left not_full e')))))

receive_known-Ends :
    (fuel : ℕ) (env : Env) (id : String) (size : ℕ) (e : Engine) (stream : List ℕ) (done : ℕ)
    (progress : List ℕ)
    → size - done < fuel
    → Ends (receive_known fuel env id size e stream done progress)
unfolding receive_known
receive_known-Ends zero env id size e stream done progress h = absurd (omega arith)
receive_known-Ends (suc fuel) env id size e stream done progress h =
    round-Ends env id size e stream done progress _ λ some_left not_full e'.
      let want = min chunk_size (size - done) in
      receive_known-Ends fuel env id size e' (drop want stream) (done + want)
        ((done + want) ∷ progress) (ground arith)

stopped-Ends :
    (env : Env) (id : String) (e : Engine) (done : ℕ) (progress : List ℕ)
    → Ends (stopped env id e done progress)
unfolding stopped finish cancel
stopped-Ends env id e done progress =
    if_cases Ends (env.cancelled done) _ _ (λ _ p. cc)
      (λ _. if_cases Ends env.closes _ _ (λ _. finished-Ends _ progress) (λ _ p. cc))

receive_unknown-Ends :
    (env : Env) (id : String) (e : Engine) (reads : List (List ℕ)) (done : ℕ) (progress : List ℕ)
    → Ends (receive_unknown env id e reads done progress)
unfolding receive_unknown finish cancel
receive_unknown-Ends env id e [] done progress = stopped-Ends env id e done progress
receive_unknown-Ends env id e ([] ∷ reads) done progress =
    if_cases Ends (env.cancelled done) _ _ (λ _ p. cc) (λ _. finished-Ends _ progress)
receive_unknown-Ends env id e ((b ∷ bs) ∷ reads) done progress =
    if_cases Ends (env.cancelled done) _ _ (λ _ p. cc)
      (λ _.
        stored-Ends (write_chunk (env.sys done) e id (b ∷ bs)) progress _
          (λ e'. receive_unknown-Ends env id e' reads _ _))

-- The reception of a file ends, at an announced size, at an unknown one, and with no data connection,
-- whatever the file system refuses, whether the user cancels, and whatever transfers are in progress:
-- the task delivers the file, or returns why not. At an announced size the loop makes at most one
-- round more than there are bytes announced; at an unknown size it goes on until the sender stops, as
-- the chunks of a stream are a finite list here.
pub receive_stream_ends :
    (env : Env) (e : Engine) (meta : TransferMeta) (payload : Option (List (List ℕ)))
    → (receive_stream env e meta payload).result ≢ out_of_fuel
unfolding receive_stream started pumped finish
receive_stream_ends env e meta payload = first (start_receive (env.sys 0) e meta)
  where
    pumped-Ends : (o : Option (List (List ℕ))) (e' : Engine) → Ends (pumped env meta o e')
    pumped-Ends none e' = finished-Ends _ []
    pumped-Ends (some reads) e' =
        if_cases Ends (meta.file_size == unknown_size) _ _
          (λ _. receive_unknown-Ends env meta.transfer_id e' reads 0 [])
          (λ _.
            receive_known-Ends (suc meta.file_size) env meta.transfer_id meta.file_size e'
              (concat reads) 0 [] (omega arith))

    first : (r : Result (Unit {0}) × Engine) → Ends (started r (pumped env meta payload))
    first (err c, e') p = cc
    first (ok _, e') p = pumped-Ends payload e' p
