-- ===== src/Ipc/Client/Examples.antt =====
-- Two calls that share a connection: both are written before the daemon answers the first one.
use handfast.Base.{ℕ, true, false, List, [], ◌∷◌, ◌≡◌, refl, All, ◌++◌}
use handfast.Json.{string}
use handfast.Ipc.Proto.{Response, ServerEvent, ok_json}
use handfast.Ipc.Client.{
  Reply, replied, returned, Move, advance, run, connect, starts, pushes, checks, resumes, writes,
  reads, breaks, serves,
}
use handfast.Ipc.Client.Paired.Steps.{is_fine}
use handfast.Ipc.Client.Paired.Matched.{response_matches}
use handfast.Ipc.Client.Swept.Returned.{no_call_left}

abbrev greeting : ServerEvent
greeting = ServerEvent.hello 1 "handfast" 7

abbrev pong : Response
pong = ok_json (string "pong")

abbrev call : ℕ → List Move
call n = starts n ∷ pushes n ∷ writes true n ∷ checks n ∷ []

abbrev shared : List Move
shared = call 1 ++ call 2 ++ (reads ∷ serves pong ∷ serves pong ∷ reads ∷ reads ∷ resumes 2 ∷ [])

shared_fine : All (λ a. is_fine a ≡ true) shared
shared_fine = (
  refl,
  (
    refl,
    (
      refl,
      (refl, (refl, (refl, (refl, (refl, (refl, (refl, (refl, (refl, (refl, (refl, tt))))))))))),
    ),
  ),
)

response_matches_example : ◌≡◌ {A = ℕ} 2 2
unfolding run
response_matches_example = response_matches greeting shared 2 2 pong shared_fine refl

-- The daemon goes away before it answers.
abbrev cut_off : List Move
cut_off = call 1 ++ (breaks ∷ reads ∷ reads ∷ [])

no_call_left_example :
    (why : Reply) × ((advance (resumes 1) (run cut_off (connect greeting))).phases 1 ≡ returned why)
unfolding run
no_call_left_example = no_call_left greeting cut_off 1 refl refl

-- The first request is too large to be written, which leaves the stream untouched. Two others are
-- written before the first call declares the connection dead, and the third call gets the response to
-- the second one's request.
abbrev crossing : List Move
crossing =
    (starts 1
      ∷ starts 2
      ∷ starts 3
      ∷ pushes 1
      ∷ writes false 1
      ∷ pushes 2
      ∷ writes true 2
      ∷ checks 2
      ∷ pushes 3
      ∷ writes true 3
      ∷ checks 3
      ∷ reads
      ∷ serves pong
      ∷ serves pong
      ∷ reads
      ∷ reads
      ∷ resumes 2
      ∷ [])

crossed_test : (run crossing (connect greeting)).phases 2 ≡ returned (replied 3 pong)
unfolding run
crossed_test = refl
