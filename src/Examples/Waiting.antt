-- ===== src/Examples/Waiting.antt =====
-- Waits and requests of the runtime client, with a clock of one tick a second.
use agentic_control_tower.Prelude.{
  ◌≡◌, ◌≢◌, refl, ℕ, ◌*◌, String, Bool, true, Option, none, some, List, [], ◌∷◌, ◌==◌, eqb, arith,
  if◌then◌else◌,
}
use agentic_control_tower.Json.{Json, num}
use agentic_control_tower.Client.{
  Attempt, answered, unreachable, response, other_error, returned, out_of_fuel, wait, wait_loop,
  request, request_from,
}
use agentic_control_tower.Client.Waiting.{
  Sleeps, Polls, start, again, wait_terminates, wait_returned, wait_finds,
}
use agentic_control_tower.Client.Retries.{Ends, request-Ends}

-- The third poll is done.
abbrev third : ℕ → Option String
third k = if eqb k 2 then some "closed" else some "active"

abbrev is_closed : String → Bool
is_closed s = s == "closed"

abbrev seconds : ℕ → ℕ
seconds k = k * 10

seconds-Sleeps : Sleeps seconds 10
seconds-Sleeps = record { starts = omega arith; sleeps = λ k. omega arith }

wait_terminates_example : wait third is_closed seconds 6 45 ≢ out_of_fuel
wait_terminates_example =
    wait_terminates third is_closed seconds 10 seconds-Sleeps 5 6 45 (omega arith) (omega arith)

wait_returned_example :
    (n : ℕ) × Polls third is_closed seconds 45 0 n
    × (third n ≡ some "closed")
    × (is_closed "closed" ≡ true)
unfolding wait wait_loop
wait_returned_example = wait_returned third is_closed seconds 6 45 "closed" refl

polled_twice : Polls third is_closed seconds 45 0 2
polled_twice = again refl refl refl (again refl refl refl start)

wait_finds_example : wait third is_closed seconds 6 45 ≡ returned "closed"
wait_finds_example =
    wait_finds third is_closed seconds 6 45 2 "closed" polled_twice refl refl (omega arith)

-- The gateway answers the third attempt.
abbrev third_time : ℕ → Attempt
third_time k = if eqb k 2 then answered (55 ∷ []) else unreachable

abbrev parsed : List ℕ → Option Json
parsed raw = some (num 7)

request_example :
    Ends third_time parsed 10 3
      (request third_time parsed 10 3).result
      (request third_time parsed 10 3).slept
request_example = request-Ends third_time parsed 10 3

request_runs : request third_time parsed 10 3 ≡ record { result = response (num 7); slept = 30 }
unfolding request request_from
request_runs = refl

-- An answer that is no JSON is not asked for again.
request_stops : request third_time (λ raw. none) 10 5 ≡ record { result = other_error; slept = 30 }
unfolding request request_from
request_stops = refl
