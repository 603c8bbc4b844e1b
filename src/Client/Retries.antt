-- ===== src/Client/Retries.antt =====
-- The retries of `_request`: which attempt a request ends with, and how long it slept before.
use agentic_control_tower.Prelude.{
  ◌≡◌, ◌⊎◌, refl, ℕ, zero, suc, ◌+◌, ◌*◌, ◌-◌, ◌<◌, true, false, Option, none, some, List, leb,
  arith, Bool-cases, inl, inr,
}
use mathlib.Core.Path.{subst}
use agentic_control_tower.Json.{Json}
use agentic_control_tower.Client.{
  Attempt, answered, http_error, unreachable, raised, RequestResult, failed_with, failed,
  other_error, Sent, read_answer, request_from, request,
}

plus_zero : (n : ℕ) → n + 0 ≡ n
plus_zero n = omega arith

lt-split : (j i : ℕ) → j < suc i → (j < i) ⊎ (j ≡ i)
lt-split j i h = ground arith

-- 1 + 2 + … + n
abbrev pub triangle : ℕ → ℕ
triangle zero = 0
triangle (suc n) = triangle n + suc n

-- What an attempt ends the request with, `none` where it reached nothing.
abbrev pub outcome : (List ℕ → Option Json) → Attempt → Option RequestResult
outcome loads (answered raw) = some (read_answer loads raw)
outcome loads (http_error code) = some (failed_with code)
outcome loads raised = some other_error
outcome loads unreachable = none

-- The two ends of a request of `n` attempts: with the first attempt that reached something, whatever
-- came of it, after the sleeps between the attempts before it, or without one, after the sleeps
-- between all attempts.
pub data Ends (urlopen : ℕ → Attempt) (loads : List ℕ → Option Json) (backoff n : ℕ)
    : RequestResult → ℕ → Type 0 where
  reached :
      (k : ℕ) (x : RequestResult)
      → k < n
      → ((j : ℕ) → j < k → urlopen j ≡ unreachable)
      → outcome loads (urlopen k) ≡ some x
      → Ends urlopen loads backoff n x (backoff * triangle k)
  unreached :
      ((j : ℕ) → j < n → urlopen j ≡ unreachable)
      → Ends urlopen loads backoff n failed (backoff * triangle (n - 1))

module _ (urlopen : ℕ → Attempt) (loads : List ℕ → Option Json) (backoff total : ℕ) where
  -- The end of a request, whose attempts before `i` reached nothing, and of which `n` are left.
  abbrev EndsFrom : ℕ → ℕ → Type 0
  EndsFrom n i =
      let out = request_from urlopen loads backoff total n i in
      Ends urlopen loads backoff total out.result (backoff * triangle i + out.slept)

  one_more :
      (i : ℕ)
      → ((j : ℕ) → j < i → urlopen j ≡ unreachable)
      → urlopen i ≡ unreachable
      → (j : ℕ) → j < suc i
      → urlopen j ≡ unreachable
  one_more i before now j below = elim (lt-split j i below) [
    | inl earlier ↦ before j earlier
    | inr here ↦ rw here now
  ]

  -- With the attempt `i`, the request ends without any further sleep.
  one_reached :
      (i : ℕ) (x : RequestResult)
      → i < total
      → ((j : ℕ) → j < i → urlopen j ≡ unreachable)
      → outcome loads (urlopen i) ≡ some x
      → Ends urlopen loads backoff total x (backoff * triangle i + 0)
  one_reached i x below before ends = rw (plus_zero _) (reached i x below before ends)

  -- The last attempt reached nothing.
  none_reached :
      (i : ℕ)
      → suc i ≡ total
      → ((j : ℕ) → j < suc i → urlopen j ≡ unreachable)
      → Ends urlopen loads backoff total failed (backoff * triangle i + 0)
  none_reached i last before =
      let same : i ≡ total - 1 = omega arith in
      rw (plus_zero, same) (unreached (λ j below. before j (omega arith)))

  by_attempt :
      (n i : ℕ) (a : Attempt)
      → urlopen i ≡ a
      → i + suc n ≡ total
      → ((j : ℕ) → j < i → urlopen j ≡ unreachable)
      → (leb total (suc i) ≡ false → urlopen i ≡ unreachable → EndsFrom n (suc i))
      → EndsFrom (suc n) i
  unfolding request_from
  by_attempt n i (answered raw) e sum before later =
      rw (request_from, e) (one_reached i _ (omega arith) before (rw e refl))
  by_attempt n i (http_error code) e sum before later =
      rw (request_from, e) (one_reached i _ (omega arith) before (rw e refl))
  by_attempt n i raised e sum before later =
      rw (request_from, e) (one_reached i _ (omega arith) before (rw e refl))
  by_attempt n i unreachable e sum before later = elim (Bool-cases (leb total (suc i))) [
    | inl last ↦ rw (request_from, e, last) (none_reached i (is_last last) (one_more i before e))
    | inr more ↦ rw (request_from, e, more, mul_triangle) (later more e)
  ]
    where
      is_last : leb total (suc i) ≡ true → suc i ≡ total
      is_last h = ground arith

      mul_triangle :
          (slept : ℕ)
          → backoff * triangle i + (backoff * suc i + slept) ≡ backoff * triangle (suc i) + slept
      mul_triangle slept = omega arith

  request_from-EndsFrom :
      (n i : ℕ)
      → i + suc n ≡ total
      → ((j : ℕ) → j < i → urlopen j ≡ unreachable)
      → EndsFrom (suc n) i
  request_from-EndsFrom zero i sum before =
      by_attempt zero i (urlopen i) refl sum before λ more e. absurd (not_more more)
    where
      not_more : leb total (suc i) ≡ false → ⊥
      not_more h = ground arith
  request_from-EndsFrom (suc n) i sum before =
      by_attempt (suc n) i (urlopen i) refl sum before
        λ more e. request_from-EndsFrom n (suc i) (omega arith) (one_more i before e)

-- Every request ends in one of two ways: with the first of its attempts that reached something, be it
-- an answer, an answer that is no JSON, an HTTP error or another exception, none of which is retried,
-- after sleeping 1, 2, … times the backoff between the attempts before it; or, where no attempt reached
-- anything, it fails, after the sleeps between all of them.
pub request-Ends :
    (urlopen : ℕ → Attempt) (loads : List ℕ → Option Json) (backoff retry_attempts : ℕ)
    → let sent = request urlopen loads backoff retry_attempts in
      Ends urlopen loads backoff retry_attempts sent.result sent.slept
unfolding request
request-Ends urlopen loads backoff zero =
    subst (λ slept. Ends urlopen loads backoff 0 failed slept) nothing
      (unreached (λ j below. absurd (omega arith)))
  where
    nothing : backoff * triangle 0 ≡ 0
    nothing = omega arith
request-Ends urlopen loads backoff (suc n) =
    subst (λ slept. Ends urlopen loads backoff (suc n) sent.result slept) all_of_it
      (request_from-EndsFrom urlopen loads backoff (suc n) n 0 (omega arith)
        λ j below. absurd (omega arith))
  where
    sent : Sent
    sent = request_from urlopen loads backoff (suc n) (suc n) 0

    all_of_it : backoff * triangle 0 + sent.slept ≡ sent.slept
    all_of_it = omega arith
