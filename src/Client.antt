-- ===== src/Client.antt =====
-- The client of runtimes, runtime_client.py: the requests with their retries, the loop that waits for an
-- operator, and what ends each wait. Times are in ticks of the monotonic clock; what the clock, the
-- transport and the polls return are arguments.
pub mod Waiting
pub mod Retries
pub mod Answers
use agentic_control_tower.Prelude.{
  ℕ, zero, suc, ◌+◌, ◌*◌, String, Bool, true, false, Option, none, some, List, [], ◌∷◌, ◌==◌, ◌||◌,
  last?, leb, eqb, contains, if◌then◌else◌,
}
use agentic_control_tower.Json.{Json, dict, Fields, end, field}
use agentic_control_tower.Store.Rows.{ApprovalState, DecisionType, ResponseRow, is_pending}
use agentic_control_tower.Runtime.{ApprovalResult}
use agentic_control_tower.Assistance.Handoffs.{HandoffResult}

-- How `_wait` ends; `out_of_fuel` is the model's own.
pub data WaitResult (A : Type 0) : Type 0 where
  returned : A → WaitResult A
  client_error : WaitResult A
  client_timeout : WaitResult A
  out_of_fuel : WaitResult A

-- `poll_interval_seconds or self.config.poll_interval_seconds`
abbrev pub interval_of : Option ℕ → ℕ → ℕ
interval_of none default = default
interval_of (some n) default = if eqb n 0 then default else n

-- The k-th call of `producer` is `produce k`, `none` where it raises; the k-th reading of
-- `time.monotonic` is `monotonic k`.
module _ {A : Type 0} (produce : ℕ → Option A) (done : A → Bool) (monotonic : ℕ → ℕ) where
  unfoldable pub wait_loop : ℕ → ℕ → ℕ → WaitResult A
  wait_loop zero k deadline = out_of_fuel
  wait_loop (suc fuel) k deadline =
      let rest = wait_loop fuel (suc k) deadline in
      elim (produce k) [
        | none ↦ client_error
        | some a ↦
            if done a
            then returned a
            else if leb deadline (monotonic (suc k))
            then client_timeout
            else rest
      ]

  unfoldable pub wait : ℕ → ℕ → WaitResult A
  unfolding wait_loop
  wait fuel timeout = wait_loop fuel 0 (monotonic 0 + timeout)

-- What one attempt gives: the bytes that were read, an HTTPError with its code, a URLError or a
-- TimeoutError, or any other exception.
pub data Attempt : Type 0 where
  answered : List ℕ → Attempt
  http_error : ℕ → Attempt
  unreachable : Attempt
  raised : Attempt

-- `failed_with` and `failed` are the RuntimeClientError for an HTTPError and the one after the loop;
-- `other_error` is an exception that leaves the loop as it is.
pub data RequestResult : Type 0 where
  response : Json → RequestResult
  failed_with : ℕ → RequestResult
  failed : RequestResult
  other_error : RequestResult

-- How a request ends, and how long it slept between its attempts, in ticks.
pub record Sent : Type 0 where
  pub result : RequestResult
  pub slept : ℕ

abbrev pub at_once : RequestResult → Sent
at_once x = record { result = x; slept = 0 }

-- `json.loads(raw.decode("utf-8")) if raw else {}`, where `loads` is `none` if either call raises.
abbrev pub read_answer : (List ℕ → Option Json) → List ℕ → RequestResult
read_answer loads [] = response (dict [])
read_answer loads (b ∷ raw) = elim (loads (b ∷ raw)) [ none ↦ other_error | some j ↦ response j ]

-- The request without a `transport` of its own. The k-th attempt gives `urlopen k`; a sleep takes
-- `retry_backoff_seconds * (attempt + 1)`.
module _ (urlopen : ℕ → Attempt) (loads : List ℕ → Option Json) (backoff retry_attempts : ℕ) where
  -- `for attempt in range(retry_attempts)`, from the attempt `i` on, with `n` left.
  unfoldable pub request_from : ℕ → ℕ → Sent
  request_from zero i = at_once failed
  request_from (suc n) i =
      let rest = request_from n (suc i) in
      elim (urlopen i) [
        | answered raw ↦ at_once (read_answer loads raw)
        | http_error code ↦ at_once (failed_with code)
        | raised ↦ at_once other_error
        | unreachable ↦
            if leb retry_attempts (suc i)
            then at_once failed
            else record { result = rest.result; slept = backoff * suc i + rest.slept }
      ]

  unfoldable pub request : Sent
  unfolding request_from
  request = request_from retry_attempts 0

-- `{key: item for key, item in value.items() if item is not None}`
unfoldable pub drop_none : Fields → Fields
drop_none end = end
drop_none (field k Json.null rest) = drop_none rest
drop_none (field k v rest) = field k v (drop_none rest)

-- `responses[-1]`
abbrev pub latest_response : ApprovalResult → Option ResponseRow
latest_response result = last? result.responses

abbrev pub ends_wait : DecisionType → Bool
ends_wait DecisionType.modified = true
ends_wait DecisionType.needs_info = true
ends_wait DecisionType.propose_policy = true
ends_wait _ = false

-- The `done` of `wait_for_approval`: only the pending state is not among the four.
abbrev pub approval_done : ApprovalResult → Bool
approval_done result =
    if is_pending result.state
    then elim (latest_response result) [ none ↦ false | some l ↦ ends_wait l.decision_type ]
    else true

abbrev pub is_some : Option String → Bool
is_some none = false
is_some (some s) = true

-- The `done` of `wait_for_assistance`, `wait_for_browser_assistance` and `wait_for_voice`.
abbrev pub assistance_done : HandoffResult → Bool
assistance_done result =
    is_some result.return_summary
    || contains result.state ("returned_to_agent" ∷ "closed" ∷ "cancelled" ∷ [])

abbrev pub browser_done : HandoffResult → Bool
browser_done result =
    is_some result.return_summary
    || contains result.state ("returned_to_agent" ∷ "closed" ∷ "failed" ∷ [])

abbrev pub voice_done : HandoffResult → Bool
voice_done result = result.state == "closed"

-- The hosts that `_assert_loopback_url` accepts: the name of the URL, or every address that it
-- resolves to, `none` where the resolution fails.
abbrev pub every : (String → Bool) → List String → Bool
every p [] = true
every p (x ∷ xs) = if p x then every p xs else false

unfoldable pub assert_loopback_url : String → Option String → Option (List String) → Bool
assert_loopback_url scheme none addresses = false
assert_loopback_url scheme (some host) addresses =
    if contains scheme ("http" ∷ "https" ∷ [])
    then (if host == ""
        then false
        else if contains host ("localhost" ∷ "127.0.0.1" ∷ "::1" ∷ [])
        then true
        else elim addresses [
          | none ↦ false
          | some found ↦ every (λ a. contains a ("127.0.0.1" ∷ "::1" ∷ [])) found
        ])
    else false
