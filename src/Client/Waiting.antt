-- ===== src/Client/Waiting.antt =====
-- The loop of `_wait`: it ends, it returns the first result that is done, and it times out only at the
-- deadline.
use agentic_control_tower.Prelude.{
  ◌≡◌, ◌≢◌, refl, ℕ, zero, suc, ◌+◌, ◌*◌, ◌≤◌, ◌<◌, Bool, true, false, Option, none, some, leb,
  arith, Bool-cases, inl, inr, if◌then◌else◌,
}
use agentic_control_tower.Client.{
  returned, client_error, client_timeout, out_of_fuel, wait_loop, wait,
}

-- `time.sleep(interval)` between two readings of the clock, which does not go back.
pub record Sleeps (monotonic : ℕ → ℕ) (interval : ℕ) : Type 0 where
  pub starts : monotonic 0 ≤ monotonic 1
  pub sleeps : (k : ℕ) → monotonic (suc k) + interval ≤ monotonic (suc (suc k))

-- The polls from `k` on gave results that were not done, each before the deadline, and the next one is
-- the `n`-th.
pub data Polls {A : Type 0} (produce : ℕ → Option A) (done : A → Bool) (monotonic : ℕ → ℕ)
    (deadline : ℕ) : ℕ → ℕ → Type 0 where
  start : {k : ℕ} → Polls produce done monotonic deadline k k
  again :
      {k n : ℕ} {a : A}
      → produce k ≡ some a
      → done a ≡ false
      → leb deadline (monotonic (suc k)) ≡ false
      → Polls produce done monotonic deadline (suc k) n
      → Polls produce done monotonic deadline k n

module _ {A : Type 0} (produce : ℕ → Option A) (done : A → Bool) (monotonic : ℕ → ℕ) where
  ends_in_time :
      (interval : ℕ)
      → Sleeps monotonic interval
      → (n fuel k deadline : ℕ) → deadline ≤ monotonic (suc k) + n * interval
      → n < fuel
      → wait_loop produce done monotonic fuel k deadline ≢ out_of_fuel
  unfolding wait_loop
  ends_in_time interval sleeping n zero k deadline late enough = absurd (omega arith)
  ends_in_time interval sleeping zero (suc fuel) k deadline late enough =
      let due : deadline ≤ monotonic (suc k) = omega arith in ground arith
  ends_in_time interval sleeping (suc n) (suc fuel) k deadline late enough =
      let slept = sleeping.sleeps k in
      let later =
        ends_in_time interval sleeping n fuel (suc k) deadline (omega arith) (omega arith) in
      ground arith

  -- Where the clock does not go back and each sleep takes at least the interval, the loop ends within
  -- one round more than the intervals that cover the timeout.
  pub wait_terminates :
      (interval : ℕ)
      → Sleeps monotonic interval
      → (n fuel timeout : ℕ) → timeout ≤ n * interval
      → n < fuel
      → wait produce done monotonic fuel timeout ≢ out_of_fuel
  unfolding wait
  wait_terminates interval sleeping n fuel timeout covered enough =
      let started = sleeping.starts in
      ends_in_time interval sleeping n fuel 0 (monotonic 0 + timeout) (omega arith) enough

  loop_returned :
      (fuel k deadline : ℕ) (a : A)
      → wait_loop produce done monotonic fuel k deadline ≡ returned a
      → (n : ℕ) × Polls produce done monotonic deadline k n × (produce n ≡ some a) × (done a ≡ true)
  unfolding wait_loop
  loop_returned zero k deadline a h = cc
  loop_returned (suc fuel) k deadline a h =
      by_poll (loop_returned fuel (suc k) deadline a) (produce k) refl h
    where
      by_poll :
          (wait_loop produce done monotonic fuel (suc k) deadline ≡ returned a
            → (n : ℕ) × Polls produce done monotonic deadline (suc k) n
              × (produce n ≡ some a)
              × (done a ≡ true))
          → (o : Option A) → produce k ≡ o
          → (elim o [
            | none ↦ client_error
            | some b ↦
                if done b
                then returned b
                else if leb deadline (monotonic (suc k))
                then client_timeout
                else wait_loop produce done monotonic fuel (suc k) deadline
          ])
            ≡ returned a
          → (n : ℕ) × Polls produce done monotonic deadline k n
            × (produce n ≡ some a)
            × (done a ≡ true)
      by_poll later none e h = cc
      by_poll later (some b) e h = elim (Bool-cases (done b)) [
        | inl yes_done ↦
            let is_b = rw yes_done at h in
            let same : b ≡ a = cc in (k, start, rw same at e, rw same at yes_done)
        | inr not_done ↦ elim (Bool-cases (leb deadline (monotonic (suc k)))) [
          | inl late ↦ let no = rw (not_done, late) at h in cc
          | inr early ↦
              let (n, polls, at_n, done_n) = later (rw (not_done, early) at h) in
              (n, again e not_done early polls, at_n, done_n)
        ]
      ]

  Polls-le : {deadline k n : ℕ} → Polls produce done monotonic deadline k n → k ≤ n
  Polls-le start = omega arith
  Polls-le (again e not_done early polls) = let le = Polls-le polls in omega arith

  loop_finds :
      (fuel : ℕ) {k deadline n : ℕ} (a : A)
      → Polls produce done monotonic deadline k n
      → produce n ≡ some a
      → done a ≡ true
      → n < k + fuel
      → wait_loop produce done monotonic fuel k deadline ≡ returned a
  unfolding wait_loop
  loop_finds zero a polls at_n done_n enough = let le = Polls-le polls in absurd (omega arith)
  loop_finds (suc fuel) a start at_n done_n enough = rw (wait_loop, at_n, done_n) refl
  loop_finds (suc fuel) a (again e not_done early polls) at_n done_n enough =
      rw (wait_loop, e, not_done, early) (loop_finds fuel a polls at_n done_n (omega arith))

  -- What the loop returns is the result of a poll that is done, and every earlier poll gave a result
  -- that was not done, before the deadline.
  pub wait_returned :
      (fuel timeout : ℕ) (a : A)
      → wait produce done monotonic fuel timeout ≡ returned a
      → (n : ℕ) × Polls produce done monotonic (monotonic 0 + timeout) 0 n
        × (produce n ≡ some a)
        × (done a ≡ true)
  unfolding wait
  wait_returned fuel timeout a h = loop_returned fuel 0 (monotonic 0 + timeout) a h

  -- Where the `n`-th poll is the first that is done, all polls before it gave a result, and each of them
  -- was made before the deadline, the loop returns the result of that poll, with enough fuel to reach
  -- it.
  pub wait_finds :
      (fuel timeout n : ℕ) (a : A)
      → Polls produce done monotonic (monotonic 0 + timeout) 0 n
      → produce n ≡ some a
      → done a ≡ true
      → n < fuel
      → wait produce done monotonic fuel timeout ≡ returned a
  unfolding wait
  wait_finds fuel timeout n a polls at_n done_n enough =
      loop_finds fuel a polls at_n done_n (omega arith)
