-- ===== src/Backoff.antt =====
-- The wait between attempts, internal/backoff/backoff.go, and the reopening of a port with it: the
-- loop of Run in internal/device/serial/serial.go. A time.Duration is an int64 of nanoseconds, and
-- its doubling wraps; the random spread of a wait is a parameter.
pub mod Doubling
use device_serial_scanner.Common.{
  ℕ, zero, suc, ◌+◌, ◌*◌, ◌-◌, Bool, true, false, ◌&&◌, not, min, leb, ltb, List, [], ◌∷◌,
  if◌then◌else◌, ℤ, pos, double, at_least, below, natural, ◌++◌,
}

-- A jitter, a float64, as far as the program compares it with 0 and 1.
pub data Jitter : Type 0 where
  below_zero no_jitter within_one above_one not_a_number : Jitter

-- The policy as the configuration gives it, with durations that may be negative.
pub record PolicySettings : Type 0 where
  pub interval : ℤ
  pub grow : Bool
  pub longest : ℤ
  pub jitter : Jitter

pub data PolicyProblem : Type 0 where
  bad_interval max_below_interval bad_jitter : PolicyProblem

-- `jitter < 0 || jitter > 1`, which no comparison with a NaN satisfies.
abbrev pub out_of_range : Jitter → Bool
out_of_range below_zero = true
out_of_range above_one = true
out_of_range _ = false

-- Policy.Validate, the problems in its order.
unfoldable pub validate_policy : PolicySettings → List PolicyProblem
validate_policy policy =
    (if at_least 1 policy.interval then [] else bad_interval ∷ [])
    ++ (if policy.grow
        then (if below policy.longest policy.interval then max_below_interval ∷ [] else [])
          ++ (if out_of_range policy.jitter then bad_jitter ∷ [] else [])
        else [])

-- A policy that its validation accepts, whose durations are not negative. `jitter` says whether the
-- fraction is above 0.
pub record Policy : Type 0 where
  pub interval : ℕ
  pub grow : Bool
  pub longest : ℕ
  pub jitter : Bool

-- Policy.Validate, less the range of the jitter: whether it finds no problem.
unfoldable pub is_usable : Policy → Bool
is_usable policy = ltb 0 policy.interval && not (policy.grow && ltb policy.longest policy.interval)

-- The loop of Wait: at most so many doublings, and none from the longest wait on.
unfoldable pub double_up : ℕ → ℤ → ℤ → ℤ
unfolding double
double_up zero longest wait = wait
double_up (suc n) longest wait =
    let rest = double_up n longest (double wait) in if below wait longest then rest else wait

-- Go's `min`, of two durations.
abbrev pub shorter : ℤ → ℤ → ℤ
shorter a b = if below b a then b else a

-- Policy.Wait, with `spread` for the jitter around a wait.
unfoldable pub wait_for : Policy → (ℤ → ℤ) → ℕ → ℤ
unfolding double_up
wait_for policy spread retry =
    if policy.grow
    then (let grown = double_up (retry - 1) (pos policy.longest) (pos policy.interval) in
        let wait = shorter grown (pos policy.longest) in
        if policy.jitter then spread wait else wait)
    else pos policy.interval

-- The retries since the last success, after a session that lasted so long.
unfoldable pub next_retry : Policy → ℕ → ℕ → ℕ
next_retry policy lasted retry = (if leb policy.longest lasted then 0 else retry) + 1

-- The waits of Run between its sessions: how long each session lasted, and the jitter around the
-- wait behind it, which is drawn anew for each.
unfoldable pub reopen_waits : Policy → ℕ → List (ℕ × (ℤ → ℤ)) → List ℤ
unfolding wait_for next_retry
reopen_waits policy retry [] = []
reopen_waits policy retry ((lasted, spread) ∷ sessions) =
    let n = next_retry policy lasted retry in
    wait_for policy spread n ∷ reopen_waits policy n sessions
