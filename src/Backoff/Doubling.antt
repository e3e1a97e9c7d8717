-- ===== src/Backoff/Doubling.antt =====
-- The growing wait: it doubles from one attempt to the next, up to the longest.
use device_serial_scanner.Common.{
  ℕ, zero, suc, ◌+◌, ◌*◌, ◌-◌, ◌^◌, ◌≤◌, ◌<◌, ◌≡◌, refl, sym, ◌∙◌, ap, ap₂, true, false, min, leb,
  ltb, List, [], ◌∷◌, map, All, if◌then◌else◌, arith, Bool-cases, inl, inr, ℤ, pos, int64, double,
}
use native.Mathlib.Nat.{mul_assoc, pow-succ', mul-le-mul_left, one-le-pow}
use device_serial_scanner.Backoff.{Policy, double_up, shorter, wait_for, next_retry, reopen_waits}

-- The wait behind so many retries, and the spread around it: the interval, doubled for each and cut
-- at the longest wait where the policy grows.
abbrev pub wait_behind : Policy → ℕ → (ℤ → ℤ) → ℤ
wait_behind policy retry spread =
    if policy.grow
    then (let wait = pos (min (policy.interval * 2 ^ retry) policy.longest) in
        if policy.jitter then spread wait else wait)
    else pos policy.interval

-- The waits of a device that fails again and again, from so many retries on, one for each spread.
abbrev pub doublings : Policy → ℕ → List (ℤ → ℤ) → List ℤ
doublings policy retry [] = []
doublings policy retry (spread ∷ spreads) =
    wait_behind policy retry spread ∷ doublings policy (retry + 1) spreads

double-pos : (n : ℕ) → n < 2 ^ 62 → double (pos n) ≡ pos (n * 2)
unfolding double int64
double-pos n h = ground arith

double_up-min :
    (n longest wait : ℕ)
    → longest ≤ 2 ^ 62
    → shorter (double_up n (pos longest) (pos wait)) (pos longest)
      ≡ pos (min (wait * 2 ^ n) longest)
unfolding double_up
double_up-min zero longest wait bound = ground arith
double_up-min (suc n) longest wait bound =
    let shift : wait * 2 * 2 ^ n ≡ wait * 2 ^ suc n =
      mul_assoc wait 2 (2 ^ n) ∙ ap (◌*◌ wait) (sym (pow-succ' 2 n)) in
    let grown : wait * 1 ≤ wait * 2 ^ suc n =
      mul-le-mul_left wait (one-le-pow (suc n) 2 (omega arith)) in
    elim (Bool-cases (ltb wait longest)) [
      | inl h ↦
          let small : wait < 2 ^ 62 = ground arith in
          rw (h, double-pos wait small)
            (double_up-min n longest (wait * 2) bound ∙ ap (λ w. pos (min w longest)) shift)
      | inr h ↦ rw h (ground (arith, grown))
    ]

wait_for-behind :
    (policy : Policy) (spread : ℤ → ℤ) (retry : ℕ)
    → (policy.grow ≡ true → policy.longest ≤ 2 ^ 62)
    → wait_for policy spread (retry + 1) ≡ wait_behind policy retry spread
unfolding wait_for
wait_for-behind policy spread retry bound =
    let e : retry + 1 - 1 ≡ retry = omega arith in
    elim (Bool-cases policy.grow) [
      | inr g ↦ rw g refl
      | inl g ↦ rw (g, e, double_up-min retry policy.longest policy.interval (bound g)) refl
    ]

-- A device that fails again and again. For any policy whose longest wait is at most 2 ^ 62
-- nanoseconds where its waits grow, however long the first session lasted, and with every later
-- one shorter than the longest wait: where the waits do not grow, each is the interval; where they
-- do, each wait before the port is opened again is twice the one before, up to the longest, spread
-- by that wait's jitter if the policy has one. The first is the policy's interval, doubled once for
-- each retry before, unless that session lasted as long as the longest wait or longer: then the
-- waits start over from the interval.
pub reopen_waits-doublings :
    (policy : Policy) (retry first : ℕ) (spread : ℤ → ℤ) (sessions : List (ℕ × (ℤ → ℤ)))
    → (policy.grow ≡ true → policy.longest ≤ 2 ^ 62)
    → All (λ session. session.0 < policy.longest) sessions
    → reopen_waits policy retry ((first, spread) ∷ sessions)
      ≡ doublings policy
          (if leb policy.longest first then 0 else retry)
          (spread ∷ map (λ session. session.1) sessions)
unfolding reopen_waits next_retry
reopen_waits-doublings policy retry first spread [] bound h =
    ap (λ w. w ∷ []) (wait_for-behind policy spread _ bound)
reopen_waits-doublings policy retry first spread ((next, later) ∷ sessions) bound h =
    let from = if leb policy.longest first then 0 else retry in
    let short : leb policy.longest next ≡ false = ground (arith, h.0) in
    ap₂ ◌∷◌ (wait_for-behind policy spread from bound) (
      reopen_waits-doublings policy (from + 1) next later sessions bound h.1
      ∙ ap
          (λ b.
            doublings policy (if b then 0 else from + 1)
              (later ∷ map (λ session. session.1) sessions))
          short)
