-- ===== src/Ratelimit.antt =====
-- core/ratelimit.py: `SlidingWindowRateLimiter` and `GlobalRateLimiter`. The state is the deque of
-- times, in microseconds of the monotonic clock; `limit` and `window` come from the configuration.
pub mod Spec
pub mod Bound
pub mod Wait
mod Tests
use onto_ontological_context.Prelude.{
  ℕ, ◌+◌, ◌-◌, ◌*◌, ◌/◌, List, [], ◌∷◌, ◌++◌, length, ltb, leb, ◌==◌, if◌then◌else◌,
}

abbrev pub second : ℕ
second = 1000000

-- `(True, "")`, or `(False, reason)` with the seconds to wait that the reason names.
pub data Verdict : Type 0 where
  allowed : Verdict
  refused : ℕ → Verdict

module _ (window : ℕ) where
  -- `while self._timestamps and self._timestamps[0] < cutoff: self._timestamps.popleft()`
  unfoldable pub evict : ℕ → List ℕ → List ℕ
  evict now [] = []
  evict now (t ∷ ts) =
      let rest = evict now ts in if ltb (t + window * second) now then rest else t ∷ ts

  unfoldable pub wait_seconds : ℕ → ℕ → ℕ
  wait_seconds now oldest = (window * second - (now - oldest)) / second + 1

  unfoldable pub current_count : ℕ → List ℕ → ℕ × List ℕ
  current_count now timestamps = (length (evict now timestamps), evict now timestamps)

abbrev pub reset : List ℕ → List ℕ
reset timestamps = []

unfoldable pub record_input : ℕ → List ℕ → List ℕ
record_input now timestamps = timestamps ++ now ∷ []

module _ (limit window : ℕ) where
  -- the test of the evicted deque; one that is at a limit above 0 is not empty
  unfoldable pub verdict : ℕ → List ℕ → Verdict
  verdict now [] = allowed
  verdict now (oldest ∷ rest) =
      if leb limit (length (oldest ∷ rest))
      then refused (wait_seconds window now oldest)
      else allowed

  unfoldable pub check : ℕ → List ℕ → Verdict × List ℕ
  unfolding verdict evict
  check now timestamps =
      if limit == 0
      then (allowed, timestamps)
      else (verdict now (evict window now timestamps), evict window now timestamps)

  unfoldable pub check_and_record : ℕ → List ℕ → Verdict × List ℕ
  unfolding record_input
  check_and_record now timestamps =
      if limit == 0
      then (allowed, timestamps)
      else elim (verdict now (evict window now timestamps)) [
        | allowed ↦ (allowed, record_input now (evict window now timestamps))
        | refused wait ↦ (refused wait, evict window now timestamps)
      ]

-- `GlobalRateLimiter` has the same body over a deque and a limit of its own, and the middleware of
-- api/main.py asks it first. The configuration and the two deques:
pub record Limits : Type 0 where
  pub rate_limit_per_minute : ℕ
  pub global_rate_limit_per_minute : ℕ
  pub rate_limit_window_seconds : ℕ

pub record Limiters : Type 0 where
  pub rate_limiter : List ℕ
  pub global_rate_limiter : List ℕ

unfoldable pub check_and_record_global : Limits → ℕ → List ℕ → Verdict × List ℕ
check_and_record_global c now timestamps =
    check_and_record c.global_rate_limit_per_minute c.rate_limit_window_seconds now timestamps

-- A request, at the times that the two limiters read.
unfoldable pub rate_limit_middleware : Limits → ℕ → ℕ → Limiters → Verdict × Limiters
rate_limit_middleware c now later l =
    let (asked, global) = check_and_record_global c now l.global_rate_limiter in
    let (verdict, client) =
      check_and_record c.rate_limit_per_minute c.rate_limit_window_seconds later l.rate_limiter in
    elim asked [
      | refused wait ↦ (refused wait, record l { global_rate_limiter = global })
      | allowed ↦ (verdict, record { rate_limiter = client; global_rate_limiter = global })
    ]
