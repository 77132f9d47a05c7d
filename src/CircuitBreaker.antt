-- ===== src/CircuitBreaker.antt =====
-- api/federation/circuit_breaker.py: `PeerCircuitBreaker` and `CircuitBreakerRegistry`. Times and the
-- recovery window are ticks of one clock; the threshold and the window come from the configuration.
pub mod Machine
pub mod Probe
pub mod Registry
mod Tests
use onto_ontological_context.Prelude.{
  ℕ, suc, ◌+◌, ◌-◌, ◌≡◌, Bool, true, false, not, ◌&&◌, Option, none, some, List, [], ◌∷◌, ltb, leb,
  if◌then◌else◌, map, String,
}
use onto_ontological_context.Prelude.Dict
use onto_ontological_context.Prelude.Dict.{Dict}

pub data State : Type 0 where
  state_closed state_open state_half_open : State

pub record Breaker : Type 0 where
  pub state : State
  pub consecutive_failures : ℕ
  pub opened_at : Option ℕ
  pub probe_in_flight : Bool

-- `__init__`, `on_success` and `reset`
abbrev pub closed_breaker : Breaker
closed_breaker = record {
  state = state_closed;
  consecutive_failures = 0;
  opened_at = none;
  probe_in_flight = false;
}

-- `before_call` returns, or raises `CircuitOpen` with `retry_after`.
pub data Answer : Type 0 where
  proceed : Answer
  circuit_open : ℕ → Answer

-- `self._opened_at or 0.0`
abbrev pub opened : Option ℕ → ℕ
opened none = 0
opened (some t) = t

unfoldable pub on_success : Breaker → Breaker
on_success b = closed_breaker

unfoldable pub reset : Breaker → Breaker
reset b = closed_breaker

-- `self._state != self._STATE_OPEN`
abbrev pub is_not_open : State → Bool
is_not_open state_open = false
is_not_open state_closed = true
is_not_open state_half_open = true

-- What threads do to a breaker, in the order of its lock.
pub data Event : Type 0 where
  called : ℕ → Event
  succeeded : Event
  failed : ℕ → Event
  was_reset : Event

-- `CircuitBreakerRegistry.get`: the registry maps the names of peers to their breakers
unfoldable pub get_breaker : String → Dict Breaker → Breaker × Dict Breaker
get_breaker peer_did breakers = elim (Dict.get peer_did breakers) [
  | none ↦ (closed_breaker, Dict.set peer_did closed_breaker breakers)
  | some breaker ↦ (breaker, breakers)
]

unfoldable pub reset_all : Dict Breaker → Dict Breaker
unfolding reset
reset_all [] = []
reset_all ((peer_did, breaker) ∷ rest) = (peer_did, reset breaker) ∷ reset_all rest

module _ (failure_threshold recovery_seconds : ℕ) where
  -- `recovery - (now - opened_at)`, where it is positive
  unfoldable pub remaining : ℕ → Breaker → ℕ
  remaining now b = (opened b.opened_at + recovery_seconds) - now

  -- `before_call` in each state
  unfoldable pub before_call_in : State → ℕ → Breaker → Answer × Breaker
  unfolding remaining
  before_call_in state_closed now b = (proceed, b)
  before_call_in state_open now b =
      if ltb 0 (remaining now b)
      then (circuit_open (remaining now b), b)
      else (proceed, record b { state = state_half_open; probe_in_flight = true })
  before_call_in state_half_open now b =
      if b.probe_in_flight
      then (circuit_open 0, b)
      else (proceed, record b { probe_in_flight = true })

  unfoldable pub before_call : ℕ → Breaker → Answer × Breaker
  unfolding before_call_in
  before_call now b = before_call_in b.state now b

  unfoldable pub on_failure : ℕ → Breaker → Breaker
  on_failure now b =
      let failures = b.consecutive_failures + 1 in
      let counted : Breaker = record b {
        consecutive_failures = failures;
        probe_in_flight = false;
      } in
      if is_not_open b.state && leb failure_threshold failures
      then record counted { state = state_open; opened_at = some now }
      else counted

  unfoldable pub step : Event → Breaker → Breaker
  unfolding before_call on_success on_failure reset
  step (called now) b = (before_call now b).1
  step succeeded b = on_success b
  step (failed now) b = on_failure now b
  step was_reset b = reset b

  unfoldable pub run : List Event → Breaker → Breaker
  unfolding step
  run [] b = b
  run (e ∷ es) b = run es (step e b)

  -- A caller's event at the breaker that the registry has for the peer.
  unfoldable pub at_peer : String → Event → Dict Breaker → Dict Breaker
  unfolding get_breaker
  at_peer peer_did e breakers =
      let (breaker, found) = get_breaker peer_did breakers in
      Dict.set peer_did (step e breaker) found
