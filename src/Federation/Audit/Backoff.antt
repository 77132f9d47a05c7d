-- ===== src/Federation/Audit/Backoff.antt =====
-- The backoff of `check_rate_limit`.
use onto_ontological_context.Prelude.{
  ℕ, ◌-◌, ◌≤◌, ◌≡◌, inl, inr, String, List, [], ◌∷◌, arith, length, ltb, leb, Bool-cases, All,
}
use onto_ontological_context.Prelude.Dict
use onto_ontological_context.Prelude.Dict.{Dict, get_or-set}
use onto_ontological_context.Federation.Audit.{
  RateState, RateAnswer, rate_ok, in_backoff, rate_exceeded, find_level, escalate_backoff, recent,
  check_rate_limit,
}

escalate_expired :
    (peer : String) (now : ℕ) (s : RateState)
    → Dict.get_or peer 0 s.backoff_state ≤ now
    → (escalate_backoff peer now s).0 ≡ 120
unfolding escalate_backoff find_level
escalate_expired peer now s over =
    let zero : Dict.get_or peer 0 s.backoff_state - now ≡ 0 = omega arith in rw zero

-- a peer's calls at the given times, and the answers
unfoldable pub calls_at : ℕ → String → List ℕ → RateState → List RateAnswer
calls_at limit peer [] s = []
calls_at limit peer (now ∷ times) s =
    (check_rate_limit limit peer now s).0
    ∷ calls_at limit peer times (check_rate_limit limit peer now s).1

-- An answer that puts a peer into backoff does so for 120 seconds.
abbrev pub IsFlat : RateAnswer → Type 0
IsFlat (rate_exceeded n level) = level ≡ 120
IsFlat rate_ok = Unit
IsFlat (in_backoff remaining) = Unit

check_rate_limit-IsFlat :
    (limit : ℕ) (peer : String) (now : ℕ) (s : RateState)
    → IsFlat (check_rate_limit limit peer now s).0
unfolding check_rate_limit
check_rate_limit-IsFlat limit peer now s =
    elim (Bool-cases (ltb now (Dict.get_or peer 0 s.backoff_state))) [
      | inl e ↦ rw e tt
      | inr e ↦ rw e (elim (Bool-cases (leb limit (length (recent peer now s)))) [
        | inl full ↦ rw full (
            escalate_expired peer now
              (record s { rate_state = Dict.set peer (recent peer now s) s.rate_state })
              (ground (arith)))
        | inr room ↦ rw room tt
      ])
    ]

-- Whatever a peer sends and whenever, each answer that puts it into backoff does so for 120 seconds,
-- from any state.
pub calls_at-IsFlat :
    (limit : ℕ) (peer : String) (times : List ℕ) (s : RateState)
    → All IsFlat (calls_at limit peer times s)
unfolding calls_at
calls_at-IsFlat limit peer [] s = tt
calls_at-IsFlat limit peer (now ∷ times) s = (
  check_rate_limit-IsFlat limit peer now s,
  calls_at-IsFlat limit peer times (check_rate_limit limit peer now s).1,
)
