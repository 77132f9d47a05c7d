-- ===== src/Auth/Lockout.antt =====
-- How many passphrases can be tried in a time, by the lockout of core/auth.py.
use onto_ontological_context.Prelude.{
  ℕ, ◌+◌, ◌-◌, ◌*◌, ◌/◌, ◌≤◌, ◌≡◌, String, Bool, true, false, Option, none, some, List, [], ◌∷◌,
  arith, if◌then◌else◌,
}
use onto_ontological_context.Auth.{
  Params, AuthState, AuthManager, AuthResult, Reason, accepted, incorrect, too_many_failures,
  new_manager, max_attempts, lockout_duration, is_locked_out, record_failure, matches, conclude,
  authenticate_with, authenticate, Attempt, attempt_all,
}

-- A passphrase was compared with the stored one.
abbrev pub is_guess : Reason → Bool
is_guess accepted = true
is_guess incorrect = true
is_guess too_many_failures = true
is_guess other = false

abbrev pub guesses : List AuthResult → ℕ
guesses [] = 0
guesses (r ∷ results) = (if is_guess r.reason then 1 else 0) + guesses results

module _ (argon : String → List ℕ → Params → String) (state : AuthState) where
  abbrev pub IsWrong : Option String → Type 0
  IsWrong none = Unit
  IsWrong (some passphrase) = matches argon passphrase state ≡ false

  -- The attempts follow one another, from one time to another.
  abbrev pub Follow : ℕ → List (Attempt argon) → ℕ → Type 0
  Follow from [] to = from ≤ to
  Follow from ((now, done, entered) ∷ attempts) to =
      (from ≤ now) × (now ≤ done) × Follow done attempts to

  abbrev pub AllWrong : List (Attempt argon) → Type 0
  AllWrong [] = Unit
  AllWrong ((now, done, entered) ∷ attempts) = IsWrong entered × AllWrong attempts

  -- The time since the start allows the failures, and so does the time of the lockout after five.
  record Allows (start now : ℕ) (m : AuthManager) : Type 0 where
    elapsed : start + lockout_duration * m.failed_attempts ≤ now + lockout_duration * max_attempts
    locked :
        max_attempts ≤ m.failed_attempts
        → start + lockout_duration * m.failed_attempts ≤ m.locked_until + lockout_duration * 4

  attempt-Allows :
      (start t now done : ℕ) (entered : Option String) (m : AuthManager)
      → IsWrong entered
      → start ≤ t
      → t ≤ now
      → now ≤ done
      → Allows start t m
      → let answer : AuthResult × ℕ × AuthManager =
          authenticate argon true now done entered (some state) m in
        Allows start done answer.2
        × (answer.2.failed_attempts
            ≡ m.failed_attempts + (if is_guess answer.0.reason then 1 else 0))
  unfolding authenticate authenticate_with conclude record_failure is_locked_out
  attempt-Allows start t now done none m wrong p q r a = ground arith
  attempt-Allows start t now done (some entered) m wrong p q r a = ground arith

  attempt_all-Allows :
      (start t : ℕ) (attempts : List (Attempt argon)) (to : ℕ) (m : AuthManager)
      → AllWrong attempts
      → Follow t attempts to
      → start ≤ t
      → Allows start t m
      → start
          + lockout_duration * (m.failed_attempts + guesses (attempt_all argon state attempts m).0)
        ≤ to + lockout_duration * max_attempts
  unfolding attempt_all
  attempt_all-Allows start t [] to m wrong follow p a = omega (arith, a.elapsed)
  attempt_all-Allows start t ((now, done, entered) ∷ attempts) to m wrong follow p a =
      let (next, count) = attempt-Allows start t now done entered m wrong.0 p follow.0 follow.1 a in
      let later : AuthManager = (authenticate argon true now done entered (some state) m).2 in
      omega (
        arith,
        count,
        attempt_all-Allows start done attempts to later wrong.1 follow.2 (omega arith) next,
      )

  -- However often a wrong passphrase is tried, at most five are compared in the time since the
  -- start, and one more for each full five minutes of it.
  pub guesses-le :
      (from to : ℕ) (attempts : List (Attempt argon))
      → AllWrong attempts
      → Follow from attempts to
      → guesses (attempt_all argon state attempts new_manager).0
        ≤ max_attempts + (to - from) / lockout_duration
  guesses-le from to attempts wrong follow = omega (
    arith,
    attempt_all-Allows from from attempts to new_manager wrong follow (omega arith)
        (record { elapsed = omega arith; locked = λ h. absurd (omega arith) }),
  )
