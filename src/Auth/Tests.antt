-- ===== src/Auth/Tests.antt =====
-- Runs of the model of core/auth.py, and its theorems at concrete inputs.
use onto_ontological_context.Prelude.{
  ℕ, ◌+◌, ◌-◌, ◌*◌, ◌/◌, ◌≤◌, ◌≡◌, ◌↔◌, refl, String, true, false, some, List, [], ◌∷◌, arith,
}
use onto_ontological_context.Auth.{
  Params, AuthState, Attempt, max_attempts, lockout_duration, second, new_manager, setup, matches,
  authenticate, attempt_all, is_locked_out,
}
use onto_ontological_context.Auth.Lockout.{guesses, guesses-le}
use onto_ontological_context.Auth.Setup.{authenticate-setup_iff}

abbrev argon : String → List ℕ → Params → String
argon passphrase salt params = passphrase

abbrev params : Params
params = record { memory_kb = 65536; time_cost = 3; parallelism = 4; hash_len = 32 }

abbrev state : AuthState
state = record {
  identity = "operator";
  passphrase_hash = "a long passphrase";
  auth_salt = 7 ∷ [];
  verification_phrase = "blue";
  algorithm_params = params;
}

-- Wrong passphrases, one each second, and one after the lockout.
abbrev attempt_at : ℕ → Attempt argon
attempt_at t = (t * second, t * second, some "guess")

abbrev attempts : List (Attempt argon)
attempts =
    attempt_at 1
    ∷ attempt_at 2
    ∷ attempt_at 3
    ∷ attempt_at 4
    ∷ attempt_at 5
    ∷ attempt_at 6
    ∷ attempt_at 400
    ∷ []

six_guesses : guesses (attempt_all argon state attempts new_manager).0 ≡ 6
unfolding attempt_all
six_guesses = refl

guesses-le_example :
    guesses (attempt_all argon state attempts new_manager).0
    ≤ max_attempts + (400 * second - 0) / lockout_duration
unfolding matches
guesses-le_example =
    guesses-le argon state 0 (400 * second) attempts
      (refl, (refl, (refl, (refl, (refl, (refl, (refl, tt))))))) (omega arith)

authenticate-setup_iff_example :
    ((authenticate argon true 5 6 (some "a long passphrase") (some state) new_manager).0.success
      ≡ true)
    ↔ ((is_locked_out 5 new_manager ≡ false)
        × ◌≡◌ {A = String} "a long passphrase" "a long passphrase")
unfolding setup
authenticate-setup_iff_example =
    authenticate-setup_iff argon (λ salt params p q same. same) params 7 [] "a long passphrase"
      "blue" "operator" "a long passphrase" true 5 6 new_manager refl
