-- ===== src/Auth.antt =====
-- core/auth.py: the passphrase of the operator and the lockout after failed attempts. Argon2id is a
-- parameter. Times are microseconds of the monotonic clock; an attempt has two, since the hash
-- takes time between the check of the lockout and the record of a failure. The prompt, which can
-- be cancelled, is an argument; the time of the setup and the notes in auth.json are left out.
pub mod Lockout
pub mod Setup
mod Tests
use onto_ontological_context.Prelude.{
  ℕ, zero, suc, ◌+◌, ◌-◌, ◌*◌, ◌/◌, ◌^◌, min, String, Bool, true, false, ◌&&◌, Option, none, some,
  List, [], ◌∷◌, if◌then◌else◌, str_eq, ltb, leb, length, codes,
}

abbrev pub max_attempts : ℕ
max_attempts = 5

abbrev pub second : ℕ
second = 1_000_000

abbrev pub max_delay_seconds : ℕ
max_delay_seconds = 60

abbrev pub lockout_duration : ℕ
lockout_duration = 300 * second

abbrev pub auth_salt_size : ℕ
auth_salt_size = 32

pub record Params : Type 0 where
  pub memory_kb : ℕ
  pub time_cost : ℕ
  pub parallelism : ℕ
  pub hash_len : ℕ

-- auth.json
pub record AuthState : Type 0 where
  pub identity : String
  pub passphrase_hash : String
  pub auth_salt : List ℕ
  pub verification_phrase : String
  pub algorithm_params : Params

-- The reasons of an `AuthResult`. The first two and `accepted` are those of success and of a missing
-- setup; `locked_out` names the seconds that are left.
pub data Reason : Type 0 where
  development not_configured accepted cancelled incorrect too_many_failures : Reason
  locked_out : ℕ → Reason

pub record AuthResult : Type 0 where
  pub success : Bool
  pub identity : String
  pub reason : Reason
  pub passphrase : String

pub record AuthManager : Type 0 where
  pub failed_attempts : ℕ
  pub last_attempt_time : ℕ
  pub locked_until : ℕ

abbrev pub new_manager : AuthManager
new_manager = record { failed_attempts = 0; last_attempt_time = 0; locked_until = 0 }

unfoldable pub clear_passphrase : AuthResult → AuthResult
clear_passphrase r = record r { passphrase = "" }

unfoldable pub is_locked_out : ℕ → AuthManager → Bool
is_locked_out now m = ltb 0 m.locked_until && ltb now m.locked_until

unfoldable pub record_failure : ℕ → AuthManager → AuthManager
record_failure now m = record m { failed_attempts = m.failed_attempts + 1; last_attempt_time = now }

-- in seconds
unfoldable pub get_delay : AuthManager → ℕ
get_delay m =
    if leb m.failed_attempts 1 then 0 else min (1 * 2 ^ (m.failed_attempts - 1)) max_delay_seconds

abbrev pub refused : Reason → AuthResult
refused reason = record { success = false; identity = ""; reason = reason; passphrase = "" }

unfoldable pub zeros : ℕ → List ℕ
zeros zero = []
zeros (suc n) = 0 ∷ zeros n

-- the salt for Argon2, which wants 8 bytes
unfoldable pub effective_salt : List ℕ → List ℕ
unfolding zeros
effective_salt salt = if leb 8 (length salt) then salt else zeros 8

-- an old auth.json has no salt
unfoldable pub stored_salt : List ℕ → List ℕ
unfolding zeros
stored_salt [] = zeros auth_salt_size
stored_salt (b ∷ salt) = b ∷ salt

module _ (hash_secret_raw : String → List ℕ → Params → String) where
  unfoldable pub hash_passphrase : String → List ℕ → Params → String
  unfolding effective_salt
  hash_passphrase passphrase salt params = hash_secret_raw passphrase (effective_salt salt) params

  -- none stands for ValueError
  unfoldable pub setup : Params → List ℕ → String → String → String → Option AuthState
  unfolding hash_passphrase
  setup params auth_salt passphrase verification_phrase identity =
      if ltb (length (codes passphrase)) 12
      then none
      else if ltb (length (codes verification_phrase)) 4
      then none
      else some (record {
        identity = identity;
        passphrase_hash = hash_passphrase passphrase auth_salt params;
        auth_salt = auth_salt;
        verification_phrase = verification_phrase;
        algorithm_params = params;
      })

  unfoldable pub matches : String → AuthState → Bool
  unfolding hash_passphrase stored_salt
  matches entered state =
      str_eq (hash_passphrase entered (stored_salt state.auth_salt) state.algorithm_params)
        state.passphrase_hash

  -- the rest of `authenticate`, for the answer of the comparison; the result, the seconds that it
  -- sleeps, and the manager
  unfoldable pub conclude :
      ℕ → String → AuthState → Bool → AuthManager → AuthResult × ℕ × AuthManager
  unfolding record_failure get_delay
  conclude done entered state true m = (
    record { success = true; identity = state.identity; reason = accepted; passphrase = entered },
    0,
    record m { failed_attempts = 0 },
  )
  conclude done entered state false m =
      let failed = record_failure done m in
      if leb max_attempts failed.failed_attempts
      then (
        refused too_many_failures,
        get_delay failed,
        record failed { locked_until = done + lockout_duration },
      )
      else (refused incorrect, get_delay failed, failed)

  unfoldable pub authenticate_with :
      ℕ → ℕ → Option String → AuthState → AuthManager → AuthResult × ℕ × AuthManager
  unfolding is_locked_out matches conclude
  authenticate_with now done entered state m =
      if is_locked_out now m
      then (refused (locked_out ((m.locked_until - now) / second)), 0, m)
      else elim entered [
        | none ↦ (refused cancelled, 0, m)
        | some passphrase ↦ conclude done passphrase state (matches passphrase state) m
      ]

  unfoldable pub authenticate :
      Bool → ℕ → ℕ → Option String → Option AuthState → AuthManager → AuthResult × ℕ × AuthManager
  unfolding authenticate_with
  authenticate auth_required now done entered none m =
      if auth_required then (refused not_configured, 0, m) else (
        record { success = true; identity = "dev-operator"; reason = development; passphrase = "" },
        0,
        m,
      )
  authenticate auth_required now done entered (some state) m =
      authenticate_with now done entered state m

  -- the times of an attempt, and what is entered
  abbrev pub Attempt : Type 0
  Attempt = ℕ × ℕ × Option String

  -- attempts one after the other, with their results
  unfoldable pub attempt_all :
      AuthState → List Attempt → AuthManager → List AuthResult × AuthManager
  unfolding authenticate
  attempt_all state [] m = ([], m)
  attempt_all state ((now, done, entered) ∷ attempts) m =
      let (result, delay, next) = authenticate true now done entered (some state) m in
      let (results, last) = attempt_all state attempts next in (result ∷ results, last)
