-- ===== src/Auth/Setup.antt =====
-- Which passphrases core/auth.py accepts after a setup.
use onto_ontological_context.Prelude.{
  ℕ, ◌≡◌, ◌↔◌, ap, String, Bool, true, false, some, List, ◌∷◌, arith, str_eq, eq_iff,
}
use onto_ontological_context.Auth.{
  Params, AuthState, AuthManager, setup, matches, conclude, authenticate_with, authenticate,
  is_locked_out, stored_salt, hash_passphrase, effective_salt,
}

module _ (argon : String → List ℕ → Params → String)
    (collision_free : (salt : List ℕ) (params : Params) (p q : String)
      → argon p salt params ≡ argon q salt params
      → p ≡ q) where
  setup_stores :
      (params : Params) (salt : List ℕ) (passphrase phrase identity : String) {state : AuthState}
      → setup argon params salt passphrase phrase identity ≡ some state
      → (state.passphrase_hash ≡ argon passphrase (effective_salt salt) params)
        × (state.auth_salt ≡ salt)
        × (state.algorithm_params ≡ params)
        × (state.identity ≡ identity)
  unfolding setup hash_passphrase
  setup_stores params salt passphrase phrase identity made = ground arith

  same_hash :
      (salt : List ℕ) (params : Params) (entered passphrase : String)
      → (str_eq (argon entered salt params) (argon passphrase salt params) ≡ true)
        ↔ (entered ≡ passphrase)
  same_hash salt params entered passphrase =
      let iff = eq_iff (argon entered salt params) (argon passphrase salt params) in
      (
        λ same. collision_free salt params entered passphrase (iff.0 same),
        λ same. iff.1 (ap (λ p. argon p salt params) same),
      )

  matches-setup :
      (params : Params) (b : ℕ) (salt : List ℕ) (passphrase phrase identity entered : String)
      {state : AuthState}
      → setup argon params (b ∷ salt) passphrase phrase identity ≡ some state
      → (matches argon entered state ≡ true) ↔ (entered ≡ passphrase)
  unfolding matches stored_salt hash_passphrase
  matches-setup params b salt passphrase phrase identity entered {state} made =
      let (hash, same_salt, same_params, name) =
        setup_stores params (b ∷ salt) passphrase phrase identity made in
      rw (hash, same_salt, same_params)
        (same_hash (effective_salt (b ∷ salt)) params entered passphrase)

  -- After a setup with a salt, an attempt succeeds exactly if it is not made during a lockout and the
  -- passphrase of the setup is entered. Argon2 is assumed to have no collisions.
  pub authenticate-setup_iff :
      (params : Params) (b : ℕ) (salt : List ℕ) (passphrase phrase identity entered : String)
      (required : Bool) (now done : ℕ) (m : AuthManager) {state : AuthState}
      → setup argon params (b ∷ salt) passphrase phrase identity ≡ some state
      → ((authenticate argon required now done (some entered) (some state) m).0.success ≡ true)
        ↔ ((is_locked_out now m ≡ false) × (entered ≡ passphrase))
  unfolding authenticate authenticate_with conclude
  authenticate-setup_iff params b salt passphrase phrase identity entered required now done m made =
      let same = matches-setup params b salt passphrase phrase identity entered made in
      ground (arith, same)
