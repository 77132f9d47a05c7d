-- ===== src/Session/Accepts.antt =====
-- When `validate` accepts a token, in terms of the times and the fingerprint alone.
use onto_ontological_context.Prelude.{
  ℕ, ◌+◌, ◌≤◌, ◌≡◌, refl, ◌↔◌, ◌⊎◌, inl, inr, ◌∙◌, ap, sym, String, Bool, true, false, not, ◌&&◌,
  Option, none, some, arith, eq_iff, if◌then◌else◌, Option-cases,
}
use onto_ontological_context.Prelude.Dict
use onto_ontological_context.Prelude.Keys.{IsDict}
use onto_ontological_context.Session.{SessionRecord, SessionManager, is_expired}
use onto_ontological_context.Session.Manager.{
  Config, is_some, hash_option, same_option, binding_ok, validate,
}
use onto_ontological_context.Session.Tokens.{granted, validate-granted}

same_option_iff : (a b : Option String) → (same_option a b ≡ true) ↔ (a ≡ b)
same_option_iff none none = (λ h. refl, λ h. refl)
same_option_iff none (some b) = (λ h. cc, λ h. cc)
same_option_iff (some a) none = (λ h. cc, λ h. cc)
same_option_iff (some a) (some b) = (λ h. ap some ((eq_iff a b).0 h), λ h. (eq_iff a b).1 (cc h))

is_some_iff : (a : Option String) → (is_some a ≡ false) ↔ (a ≡ none)
is_some_iff none = (λ h. refl, λ h. refl)
is_some_iff (some a) = (λ h. cc, λ h. cc)

picked_iff :
    (b : Bool) (x r : SessionRecord)
    → (◌≡◌ {A = Option SessionRecord} (if b then some x else none) (some r))
      ↔ ((b ≡ true) × (r ≡ x))
picked_iff true x r = (λ h. (refl, cc h), λ h. ap some (sym h.1))
picked_iff false x r = (λ h. absurd (cc h), λ h. absurd (ground arith))

module _ (prefix fingerprint_hash : String → String) where
  -- What a session needs for its token to be accepted.
  pub record Accepts (c : Config) (now : ℕ) (fingerprint : Option String) (s : SessionRecord)
      : Type 0 where
    pub in_use : now ≤ s.last_used_at + s.idle_timeout
    pub in_time : now ≤ s.created_at + s.max_duration
    pub connection :
        (c.enforce_connection_binding ≡ false)
        ⊎ (s.connection_fingerprint_hash ≡ none)
        ⊎ (hash_option fingerprint_hash fingerprint ≡ s.connection_fingerprint_hash)

  is_expired_iff :
      (now : ℕ) (s : SessionRecord)
      → (is_expired now s ≡ false)
        ↔ ((now ≤ s.last_used_at + s.idle_timeout) × (now ≤ s.created_at + s.max_duration))
  unfolding is_expired
  is_expired_iff now s = ground arith

  binding_ok_iff :
      (c : Config) (fingerprint : Option String) (s : SessionRecord)
      → (binding_ok prefix fingerprint_hash c fingerprint s ≡ true) ↔ (
          (c.enforce_connection_binding ≡ false)
          ⊎ (s.connection_fingerprint_hash ≡ none)
          ⊎ (hash_option fingerprint_hash fingerprint ≡ s.connection_fingerprint_hash))
  unfolding binding_ok
  binding_ok_iff c fingerprint s = ground (
    arith,
    is_some_iff s.connection_fingerprint_hash,
    same_option_iff (hash_option fingerprint_hash fingerprint) s.connection_fingerprint_hash,
  )

  abbrev lets_in : Config → ℕ → Option String → SessionRecord → Bool
  lets_in c now fingerprint s =
      not (is_expired now s) && binding_ok prefix fingerprint_hash c fingerprint s

  granted_iff :
      (c : Config) (now : ℕ) (fingerprint : Option String) (s r : SessionRecord)
      → (granted prefix fingerprint_hash c now fingerprint (some s) ≡ some r)
        ↔ (Accepts c now fingerprint s × (r ≡ record s { last_used_at = now }))
  granted_iff c now fingerprint s r = (
    λ h.
        let (taken, same) =
          (picked_iff (lets_in c now fingerprint s) (record s { last_used_at = now }) r).0 h in
        let (in_use, in_time) = (is_expired_iff now s).0 (ground arith) in
        (
          record {
            in_use = in_use;
            in_time = in_time;
            connection = (binding_ok_iff c fingerprint s).0 (ground arith);
          },
          same,
        ),
    λ h.
        let (ok, same) = h in
        let alive = (is_expired_iff now s).1 (ok.in_use, ok.in_time) in
        let bound = (binding_ok_iff c fingerprint s).1 ok.connection in
        (picked_iff (lets_in c now fingerprint s) (record s { last_used_at = now }) r).1
          (ground arith, same),
  )

  -- `validate` accepts a token exactly if there is a session under it that has neither been idle too
  -- long nor reached the end of its duration, and whose connection, if it is bound to one and binding
  -- is enforced, has the fingerprint that is presented; it answers with this session, used now. The
  -- tokens of the manager are distinct.
  pub validate_iff :
      (c : Config) (now : ℕ) (raw : String) (fingerprint : Option String) (m : SessionManager)
      (r : SessionRecord)
      → IsDict m.sessions
      → ((validate prefix fingerprint_hash c now raw fingerprint m).0 ≡ some r) ↔ (
          (s : SessionRecord) × (Dict.get raw m.sessions ≡ some s)
          × Accepts c now fingerprint s
          × (r ≡ record s { last_used_at = now }))
  validate_iff c now raw fingerprint m r d =
      let e = validate-granted prefix fingerprint_hash c now raw fingerprint m d in
      (
        λ h. elim (Option-cases (Dict.get raw m.sessions)) [
          | inl gone ↦ absurd (
              impossible
                (sym (e ∙ ap (granted prefix fingerprint_hash c now fingerprint) gone) ∙ h))
          | inr (s, there) ↦
              let (ok, same) =
                (granted_iff c now fingerprint s r).0
                  (sym (e ∙ ap (granted prefix fingerprint_hash c now fingerprint) there) ∙ h) in
              (s, there, ok, same)
        ],
        λ h.
            let (s, there, ok, same) = h in
            e
            ∙ ap (granted prefix fingerprint_hash c now fingerprint) there
            ∙ (granted_iff c now fingerprint s r).1 (ok, same),
      )
    where
      impossible : ◌≡◌ {A = Option SessionRecord} none (some r) → ⊥
      impossible h = cc h
