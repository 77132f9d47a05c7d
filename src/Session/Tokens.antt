-- ===== src/Session/Tokens.antt =====
-- Which tokens a manager accepts: `validate` in full, and what a rotation and a termination do to it.
use onto_ontological_context.Prelude.{
  ℕ, ◌≡◌, refl, ◌∙◌, ap, sym, inl, inr, String, false, not, ◌&&◌, Option, none, some, str_eq,
  eq_iff, eq_refl, if◌then◌else◌, Bool-cases, Option-cases,
}
use onto_ontological_context.Prelude.Dict
use onto_ontological_context.Prelude.Dict.{Dict, get-remove, get-set}
use onto_ontological_context.Prelude.Keys.{IsDict, set-IsDict, remove-IsDict}
use onto_ontological_context.Session.{
  SessionRecord, SessionManager, is_expired, dispatch, drop_session, purge_expired,
}
use onto_ontological_context.Session.Manager.{
  Config, is_some, terminate, binding_ok, validate_purged, validate, do_rotate, rotate,
}
use onto_ontological_context.Session.Purge.{live, get-purge_expired, purge_expired-IsDict}

pub get-terminate :
    (now : ℕ) (t raw : String) (m : SessionManager)
    → Dict.get t (terminate now raw m).1.sessions
      ≡ (if str_eq raw t then none else Dict.get t m.sessions)
unfolding terminate dispatch drop_session
get-terminate now t raw m = elim (Option-cases (Dict.get raw m.sessions)) [
  | inl e ↦
      rw (e, terminate)
        (elim (Bool-cases (str_eq raw t)) [
          | inl same ↦ rw same (ap (λ r. Dict.get r m.sessions) (sym ((eq_iff raw t).0 same)) ∙ e)
          | inr other ↦ rw other
        ])
  | inr (s, e) ↦ rw (e, terminate) (get-remove t raw m.sessions)
]

terminate-IsDict :
    (now : ℕ) (raw : String) (m : SessionManager)
    → IsDict m.sessions
    → IsDict (terminate now raw m).1.sessions
unfolding terminate dispatch drop_session
terminate-IsDict now raw m d = elim (Option-cases (Dict.get raw m.sessions)) [
  | inl e ↦ rw (e, terminate) d
  | inr (s, e) ↦ rw (e, terminate) (remove-IsDict raw m.sessions d)
]

terminate_found :
    (now : ℕ) (raw : String) (m : SessionManager)
    → (terminate now raw m).0 ≡ is_some (Dict.get raw m.sessions)
unfolding terminate
terminate_found now raw m = elim (Option-cases (Dict.get raw m.sessions)) [
  | inl e ↦ rw (e, terminate)
  | inr (s, e) ↦ rw (e, terminate)
]

module _ (prefix fingerprint_hash : String → String) where
  -- What `validate` answers for a session or none: the session with its new time of use, if it has not
  -- expired and the connection is the one that it is bound to.
  abbrev pub granted : Config → ℕ → Option String → Option SessionRecord → Option SessionRecord
  granted c now fingerprint none = none
  granted c now fingerprint (some s) =
      if not (is_expired now s) && binding_ok prefix fingerprint_hash c fingerprint s
      then some (record s { last_used_at = now })
      else none

  granted_purged :
      (c : Config) (now : ℕ) (raw : String) (fingerprint : Option String) (m : SessionManager)
      (o : Option SessionRecord)
      → Dict.get raw m.sessions ≡ live now o
      → (validate_purged prefix fingerprint_hash c now raw fingerprint m).0
        ≡ granted c now fingerprint o
  unfolding validate_purged
  granted_purged c now raw fingerprint m none e = rw (e, validate_purged)
  granted_purged c now raw fingerprint m (some s) e = elim (Bool-cases (is_expired now s)) [
    | inl dead ↦
        let gone : Dict.get raw m.sessions ≡ none = e ∙ rw dead in rw (gone, validate_purged, dead)
    | inr alive ↦
        let there : Dict.get raw m.sessions ≡ some s = e ∙ rw alive in
        elim (Bool-cases (binding_ok prefix fingerprint_hash c fingerprint s)) [
          | inl ok ↦ rw (there, validate_purged, alive, ok)
          | inr bad ↦ rw (there, validate_purged, alive, bad)
        ]
  ]

  -- `validate` by what is under the token before the purge. The tokens of the manager are distinct.
  pub validate-granted :
      (c : Config) (now : ℕ) (raw : String) (fingerprint : Option String) (m : SessionManager)
      → IsDict m.sessions
      → (validate prefix fingerprint_hash c now raw fingerprint m).0
        ≡ granted c now fingerprint (Dict.get raw m.sessions)
  unfolding validate
  validate-granted c now raw fingerprint m d =
      granted_purged c now raw fingerprint (purge_expired now m) (Dict.get raw m.sessions)
        (get-purge_expired now raw m d)

  -- A terminated token is never accepted again, at any time and from any connection, until a start or
  -- a rotation gives it out anew; other tokens are accepted as before. The answer says whether there
  -- was a session.
  terminate_lem :
      (c : Config) (now later : ℕ) (raw t : String) (fingerprint : Option String)
      (m : SessionManager)
      → IsDict m.sessions
      → ((terminate now raw m).0 ≡ is_some (Dict.get raw m.sessions))
        × ((validate prefix fingerprint_hash c later t fingerprint (terminate now raw m).1).0 ≡ (
            if str_eq raw t
            then none
            else (validate prefix fingerprint_hash c later t fingerprint m).0))
  terminate_lem c now later raw t fingerprint m d = (
    terminate_found now raw m,
    validate-granted c later t fingerprint (terminate now raw m).1 (terminate-IsDict now raw m d)
        ∙ ap (granted c later fingerprint) (get-terminate now t raw m)
        ∙ elim (Bool-cases (str_eq raw t)) [
          | inl same ↦ rw same
          | inr other ↦ rw other (sym (validate-granted c later t fingerprint m d))
        ],
  )

  -- the session under its new token
  abbrev pub rotated : ℕ → String → SessionRecord → SessionRecord
  rotated now new_raw s = record s {
    raw_token = new_raw;
    token_prefix = prefix new_raw;
    rotated_at = some now;
  }

  get-do_rotate :
      (now : ℕ) (t raw new_raw : String) (s : SessionRecord) (m : SessionManager)
      → Dict.get t (do_rotate prefix fingerprint_hash now raw new_raw s m).sessions ≡ (
          if str_eq new_raw t
          then some (rotated now new_raw s)
          else if str_eq raw t
          then none
          else Dict.get t m.sessions)
  unfolding do_rotate dispatch
  get-do_rotate now t raw new_raw s m =
      get-set t new_raw (rotated now new_raw s) (Dict.remove raw m.sessions)
      ∙ ap (λ o. if str_eq new_raw t then some (rotated now new_raw s) else o)
          (get-remove t raw m.sessions)

  do_rotate-IsDict :
      (now : ℕ) (raw new_raw : String) (s : SessionRecord) (m : SessionManager)
      → IsDict m.sessions
      → IsDict (do_rotate prefix fingerprint_hash now raw new_raw s m).sessions
  unfolding do_rotate dispatch
  do_rotate-IsDict now raw new_raw s m d =
      set-IsDict new_raw (rotated now new_raw s) (Dict.remove raw m.sessions)
        (remove-IsDict raw m.sessions d)

  rotate_found :
      (now : ℕ) (raw new_raw : String) (s : SessionRecord) (m : SessionManager)
      → Dict.get raw (purge_expired now m).sessions ≡ some s
      → rotate prefix fingerprint_hash now raw new_raw m
        ≡ (some new_raw, do_rotate prefix fingerprint_hash now raw new_raw s (purge_expired now m))
  unfolding rotate
  rotate_found now raw new_raw s m e = rw (e, rotate)

  pub absent_after_rotate :
      (now : ℕ) (raw new_raw : String) (s : SessionRecord) (m : SessionManager)
      → IsDict m.sessions
      → Dict.get raw m.sessions ≡ some s
      → is_expired now s ≡ false
      → str_eq new_raw raw ≡ false
      → Dict.get raw (rotate prefix fingerprint_hash now raw new_raw m).1.sessions ≡ none
  absent_after_rotate now raw new_raw s m d e alive fresh =
      let there : Dict.get raw (purge_expired now m).sessions ≡ some s =
        get-purge_expired now raw m d ∙ ap (live now) e ∙ rw alive in
      rw (rotate_found now raw new_raw s m there)
        (get-do_rotate now raw raw new_raw s (purge_expired now m) ∙ rw (fresh, eq_refl raw))

  -- The rotation of a session that has not expired succeeds. Directly after it the old token is refused,
  -- at any time and from any connection, and the new token is accepted as the old one would have been,
  -- for the same session. The random new token differs from the old one.
  pub rotate_lem :
      (c : Config) (now later : ℕ) (raw new_raw : String) (fingerprint : Option String)
      (s : SessionRecord) (m : SessionManager)
      → IsDict m.sessions
      → Dict.get raw m.sessions ≡ some s
      → is_expired now s ≡ false
      → str_eq new_raw raw ≡ false
      → ((rotate prefix fingerprint_hash now raw new_raw m).0 ≡ some new_raw)
        × ((validate prefix fingerprint_hash c later raw fingerprint
              (rotate prefix fingerprint_hash now raw new_raw m).1).0
            ≡ none)
        × ((validate prefix fingerprint_hash c later new_raw fingerprint
              (rotate prefix fingerprint_hash now raw new_raw m).1).0
            ≡ granted c later fingerprint (some (rotated now new_raw s)))
  rotate_lem c now later raw new_raw fingerprint s m d e alive fresh =
      let there : Dict.get raw (purge_expired now m).sessions ≡ some s =
        get-purge_expired now raw m d ∙ ap (live now) e ∙ rw alive in
      let purged = purge_expired now m in
      let after = do_rotate prefix fingerprint_hash now raw new_raw s purged in
      let well = do_rotate-IsDict now raw new_raw s purged (purge_expired-IsDict now m d) in
      let old_gone : Dict.get raw after.sessions ≡ none =
        get-do_rotate now raw raw new_raw s purged ∙ rw (fresh, eq_refl raw) in
      let new_there : Dict.get new_raw after.sessions ≡ some (rotated now new_raw s) =
        get-do_rotate now new_raw raw new_raw s purged ∙ rw (eq_refl new_raw) in
      rw (rotate_found now raw new_raw s m there) (
        refl,
        validate-granted c later raw fingerprint after well
            ∙ ap (granted c later fingerprint) old_gone,
        validate-granted c later new_raw fingerprint after well
            ∙ ap (granted c later fingerprint) new_there,
      )
