-- ===== src/Session/Rotation.antt =====
-- core/session.py: a rotated token stays out of use, whatever else is done.
use onto_ontological_context.Prelude.{
  ℕ, ◌<◌, ◌≡◌, refl, ◌∙◌, ap, inl, inr, String, false, Option, none, some, List, [], ◌∷◌, arith,
  All, length, ltb, leb, str_eq, eq_iff, Bool-cases, Option-cases,
}
use mathlib.Core.Path.{subst}
use onto_ontological_context.Prelude.Dict
use onto_ontological_context.Prelude.Dict.{Dict, get-remove, get-set}
use onto_ontological_context.Session.{
  SessionRecord, SessionManager, is_expired, dispatch, drop_session, purge_expired, oldest, rank,
}
use onto_ontological_context.Session.Manager.{
  Request, Config, supersede, terminate, update_data_classification, start, binding_ok,
  validate_purged, validate, do_rotate, rotate, Call, start_call, validate_call, rotate_call,
  terminate_call, classify_call, reset_call, perform, perform_all,
}
use onto_ontological_context.Session.Purge.{purge_expired-absent}
use onto_ontological_context.Session.Tokens.{
  granted, rotated, get-terminate, validate-granted, rotate_lem, absent_after_rotate,
}
use onto_ontological_context.Session.Capacity.{IsWell}
use onto_ontological_context.Session.Capacity.Calls.{rotate-IsWell, perform_all_from}

-- No session has the token.
abbrev pub Absent : String → SessionManager → Type 0
Absent t m = Dict.get t m.sessions ≡ none

-- A call does not give out the token; the tokens of a start and a rotation are random.
abbrev pub Spares : String → Call → Type 0
Spares t (start_call now raw q) = str_eq raw t ≡ false
Spares t (validate_call now raw fingerprint) = Unit
Spares t (rotate_call now raw new_raw) = str_eq new_raw t ≡ false
Spares t (terminate_call now raw) = Unit
Spares t (classify_call raw classification) = Unit
Spares t reset_call = Unit

absent-remove :
    (t raw : String) (d : Dict SessionRecord)
    → Dict.get t d ≡ none
    → Dict.get t (Dict.remove raw d) ≡ none
absent-remove t raw d h = ground (arith, h, get-remove t raw d)

absent-set :
    (t raw : String) (s : SessionRecord) (d : Dict SessionRecord)
    → str_eq raw t ≡ false
    → Dict.get t d ≡ none
    → Dict.get t (Dict.set raw s d) ≡ none
absent-set t raw s d other h = get-set t raw s d ∙ rw other h

-- A token with a session is not one without.
other_token :
    (t raw : String) (s : SessionRecord) (d : Dict SessionRecord)
    → Dict.get t d ≡ none
    → Dict.get raw d ≡ some s
    → str_eq raw t ≡ false
other_token t raw s d h e = elim (Bool-cases (str_eq raw t)) [
  | inl same ↦
      let there : Dict.get raw d ≡ none = ap (λ k. Dict.get k d) ((eq_iff raw t).0 same) ∙ h in
      absurd (cc (there, e))
  | inr other ↦ other
]

absent-renew :
    (t raw : String) (s r : SessionRecord) (d : Dict SessionRecord)
    → Dict.get raw d ≡ some s
    → Dict.get t d ≡ none
    → Dict.get t (Dict.set raw r d) ≡ none
absent-renew t raw s r d e h = absent-set t raw r d (other_token t raw s d h e) h

-- No session has the token, if the operation did not raise.
abbrev AbsentIn : String → Option SessionManager → Type 0
AbsentIn t none = Unit
AbsentIn t (some m) = Absent t m

supersede-Absent :
    (c : Config) (t : String) (m : SessionManager) → Absent t m → AbsentIn t (supersede c m)
unfolding supersede drop_session dispatch
supersede-Absent c t m h = elim (Bool-cases (leb c.max_concurrent_sessions (length m.sessions))) [
  | inl full ↦ elim (Option-cases (oldest m.sessions)) [
    | inl e ↦ rw (full, e, supersede) tt
    | inr ((raw, s), e) ↦ rw (full, e, supersede) (absent-remove t raw m.sessions h)
  ]
  | inr room ↦ rw room h
]

terminate-Absent :
    (now : ℕ) (t raw : String) (m : SessionManager) → Absent t m → Absent t (terminate now raw m).1
terminate-Absent now t raw m h = ground (arith, h, get-terminate now t raw m)

update_data_classification-Absent :
    (t raw classification : String) (m : SessionManager)
    → Absent t m
    → Absent t (update_data_classification raw classification m).1
unfolding update_data_classification dispatch
update_data_classification-Absent t raw classification m h =
    elim (Option-cases (Dict.get raw m.sessions)) [
      | inl e ↦ rw (e, update_data_classification) h
      | inr (s, e) ↦ elim (Bool-cases (ltb (rank s.data_classification) (rank classification))) [
        | inl up ↦ rw (e, update_data_classification, up) (absent-renew t raw s _ m.sessions e h)
        | inr down ↦ rw (e, update_data_classification, down) h
      ]
    ]

module _ (prefix fingerprint_hash : String → String) where
  validate_purged-Absent :
      (c : Config) (now : ℕ) (t raw : String) (fingerprint : Option String) (m : SessionManager)
      → Absent t m
      → Absent t (validate_purged prefix fingerprint_hash c now raw fingerprint m).1
  unfolding validate_purged dispatch drop_session
  validate_purged-Absent c now t raw fingerprint m h =
      elim (Option-cases (Dict.get raw m.sessions)) [
        | inl e ↦ rw (e, validate_purged) h
        | inr (s, e) ↦ elim (Bool-cases (binding_ok prefix fingerprint_hash c fingerprint s)) [
          | inl ok ↦ rw (e, validate_purged, ok) (absent-renew t raw s _ m.sessions e h)
          | inr bad ↦ rw (e, validate_purged, bad) (absent-remove t raw m.sessions h)
        ]
      ]

  rotate-Absent :
      (now : ℕ) (t raw new_raw : String) (m : SessionManager)
      → str_eq new_raw t ≡ false
      → Absent t m
      → Absent t (rotate prefix fingerprint_hash now raw new_raw m).1
  unfolding rotate do_rotate dispatch
  rotate-Absent now t raw new_raw m other h =
      let purged = purge_expired-absent now t m h in
      elim (Option-cases (Dict.get raw (purge_expired now m).sessions)) [
        | inl e ↦ rw (e, rotate) purged
        | inr (s, e) ↦
            rw (e, rotate)
              (absent-set t new_raw _ (Dict.remove raw (purge_expired now m).sessions) other
                (absent-remove t raw (purge_expired now m).sessions purged))
      ]

  start-Absent :
      (c : Config) (now : ℕ) (t raw : String) (q : Request) (m : SessionManager)
      → str_eq raw t ≡ false
      → Absent t m
      → AbsentIn t (start prefix fingerprint_hash c now raw q m)
  unfolding start dispatch
  start-Absent c now t raw q m other h = elim (Option-cases (supersede c (purge_expired now m))) [
    | inl e ↦ rw (e, start) tt
    | inr (room, e) ↦
        let free : Absent t room =
          subst (AbsentIn t) e
            (supersede-Absent c t (purge_expired now m) (purge_expired-absent now t m h)) in
        rw (e, start) (absent-set t raw _ room.sessions other free)
  ]

  perform-Absent :
      (c : Config) (call : Call) (t : String) (m : SessionManager)
      → Spares t call
      → Absent t m
      → AbsentIn t (perform prefix fingerprint_hash c call m)
  unfolding perform validate Dict.get
  perform-Absent c (start_call now raw q) t m spares h = start-Absent c now t raw q m spares h
  perform-Absent c (validate_call now raw fingerprint) t m spares h =
      validate_purged-Absent c now t raw fingerprint (purge_expired now m)
        (purge_expired-absent now t m h)
  perform-Absent c (rotate_call now raw new_raw) t m spares h =
      rotate-Absent now t raw new_raw m spares h
  perform-Absent c (terminate_call now raw) t m spares h = terminate-Absent now t raw m h
  perform-Absent c (classify_call raw classification) t m spares h =
      update_data_classification-Absent t raw classification m h
  perform-Absent c reset_call t m spares h = refl

  perform_all-Absent :
      (c : Config) (calls : List Call) (t : String) (m : SessionManager)
      → All (Spares t) calls
      → Absent t m
      → AbsentIn t (perform_all prefix fingerprint_hash c calls m)
  unfolding perform_all
  perform_all-Absent c [] t m spares h = h
  perform_all-Absent c (call ∷ calls) t m (first, rest) h =
      elim (Option-cases (perform prefix fingerprint_hash c call m)) [
        | inl e ↦ rw (e, perform_all) tt
        | inr (next, e) ↦
            rw (e, perform_all)
              (perform_all-Absent c calls t next rest
                (subst (AbsentIn t) e (perform-Absent c call t m first h)))
      ]

  -- The rotation of a session that has not expired succeeds. Directly after it the new token is accepted
  -- as the old one would have been, for the same session. Whatever calls follow, none raises, and
  -- after them the old token is refused, at any time and from any connection. The random tokens that
  -- are given out by the rotation and later differ from the old one.
  pub rotate-final :
      (c : Config) (now later : ℕ) (raw new_raw : String) (fingerprint : Option String)
      (s : SessionRecord) (m : SessionManager) (calls : List Call)
      → 0 < c.max_concurrent_sessions
      → IsWell c.max_concurrent_sessions m
      → Dict.get raw m.sessions ≡ some s
      → is_expired now s ≡ false
      → str_eq new_raw raw ≡ false
      → All (Spares raw) calls
      → let next = (rotate prefix fingerprint_hash now raw new_raw m).1 in
        ((rotate prefix fingerprint_hash now raw new_raw m).0 ≡ some new_raw)
        × ((validate prefix fingerprint_hash c later new_raw fingerprint next).0
            ≡ granted prefix fingerprint_hash c later fingerprint
                (some (rotated prefix fingerprint_hash now new_raw s)))
        × (after : SessionManager) × (perform_all prefix fingerprint_hash c calls next ≡ some after)
        × ((validate prefix fingerprint_hash c later raw fingerprint after).0 ≡ none)
  rotate-final c now later raw new_raw fingerprint s m calls pos well e alive fresh spares =
      let next = (rotate prefix fingerprint_hash now raw new_raw m).1 in
      let (done, old, new) =
        rotate_lem prefix fingerprint_hash c now later raw new_raw fingerprint s m well.distinct e
          alive fresh in
      let (after, path, well_after) =
        perform_all_from prefix fingerprint_hash c calls next pos
          (rotate-IsWell prefix fingerprint_hash _ now raw new_raw m well) in
      let gone : Absent raw after = subst (AbsentIn raw) path (
        perform_all-Absent c calls raw next spares (
          absent_after_rotate prefix fingerprint_hash now raw new_raw s m well.distinct e alive
            fresh)) in
      (
        done,
        new,
        after,
        path,
        validate-granted prefix fingerprint_hash c later raw fingerprint after well_after.distinct
            ∙ ap (granted prefix fingerprint_hash c later fingerprint) gone,
      )
