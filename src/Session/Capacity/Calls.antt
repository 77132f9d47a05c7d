-- ===== src/Session/Capacity/Calls.antt =====
-- Every operation of the manager keeps it well-formed, and `start` never raises.
use onto_ontological_context.Prelude.{
  ℕ, ◌<◌, ◌≡◌, refl, ◌⊎◌, inl, inr, String, true, false, Option, none, some, List, [], ◌∷◌, arith,
  str_eq, eq_iff, eq_refl, Bool-cases, Option-cases,
}
use onto_ontological_context.Prelude.Dict
use onto_ontological_context.Prelude.Dict.{Dict, keys, get-remove, get-set}
use onto_ontological_context.Prelude.Keys.{
  length-set, length-remove-lt, member-keys-remove, member-keys_iff,
}
use onto_ontological_context.Session.{
  SessionRecord, SessionManager, empty_manager, forget, drop_session, purge_expired,
}
use onto_ontological_context.Session.Manager.{
  Request, Config, new_session, start, binding_ok, validate_purged, validate, do_rotate, rotate,
  Call, start_call, validate_call, rotate_call, terminate_call, classify_call, reset_call, perform,
  perform_all,
}
use onto_ontological_context.Session.Capacity.{
  IsWell, dispatch-IsWell, drop_session-IsWell, purge_expired-IsWell, set-IsWell,
}
use onto_ontological_context.Session.Capacity.Steps.{
  supersede_lem, renew-IsWell, terminate-IsWell, update_data_classification-IsWell,
}

forget-some :
    (raw new t : String) (o : Option String)
    → forget raw (some new) o ≡ some t
    → (str_eq new t ≡ true) ⊎ ((o ≡ some t) × (str_eq raw t ≡ false))
unfolding forget
forget-some raw new t none h = cc
forget-some raw new t (some last) h = elim (Bool-cases (str_eq raw last)) [
  | inl same ↦ let e : some new ≡ some t = rw same at h in inl (ground (arith, eq_iff new t))
  | inr other ↦
      let e : some last ≡ some t = rw other at h in
      inr (e, ground (arith, eq_iff raw last, eq_iff raw t))
]

module _ (prefix fingerprint_hash : String → String) where
  start-IsWell :
      (c : Config) (now : ℕ) (raw : String) (q : Request) (m : SessionManager)
      → 0 < c.max_concurrent_sessions
      → IsWell c.max_concurrent_sessions m
      → (after : SessionManager) × (start prefix fingerprint_hash c now raw q m ≡ some after)
        × IsWell c.max_concurrent_sessions after
  unfolding start
  start-IsWell c now raw q m pos w =
      let (room, e, well, free) =
        supersede_lem c (purge_expired now m) pos (purge_expired-IsWell _ now m w) in
      rw (e, start)
        (
          _,
          refl,
          dispatch-IsWell _ _ _ (
              set-IsWell _ raw (new_session prefix fingerprint_hash now raw q) (some raw) room well
                refl
                (ground (
                  arith,
                  length-set raw (new_session prefix fingerprint_hash now raw q) room.sessions,
                ))
                (λ t h. ground (arith, eq_refl t))),
        )

  validate_purged-IsWell :
      (n : ℕ) (c : Config) (now : ℕ) (raw : String) (fingerprint : Option String)
      (m : SessionManager)
      → IsWell n m
      → IsWell n (validate_purged prefix fingerprint_hash c now raw fingerprint m).1
  unfolding validate_purged
  validate_purged-IsWell n c now raw fingerprint m w =
      elim (Option-cases (Dict.get raw m.sessions)) [
        | inl e ↦ rw (e, validate_purged) (dispatch-IsWell n _ m w)
        | inr (s, e) ↦ elim (Bool-cases (binding_ok prefix fingerprint_hash c fingerprint s)) [
          | inl ok ↦
              rw (e, validate_purged, ok)
                (renew-IsWell n raw s (record s { last_used_at = now }) m w e refl)
          | inr bad ↦
              rw (e, validate_purged, bad) (drop_session-IsWell n raw _ (dispatch-IsWell n _ m w))
        ]
      ]

  do_rotate-IsWell :
      (n now : ℕ) (raw new_raw : String) (s : SessionRecord) (m : SessionManager)
      → IsWell n m
      → Dict.get raw m.sessions ≡ some s
      → IsWell n (do_rotate prefix fingerprint_hash now raw new_raw s m)
  unfolding do_rotate drop_session
  do_rotate-IsWell n now raw new_raw s m w e =
      let inside = member-keys_iff raw s m.sessions e in
      let r : SessionRecord = record s {
        raw_token = new_raw;
        token_prefix = prefix new_raw;
        rotated_at = some now;
      } in
      dispatch-IsWell n _ _ (
        set-IsWell n new_raw r (forget raw (some new_raw) m.last_token) (drop_session raw m)
          (drop_session-IsWell n raw m w) refl
          (ground (
            arith,
            length-set new_raw r (Dict.remove raw m.sessions),
            length-remove-lt raw m.sessions,
            w.capacity,
          ))
          (λ t h. elim (forget-some raw new_raw t m.last_token h) [
            | inl same ↦ ground (arith, same)
            | inr (was, other) ↦ ground (arith, member-keys-remove t raw m.sessions, w.last t was)
          ]))

  pub rotate-IsWell :
      (n now : ℕ) (raw new_raw : String) (m : SessionManager)
      → IsWell n m
      → IsWell n (rotate prefix fingerprint_hash now raw new_raw m).1
  unfolding rotate
  rotate-IsWell n now raw new_raw m w =
      let purged = purge_expired-IsWell n now m w in
      elim (Option-cases (Dict.get raw (purge_expired now m).sessions)) [
        | inl e ↦ rw (e, rotate) purged
        | inr (s, e) ↦
            rw (e, rotate) (do_rotate-IsWell n now raw new_raw s (purge_expired now m) purged e)
      ]

  empty-IsWell : (n : ℕ) → IsWell n empty_manager
  unfolding Dict.get
  empty-IsWell n = record {
    distinct = tt;
    capacity = omega arith;
    keyed = λ t s h. cc;
    last = λ t h. cc;
  }

  perform-IsWell :
      (c : Config) (call : Call) (m : SessionManager)
      → 0 < c.max_concurrent_sessions
      → IsWell c.max_concurrent_sessions m
      → (after : SessionManager) × (perform prefix fingerprint_hash c call m ≡ some after)
        × IsWell c.max_concurrent_sessions after
  unfolding perform validate
  perform-IsWell c (start_call now raw q) m pos w = start-IsWell c now raw q m pos w
  perform-IsWell c (validate_call now raw fingerprint) m pos w = (
    _,
    refl,
    validate_purged-IsWell _ c now raw fingerprint (purge_expired now m)
        (purge_expired-IsWell _ now m w),
  )
  perform-IsWell c (rotate_call now raw new_raw) m pos w =
      (_, refl, rotate-IsWell _ now raw new_raw m w)
  perform-IsWell c (terminate_call now raw) m pos w = (_, refl, terminate-IsWell _ now raw m w)
  perform-IsWell c (classify_call raw classification) m pos w =
      (_, refl, update_data_classification-IsWell _ raw classification m w)
  perform-IsWell c reset_call m pos w = (_, refl, empty-IsWell _)

  pub perform_all_from :
      (c : Config) (calls : List Call) (m : SessionManager)
      → 0 < c.max_concurrent_sessions
      → IsWell c.max_concurrent_sessions m
      → (after : SessionManager) × (perform_all prefix fingerprint_hash c calls m ≡ some after)
        × IsWell c.max_concurrent_sessions after
  unfolding perform_all
  perform_all_from c [] m pos w = (m, refl, w)
  perform_all_from c (call ∷ calls) m pos w =
      let (next, e, well) = perform-IsWell c call m pos w in
      rw (e, perform_all) (perform_all_from c calls next pos well)

  -- If the configuration allows a session at all, no sequence of operations raises, and after each the
  -- manager has at most the configured number of sessions, under distinct tokens that their records
  -- repeat, and its last token is that of a session.
  pub perform_all-IsWell :
      (c : Config) (calls : List Call)
      → 0 < c.max_concurrent_sessions
      → (after : SessionManager) × (perform_all prefix fingerprint_hash c calls empty_manager
          ≡ some after)
        × IsWell c.max_concurrent_sessions after
  perform_all-IsWell c calls pos = perform_all_from c calls empty_manager pos (empty-IsWell _)
