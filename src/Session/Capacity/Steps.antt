-- ===== src/Session/Capacity/Steps.antt =====
-- The operations that make room, end a session or reclassify it keep the manager well-formed.
use onto_ontological_context.Prelude.{
  ℕ, ◌≤◌, ◌<◌, ◌≡◌, refl, ◌∙◌, inl, inr, String, true, false, some, arith, length, ltb, leb,
  Bool-cases, Option-cases,
}
use onto_ontological_context.Prelude.Dict
use onto_ontological_context.Prelude.Dict.{Dict, keys, get-remove, get-set}
use onto_ontological_context.Prelude.Keys.{length-set, length-remove-lt, member-keys_iff}
use onto_ontological_context.Prelude.Texts.{member}
use onto_ontological_context.Session.{
  SessionRecord, SessionManager, AuditEntry, dispatch, drop_session, oldest, session_superseded,
  rank,
}
use onto_ontological_context.Session.Manager.{
  Config, supersede, terminate, update_data_classification,
}
use onto_ontological_context.Session.Capacity.{
  IsWell, dispatch-IsWell, drop_session-IsWell, set-IsWell, oldest-member,
}

-- There is room for one more.
abbrev pub HasRoom : ℕ → SessionManager → Type 0
HasRoom n m = length m.sessions < n

full_size :
    (n : ℕ) (m : SessionManager) → 0 < n → leb n (length m.sessions) ≡ true → 0 < length m.sessions
full_size n m pos h = ground arith

supersede_room :
    (c : Config) (m : SessionManager)
    → leb c.max_concurrent_sessions (length m.sessions) ≡ false
    → supersede c m ≡ some m
unfolding supersede
supersede_room c m e = rw e

supersede_full :
    (c : Config) (m : SessionManager) (raw : String) (s : SessionRecord)
    → leb c.max_concurrent_sessions (length m.sessions) ≡ true
    → oldest m.sessions ≡ some (raw, s)
    → supersede c m
      ≡ some (dispatch (session_superseded s.token_prefix s.identity) (drop_session raw m))
unfolding supersede
supersede_full c m raw s e o = rw (e, o, supersede)

drop_session-HasRoom :
    (n : ℕ) (raw : String) (m : SessionManager)
    → length m.sessions ≤ n
    → member raw (keys m.sessions) ≡ true
    → HasRoom n (drop_session raw m)
unfolding drop_session
drop_session-HasRoom n raw m le inside = omega (arith, length-remove-lt raw m.sessions inside)

dispatch-HasRoom :
    (n : ℕ) (entry : AuditEntry) (m : SessionManager) → HasRoom n m → HasRoom n (dispatch entry m)
unfolding dispatch
dispatch-HasRoom n entry m h = h

pub supersede_lem :
    (c : Config) (m : SessionManager)
    → 0 < c.max_concurrent_sessions
    → IsWell c.max_concurrent_sessions m
    → (room : SessionManager) × (supersede c m ≡ some room)
      × IsWell c.max_concurrent_sessions room
      × HasRoom c.max_concurrent_sessions room
supersede_lem c m pos w = elim (Bool-cases (leb c.max_concurrent_sessions (length m.sessions))) [
  | inl full ↦
      let (raw, s, o, inside) =
        oldest-member m.sessions (full_size c.max_concurrent_sessions m pos full) in
      (
        dispatch (session_superseded s.token_prefix s.identity) (drop_session raw m),
        supersede_full c m raw s full o,
        dispatch-IsWell _ _ (drop_session raw m) (drop_session-IsWell _ raw m w),
        dispatch-HasRoom _ _ (drop_session raw m) (drop_session-HasRoom _ raw m w.capacity inside),
      )
  | inr room ↦ (m, supersede_room c m room, w, ground arith)
]

-- A renewed entry does not change the number of sessions.
pub renew-IsWell :
    (n : ℕ) (raw : String) (s r : SessionRecord) (m : SessionManager)
    → IsWell n m
    → Dict.get raw m.sessions ≡ some s
    → r.raw_token ≡ s.raw_token
    → IsWell n (record m { sessions = Dict.set raw r m.sessions })
renew-IsWell n raw s r m w e key =
    set-IsWell n raw r m.last_token m w (key ∙ w.keyed raw s e)
      (ground (arith, length-set raw r m.sessions, member-keys_iff raw s m.sessions e, w.capacity))
      (λ t h. ground (arith, w.last t h))

pub terminate-IsWell :
    (n now : ℕ) (raw : String) (m : SessionManager) → IsWell n m → IsWell n (terminate now raw m).1
unfolding terminate
terminate-IsWell n now raw m w = elim (Option-cases (Dict.get raw m.sessions)) [
  | inl e ↦ rw (e, terminate) w
  | inr (s, e) ↦
      rw (e, terminate) (dispatch-IsWell n _ (drop_session raw m) (drop_session-IsWell n raw m w))
]

pub update_data_classification-IsWell :
    (n : ℕ) (raw classification : String) (m : SessionManager)
    → IsWell n m
    → IsWell n (update_data_classification raw classification m).1
unfolding update_data_classification
update_data_classification-IsWell n raw classification m w =
    elim (Option-cases (Dict.get raw m.sessions)) [
      | inl e ↦ rw (e, update_data_classification) w
      | inr (s, e) ↦ elim (Bool-cases (ltb (rank s.data_classification) (rank classification))) [
        | inl up ↦
            rw (e, update_data_classification, up)
              (dispatch-IsWell n _ _ (
                renew-IsWell n raw s (record s { data_classification = classification }) m w e
                  refl))
        | inr stays ↦ rw (e, update_data_classification, stays) w
      ]
    ]
