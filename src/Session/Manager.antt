-- ===== src/Session/Manager.antt =====
-- core/session.py: the operations of `SessionManager`.
use onto_ontological_context.Prelude.{
  ℕ, ◌-◌, String, Bool, true, false, not, ◌&&◌, ◌||◌, Option, none, some, List, [], ◌∷◌, length,
  ltb, leb, if◌then◌else◌, str_eq,
}
use onto_ontological_context.Prelude.Dict
use onto_ontological_context.Prelude.Dict.{Dict}
use onto_ontological_context.Session.{
  SessionRecord, session_rotated, session_superseded, session_start, session_invalid_token,
  session_binding_violation, session_end, session_classification_escalated, SessionManager,
  empty_manager, expires_at, is_expired, dispatch, forget, drop_session, purge_expired, oldest,
  rank,
}

-- The arguments of `start`, with the defaults filled in.
pub record Request : Type 0 where
  pub identity : String
  pub idle_timeout : ℕ
  pub max_duration : ℕ
  pub connection_fingerprint : Option String
  pub consent_reference : Option String

-- The configuration: `MAX_CONCURRENT_SESSIONS` and `_enforce_connection_binding()`.
pub record Config : Type 0 where
  pub max_concurrent_sessions : ℕ
  pub enforce_connection_binding : Bool

-- `_hash_fingerprint`
abbrev pub hash_option : (String → String) → Option String → Option String
hash_option hash none = none
hash_option hash (some fingerprint) = some (hash fingerprint)

abbrev pub same_option : Option String → Option String → Bool
same_option none none = true
same_option none (some b) = false
same_option (some a) none = false
same_option (some a) (some b) = str_eq a b

abbrev pub is_some {ℓ} : {A : Type ℓ} → Option A → Bool
is_some none = false
is_some (some a) = true

-- Makes room for one session; `min` raises where there is none to give up.
unfoldable pub supersede : Config → SessionManager → Option SessionManager
unfolding drop_session dispatch
supersede c m =
    if leb c.max_concurrent_sessions (length m.sessions)
    then elim (oldest m.sessions) [
      | none ↦ none
      | some (raw, s) ↦
          some (dispatch (session_superseded s.token_prefix s.identity) (drop_session raw m))
    ]
    else some m

unfoldable pub terminate : ℕ → String → SessionManager → Bool × SessionManager
unfolding drop_session dispatch
terminate now raw m = elim (Dict.get raw m.sessions) [
  | none ↦ (false, m)
  | some s ↦ (
    true,
    dispatch
        (session_end s.token_prefix s.identity (now - s.created_at) s.data_classification
          s.consent_reference)
        (drop_session raw m),
  )
]

unfoldable pub is_active : ℕ → SessionManager → Bool
is_active now m = elim m.last_token [
  | none ↦ false
  | some raw ↦ elim (Dict.get raw m.sessions) [ none ↦ false | some s ↦ not (is_expired now s) ]
]

unfoldable pub first_active : ℕ → Dict SessionRecord → Option SessionRecord
first_active now [] = none
first_active now ((raw, s) ∷ rest) =
    let later = first_active now rest in if is_expired now s then later else some s

unfoldable pub active_session : ℕ → SessionManager → Option SessionRecord
active_session now m = first_active now m.sessions

unfoldable pub update_data_classification : String → String → SessionManager → Bool × SessionManager
unfolding dispatch
update_data_classification raw classification m = elim (Dict.get raw m.sessions) [
  | none ↦ (false, m)
  | some s ↦
      if ltb (rank s.data_classification) (rank classification)
      then (
        true,
        dispatch
            (session_classification_escalated s.token_prefix s.identity s.data_classification
              classification)
            (record m {
              sessions =
                  Dict.set raw (record s { data_classification = classification }) m.sessions;
            }),
      )
      else (false, m)
]

-- What callers do, in the order of the manager's lock; a start and a rotation bring a random token.
pub data Call : Type 0 where
  start_call : ℕ → String → Request → Call
  validate_call : ℕ → String → Option String → Call
  rotate_call : ℕ → String → String → Call
  terminate_call : ℕ → String → Call
  classify_call : String → String → Call
  reset_call : Call

module _ (prefix : String → String) (fingerprint_hash : String → String) where
  -- `SessionRecord(...)` of a start with the token `raw`
  abbrev pub new_session : ℕ → String → Request → SessionRecord
  new_session now raw q = record {
    raw_token = raw;
    token_prefix = prefix raw;
    identity = q.identity;
    created_at = now;
    last_used_at = now;
    idle_timeout = q.idle_timeout;
    max_duration = q.max_duration;
    connection_fingerprint_hash = hash_option fingerprint_hash q.connection_fingerprint;
    consent_reference = q.consent_reference;
    data_classification = "UNCLASSIFIED";
    rotated_at = none;
  }

  -- `start`, with the random token `raw`; none where it raises
  unfoldable pub start : Config → ℕ → String → Request → SessionManager → Option SessionManager
  unfolding dispatch
  start c now raw q m = elim (supersede c (purge_expired now m)) [
    | none ↦ none
    | some room ↦
        let session = new_session now raw q in
        some (
          dispatch
            (session_start (prefix raw) q.identity (expires_at session) q.idle_timeout
              (is_some q.connection_fingerprint) q.consent_reference)
            (record room { sessions = Dict.set raw session room.sessions; last_token = some raw }))
  ]

  -- whether the binding check lets the session through
  unfoldable pub binding_ok : Config → Option String → SessionRecord → Bool
  binding_ok c fingerprint s =
      not (c.enforce_connection_binding && is_some s.connection_fingerprint_hash)
      || same_option (hash_option fingerprint_hash fingerprint) s.connection_fingerprint_hash

  -- `validate` after the purge
  unfoldable pub validate_purged :
      Config → ℕ → String → Option String → SessionManager → Option SessionRecord × SessionManager
  unfolding dispatch drop_session
  validate_purged c now raw fingerprint m = elim (Dict.get raw m.sessions) [
    | none ↦ (none, dispatch (session_invalid_token (prefix raw)) m)
    | some s ↦
        if binding_ok c fingerprint s
        then (
          some (record s { last_used_at = now }),
          record m { sessions = Dict.set raw (record s { last_used_at = now }) m.sessions },
        )
        else (
          none,
          drop_session raw (dispatch (session_binding_violation s.token_prefix s.identity) m),
        )
  ]

  unfoldable pub validate :
      Config → ℕ → String → Option String → SessionManager → Option SessionRecord × SessionManager
  validate c now raw fingerprint m = validate_purged c now raw fingerprint (purge_expired now m)

  -- `_do_rotate`, with the random token `new_raw`
  unfoldable pub do_rotate : ℕ → String → String → SessionRecord → SessionManager → SessionManager
  unfolding dispatch
  do_rotate now old_raw new_raw s m =
      dispatch (session_rotated s.token_prefix (prefix new_raw) s.identity) (record m {
        sessions =
            Dict.set new_raw
              (record s {
                raw_token = new_raw;
                token_prefix = prefix new_raw;
                rotated_at = some now;
              })
              (Dict.remove old_raw m.sessions);
        last_token = forget old_raw (some new_raw) m.last_token;
      })

  unfoldable pub rotate : ℕ → String → String → SessionManager → Option String × SessionManager
  rotate now raw new_raw m = elim (Dict.get raw (purge_expired now m).sessions) [
    | none ↦ (none, purge_expired now m)
    | some s ↦ (some new_raw, do_rotate now raw new_raw s (purge_expired now m))
  ]

  unfoldable pub perform : Config → Call → SessionManager → Option SessionManager
  perform c (start_call now raw q) m = start c now raw q m
  perform c (validate_call now raw fingerprint) m = some (validate c now raw fingerprint m).1
  perform c (rotate_call now raw new_raw) m = some (rotate now raw new_raw m).1
  perform c (terminate_call now raw) m = some (terminate now raw m).1
  perform c (classify_call raw classification) m =
      some (update_data_classification raw classification m).1
  perform c reset_call m = some empty_manager

  unfoldable pub perform_all : Config → List Call → SessionManager → Option SessionManager
  perform_all c [] m = some m
  perform_all c (call ∷ calls) m = elim (perform c call m) [
    | none ↦ none
    | some next ↦ perform_all c calls next
  ]
