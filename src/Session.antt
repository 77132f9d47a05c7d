-- ===== src/Session.antt =====
-- core/session.py: the records of `SessionManager` and the helpers of its operations. Times are ticks
-- of `time.time()`, which one operation reads once. SHA-256 comes in as two parameters, of the prefix
-- of a token and of a connection's fingerprint.
pub mod Manager
pub mod Purge
pub mod Capacity
pub mod Tokens
pub mod Rotation
pub mod Accepts
mod Tests
use onto_ontological_context.Prelude.{
  ℕ, ◌+◌, ◌-◌, String, Bool, true, false, ◌||◌, Option, none, some, List, [], ◌∷◌, ◌++◌, ltb, leb,
  if◌then◌else◌, str_eq,
}
use onto_ontological_context.Prelude.Dict
use onto_ontological_context.Prelude.Dict.{Dict}

pub record SessionRecord : Type 0 where
  pub raw_token : String
  pub token_prefix : String
  pub identity : String
  pub created_at : ℕ
  pub last_used_at : ℕ
  pub idle_timeout : ℕ
  pub max_duration : ℕ
  pub connection_fingerprint_hash : Option String
  pub consent_reference : Option String
  pub data_classification : String
  pub rotated_at : Option ℕ

-- What `_dispatch` writes, by the event type: the details in the order of the source.
pub data AuditEntry : Type 0 where
  session_expired : String → String → ℕ → ℕ → String → AuditEntry
  session_rotated : String → String → String → AuditEntry
  session_superseded : String → String → AuditEntry
  session_start : String → String → ℕ → ℕ → Bool → Option String → AuditEntry
  session_invalid_token : String → AuditEntry
  session_binding_violation : String → String → AuditEntry
  session_end : String → String → ℕ → String → Option String → AuditEntry
  session_classification_escalated : String → String → String → String → AuditEntry

pub record SessionManager : Type 0 where
  pub sessions : Dict SessionRecord
  pub audit_log : List AuditEntry
  pub last_token : Option String

-- `__init__` and `reset`
abbrev pub empty_manager : SessionManager
empty_manager = record { sessions = []; audit_log = []; last_token = none }

abbrev pub expires_at : SessionRecord → ℕ
expires_at s = s.created_at + s.max_duration

unfoldable pub is_expired : ℕ → SessionRecord → Bool
is_expired now s = ltb (s.last_used_at + s.idle_timeout) now || ltb (expires_at s) now

unfoldable pub dispatch : AuditEntry → SessionManager → SessionManager
dispatch entry m = record m { audit_log = m.audit_log ++ entry ∷ [] }

-- `if raw == self._last_token: self._last_token = replacement`
unfoldable pub forget : String → Option String → Option String → Option String
forget raw replacement none = none
forget raw replacement (some last) = if str_eq raw last then replacement else some last

-- `self._sessions.pop(raw)` with the update of the last token
unfoldable pub drop_session : String → SessionManager → SessionManager
drop_session raw m = record m {
  sessions = Dict.remove raw m.sessions;
  last_token = forget raw none m.last_token;
}

-- the list `expired` of `_purge_expired`
unfoldable pub expired_tokens : ℕ → Dict SessionRecord → List String
expired_tokens now [] = []
expired_tokens now ((raw, s) ∷ rest) =
    let others = expired_tokens now rest in if is_expired now s then raw ∷ others else others

-- one round of its loop; a token of the list is in the dict
unfoldable pub purge_one : ℕ → String → SessionManager → SessionManager
unfolding drop_session dispatch
purge_one now raw m = elim (Dict.get raw m.sessions) [
  | none ↦ m
  | some s ↦
      dispatch (session_expired s.token_prefix s.identity s.created_at now s.data_classification)
        (drop_session raw m)
]

unfoldable pub purge_tokens : ℕ → List String → SessionManager → SessionManager
purge_tokens now [] m = m
purge_tokens now (raw ∷ rest) m = purge_tokens now rest (purge_one now raw m)

unfoldable pub purge_expired : ℕ → SessionManager → SessionManager
purge_expired now m = purge_tokens now (expired_tokens now m.sessions) m

-- `min(self._sessions, key=created_at)`, which keeps the first of equals and raises on an empty dict
unfoldable pub oldest_from : String × SessionRecord → Dict SessionRecord → String × SessionRecord
oldest_from best [] = best
oldest_from best ((raw, s) ∷ rest) =
    oldest_from (if ltb s.created_at best.1.created_at then (raw, s) else best) rest

unfoldable pub oldest : Dict SessionRecord → Option (String × SessionRecord)
oldest [] = none
oldest (first ∷ rest) = some (oldest_from first rest)

-- `order.get(classification, 0)`
abbrev pub classification_order : Dict ℕ
classification_order =
    ("UNCLASSIFIED", 0)
    ∷ ("INTERNAL", 1)
    ∷ ("CONFIDENTIAL", 2)
    ∷ ("RESTRICTED", 3)
    ∷ ("SENSITIVE", 4)
    ∷ []

unfoldable pub rank : String → ℕ
rank classification = Dict.get_or classification 0 classification_order
