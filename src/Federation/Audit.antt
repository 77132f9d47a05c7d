-- ===== src/Federation/Audit.antt =====
-- api/federation/audit.py: the outbox, the inbox and the rate limit per peer. Times are microseconds.
-- A payload enters by its digest, which `payload_hash` computes with libraries.
pub mod Backoff
mod Tests
use onto_ontological_context.Prelude.{
  ℕ, zero, suc, ◌+◌, ◌-◌, ◌*◌, min, max, String, Bool, true, false, not, ◌&&◌, Option, none, some,
  List, [], ◌∷◌, ◌++◌, map, length, select, ltb, leb, ◌==◌, str_eq, if◌then◌else◌,
}
use onto_ontological_context.Prelude.Dict
use onto_ontological_context.Prelude.Dict.{Dict}
use onto_ontological_context.Ratelimit.{second}

pub record OutboxRow : Type 0 where
  pub id : ℕ
  pub recipient : String
  pub message_type : String
  pub sequence_id : ℕ
  pub payload_hash : String
  pub sent_at : Option ℕ
  pub acked_at : Option ℕ
  pub failed_at : Option ℕ
  pub failure_reason : Option String
  pub created_at : ℕ

pub record InboxRow : Type 0 where
  pub id : ℕ
  pub sender : String
  pub message_type : String
  pub sequence_id : ℕ
  pub payload_hash : String
  pub received_at : ℕ
  pub processed_at : Option ℕ
  pub rejected : Bool
  pub reject_reason : Option String

-- The two tables with their `AUTOINCREMENT` counters.
pub record Messages : Type 0 where
  pub outbox : List OutboxRow
  pub next_outbox_id : ℕ
  pub inbox : List InboxRow
  pub next_inbox_id : ℕ

-- `initialize`
abbrev pub no_messages : Messages
no_messages = record { outbox = []; next_outbox_id = 1; inbox = []; next_inbox_id = 1 }

-- `MAX(sequence_id)` over the outbox rows of a recipient, or 0
unfoldable pub max_sent : String → List OutboxRow → ℕ
max_sent recipient [] = 0
max_sent recipient (r ∷ rs) =
    let rest = max_sent recipient rs in
    if str_eq r.recipient recipient then max r.sequence_id rest else rest

unfoldable pub next_outbound_sequence : String → Messages → ℕ
next_outbound_sequence recipient m = max_sent recipient m.outbox + 1

-- `MAX(sequence_id)` over the inbox rows of a sender that were not rejected, or 0
unfoldable pub max_seen : String → List InboxRow → ℕ
max_seen sender [] = 0
max_seen sender (r ∷ rs) =
    let rest = max_seen sender rs in
    if str_eq r.sender sender && not r.rejected then max r.sequence_id rest else rest

pub data SequenceStatus : Type 0 where
  sequence_ok sequence_gap sequence_duplicate : SequenceStatus

unfoldable pub validate_inbound_sequence : String → ℕ → Messages → SequenceStatus
validate_inbound_sequence sender sequence_id m =
    if sequence_id == max_seen sender m.inbox + 1
    then sequence_ok
    else if leb sequence_id (max_seen sender m.inbox)
    then sequence_duplicate
    else sequence_gap

-- the id of the new row, and the tables
unfoldable pub record_outbound : ℕ → String → String → String → Messages → ℕ × Messages
record_outbound now recipient message_type payload_hash m = (
  m.next_outbox_id,
  record m {
    outbox =
        m.outbox
        ++ (record {
          id = m.next_outbox_id;
          recipient = recipient;
          message_type = message_type;
          sequence_id = next_outbound_sequence recipient m;
          payload_hash = payload_hash;
          sent_at = none;
          acked_at = none;
          failed_at = none;
          failure_reason = none;
          created_at = now;
        }
            ∷ []);
    next_outbox_id = suc m.next_outbox_id;
  },
)

-- `UPDATE federation_outbox SET ... WHERE id = ?`
unfoldable pub update_outbox : ℕ → (OutboxRow → OutboxRow) → Messages → Messages
update_outbox id change m = record m {
  outbox = map (λ (r : OutboxRow). if r.id == id then change r else r) m.outbox;
}

unfoldable pub mark_sent : ℕ → ℕ → Messages → Messages
mark_sent now id = update_outbox id (λ r. record r { sent_at = some now })

unfoldable pub mark_acked : ℕ → ℕ → Messages → Messages
mark_acked now id = update_outbox id (λ r. record r { acked_at = some now })

unfoldable pub mark_failed : ℕ → ℕ → String → Messages → Messages
mark_failed now id reason =
    update_outbox id (λ r. record r { failed_at = some now; failure_reason = some reason })

unfoldable pub record_inbound :
    ℕ → String → String → ℕ → String → Bool → Option String → Messages → ℕ × Messages
record_inbound now sender message_type sequence_id payload_hash rejected reject_reason m = (
  m.next_inbox_id,
  record m {
    inbox =
        m.inbox
        ++ (record {
          id = m.next_inbox_id;
          sender = sender;
          message_type = message_type;
          sequence_id = sequence_id;
          payload_hash = payload_hash;
          received_at = now;
          processed_at = none;
          rejected = rejected;
          reject_reason = reject_reason;
        }
            ∷ []);
    next_inbox_id = suc m.next_inbox_id;
  },
)

unfoldable pub mark_processed : ℕ → ℕ → Messages → Messages
mark_processed now id m = record m {
  inbox =
      map (λ (r : InboxRow). if r.id == id then record r { processed_at = some now } else r)
        m.inbox;
}

-- The state of the rate limit in memory.
pub record RateState : Type 0 where
  pub rate_state : Dict (List ℕ)
  pub backoff_state : Dict ℕ

pub data RateAnswer : Type 0 where
  rate_ok : RateAnswer
  in_backoff : ℕ → RateAnswer
  rate_exceeded : ℕ → ℕ → RateAnswer

abbrev pub backoff_levels : List ℕ
backoff_levels = 60 ∷ 120 ∷ 240 ∷ 480 ∷ []

-- `_backoff_levels[i]`
abbrev pub level_at : List ℕ → ℕ → ℕ
level_at [] i = 0
level_at (l ∷ ls) zero = l
level_at (l ∷ ls) (suc i) = level_at ls i

-- the loop of `_escalate_backoff` from index `i` on, over the levels that are left
unfoldable pub find_level : ℕ → ℕ → List ℕ → ℕ
find_level last_duration i [] = 0
find_level last_duration i (secs ∷ rest) =
    let later = find_level last_duration (suc i) rest in
    if leb last_duration (secs * second) then min (i + 1) (length backoff_levels - 1) else later

unfoldable pub escalate_backoff : String → ℕ → RateState → ℕ × RateState
unfolding find_level
escalate_backoff peer_did now s =
    let last_duration = Dict.get_or peer_did 0 s.backoff_state - now in
    let new_duration = level_at backoff_levels (find_level last_duration 0 backoff_levels) in
    (
      new_duration,
      record s { backoff_state = Dict.set peer_did (now + new_duration * second) s.backoff_state },
    )

-- `[t for t in _rate_state[peer_did] if t > now - 60.0]`
unfoldable pub recent : String → ℕ → RateState → List ℕ
recent peer_did now s =
    select (λ t. ltb now (t + 60 * second)) (Dict.get_or peer_did [] s.rate_state)

unfoldable pub check_rate_limit : ℕ → String → ℕ → RateState → RateAnswer × RateState
check_rate_limit limit peer_did now s =
    let until = Dict.get_or peer_did 0 s.backoff_state in
    let kept = recent peer_did now s in
    let trimmed : RateState = record s { rate_state = Dict.set peer_did kept s.rate_state } in
    let (level, escalated) = escalate_backoff peer_did now trimmed in
    if ltb now until
    then (in_backoff (until - now), s)
    else if leb limit (length kept)
    then (rate_exceeded (length kept) level, escalated)
    else (
      rate_ok,
      record trimmed { rate_state = Dict.set peer_did (kept ++ now ∷ []) trimmed.rate_state },
    )

unfoldable pub clear_backoff : String → RateState → RateState
clear_backoff peer_did s = record s {
  rate_state = Dict.remove peer_did s.rate_state;
  backoff_state = Dict.remove peer_did s.backoff_state;
}
