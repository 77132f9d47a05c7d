-- ===== src/Memory.antt =====
-- modules/memory.py: the permanent audit trail. The table `events` is a list in the order of its
-- primary key, oldest first, with the key that SQLite's AUTOINCREMENT gives next. A digest stands for
-- SHA-256 over the canonical JSON of a record; `Hash` and `digest` are parameters. Times are
-- microseconds since the epoch. `confidence` is only stored and hashed, and a number stands for it.
pub mod Chain
pub mod Prune
pub mod Trigger
pub mod Linked
pub mod Tail
pub mod Walks
pub mod Ids
pub mod Evidence
pub mod Race
pub mod Tests
use onto_ontological_context.Prelude.{
  ℕ, zero, suc, ◌+◌, String, Bool, Option, none, some, List, [], ◌∷◌, ◌++◌, ◌==◌, ltb, str_eq,
  select, if◌then◌else◌,
}

-- A JSON value other than null: its text, and the text that json.dumps with sorted keys gives for
-- what json.loads reads from it.
pub record Json : Type 0 where
  pub text : String
  pub canonical : String

-- The column `context`, if it is not NULL: JSON, or a text that is read as None, empty or `null`. On
-- any other text `_row_to_dict` raises, which is not modelled.
pub data Column : Type 0 where
  json : Json → Column
  null_text : String → Column

-- A row of `events`; what the schema lets be NULL is an `Option`.
pub record Event (Hash : Type 0) : Type 0 where
  pub id : ℕ
  pub timestamp : ℕ
  pub event_type : String
  pub input : Option String
  pub context : Option Column
  pub output : Option String
  pub confidence : Option ℕ
  pub human_decision : Option String
  pub notes : Option String
  pub chain_hash : Option Hash
  pub signature_algorithm : Option String
  pub classification : Option ℕ

-- The fields that `_hash_record_content` reads: all but the chain hash and the algorithm.
-- The text in `context` stands for the value, which is dumped with sorted keys.
pub record Content : Type 0 where
  pub id : ℕ
  pub timestamp : ℕ
  pub event_type : String
  pub input : Option String
  pub context : Option String
  pub output : Option String
  pub confidence : Option ℕ
  pub human_decision : Option String
  pub notes : Option String
  pub classification : Option ℕ

-- The arguments of `record`; a context that is empty is none, and others have the text of json.dumps.
pub record Entry : Type 0 where
  pub event_type : String
  pub input_data : Option String
  pub context : Option Json
  pub output : Option String
  pub confidence : Option ℕ
  pub human_decision : Option String
  pub notes : Option String
  pub classification : ℕ
  pub signature_algorithm : String

pub record Db (Hash : Type 0) : Type 0 where
  pub events : List (Event Hash)
  pub next_id : ℕ

abbrev pub empty_db : {Hash : Type 0} → Db Hash
empty_db = record { events = []; next_id = 1 }

-- `READ_LOG_THRESHOLD`: personal data and above
abbrev pub read_log_threshold : ℕ
read_log_threshold = 2

-- `ORDER BY id DESC LIMIT 1`
unfoldable pub latest {ℓ} : {A : Type ℓ} → List A → Option A
latest [] = none
latest (x ∷ []) = some x
latest (x ∷ y ∷ l) = latest (y ∷ l)

-- `json.loads(row[4]) if row[4] else None`
abbrev pub context_value : Option Column → Option String
context_value none = none
context_value (some (json j)) = some j.canonical
context_value (some (null_text t)) = none

abbrev pub column_text : Option Column → Option String
column_text none = none
column_text (some (json j)) = some j.text
column_text (some (null_text t)) = some t

-- `json.dumps(context) if context else None`
abbrev pub dumped : Option Json → Option Column
dumped none = none
dumped (some j) = some (json j)

module _ {Hash : Type 0} where
  abbrev pub content : Event Hash → Content
  content e = record {
    id = e.id;
    timestamp = e.timestamp;
    event_type = e.event_type;
    input = e.input;
    context = context_value e.context;
    output = e.output;
    confidence = e.confidence;
    human_decision = e.human_decision;
    notes = e.notes;
    classification = e.classification;
  }

  -- `read_all`
  unfoldable pub read_all : Db Hash → List (Event Hash)
  read_all db = db.events

  -- `read_by_id`
  unfoldable pub find_id : ℕ → List (Event Hash) → Option (Event Hash)
  find_id i [] = none
  find_id i (e ∷ es) = if e.id == i then some e else find_id i es

  unfoldable pub read_by_id : ℕ → Db Hash → Option (Event Hash)
  unfolding find_id
  read_by_id i db = find_id i db.events

  -- `read_by_type`
  unfoldable pub read_by_type : String → Db Hash → List (Event Hash)
  read_by_type t db = select (λ e. str_eq e.event_type t) db.events

  -- the row that `record` inserts, with the hash that it has read
  unfoldable pub new_event : ℕ → Entry → Option Hash → Db Hash → Event Hash
  new_event now e previous db = record {
    id = db.next_id;
    timestamp = now;
    event_type = e.event_type;
    input = e.input_data;
    context = dumped e.context;
    output = e.output;
    confidence = e.confidence;
    human_decision = e.human_decision;
    notes = e.notes;
    chain_hash = previous;
    signature_algorithm = some e.signature_algorithm;
    classification = some e.classification;
  }

  -- the insert of `record`, at the time `now`: the new table and the id of the row
  unfoldable pub insert_event : ℕ → Entry → Option Hash → Db Hash → Db Hash × ℕ
  unfolding new_event
  insert_event now e previous db = (
    record { events = db.events ++ new_event now e previous db ∷ []; next_id = suc db.next_id },
    db.next_id,
  )

module _ {Hash : Type 0} (digest : Content → Hash) where
  -- `_compute_chain_hash`: the digest of the newest record, and none for the genesis record
  unfoldable pub compute_chain_hash : List (Event Hash) → Option Hash
  unfolding latest
  compute_chain_hash es = elim (latest es) [ none ↦ none | some e ↦ some (digest (content e)) ]

  -- `record`, if no other call comes between its read of the newest record and its insert. No lock
  -- keeps other threads from that.
  unfoldable pub record_event : ℕ → Entry → Db Hash → Db Hash × ℕ
  unfolding insert_event compute_chain_hash
  record_event now e db = insert_event now e (compute_chain_hash db.events) db

  -- `log_read_access`; the two texts are `str(record_id)` and the JSON of the access
  unfoldable pub log_read_access : ℕ → String → String → ℕ → Db Hash → Db Hash × Option ℕ
  log_read_access now id_text access_json classification db =
      if ltb classification read_log_threshold
      then (db, none)
      else (let (db', i) =
            record_event now
              (record {
                event_type = "READ_ACCESS";
                input_data = some id_text;
                context = none;
                output = none;
                confidence = none;
                human_decision = none;
                notes = some access_json;
                classification = classification;
                signature_algorithm = "Ed25519";
              })
              db in
          (db', some i))

  -- the calls of `record` of a whole run, each with its time
  unfoldable pub record_all : List (ℕ × Entry) → Db Hash → Db Hash
  record_all [] db = db
  record_all ((now, e) ∷ calls) db = record_all calls (record_event now e db).0

  -- `get_genesis_hash`
  unfoldable pub get_genesis_hash : Db Hash → Option Hash
  get_genesis_hash db = elim db.events [ [] ↦ none | e ∷ es ↦ some (digest (content e)) ]
