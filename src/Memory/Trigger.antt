-- ===== src/Memory/Trigger.antt =====
-- modules/memory.py, `initialize`: the trigger `prevent_update` of the table `events`. A comparison
-- with NULL is not true in SQL, so a `WHEN` over `!=` fires only between two values.
use onto_ontological_context.Prelude.{
  ℕ, String, ◌≡◌, refl, ap, ◌⊎◌, inl, inr, Bool, true, false, not, ◌&&◌, ◌||◌, Option, none, some,
  arith, str_eq, eq_iff, eq_refl, ◌==◌, ==_iff, Bool-cases,
}
use onto_ontological_context.Memory.{Event, column_text}
use onto_ontological_context.Memory.Prune.{is_due, nullified, prune_row}

-- `NEW.x != OLD.x` is true
abbrev pub differ {ℓ} : {A : Type ℓ} → (A → A → Bool) → Option A → Option A → Bool
differ eq (some a) (some b) = not (eq a b)
differ eq _ _ = false

-- Six conditions in a row: none fires exactly when each is false.
none_of_six :
    (a b c d e f : Bool)
    → (a || b || c || d || e || f) ≡ false
    → (a ≡ false) × (b ≡ false) × (c ≡ false) × (d ≡ false) × (e ≡ false) × (f ≡ false)
none_of_six false false false false false false h = (refl, refl, refl, refl, refl, refl)
none_of_six true b c d e f h = absurd (ground arith)
none_of_six false true c d e f h = absurd (ground arith)
none_of_six false false true d e f h = absurd (ground arith)
none_of_six false false false true e f h = absurd (ground arith)
none_of_six false false false false true f h = absurd (ground arith)
none_of_six false false false false false true h = absurd (ground arith)

both_not : (a b : Bool) → (not a && not b) ≡ true → (a ≡ false) × (b ≡ false)
both_not true b h = absurd (ground arith)
both_not false true h = absurd (ground arith)
both_not false false h = (refl, refl)

not-false : (a : Bool) → not a ≡ false → a ≡ true
not-false true h = refl
not-false false h = cc

text_sound : (a b : String) → str_eq a b ≡ true → a ≡ b
text_sound a b e = (eq_iff a b).0 e

number_sound : (a b : ℕ) → (a == b) ≡ true → a ≡ b
number_sound a b e = (==_iff a b).0 e

number_self : (a : ℕ) → (a == a) ≡ true
number_self a = (==_iff a a).1 refl

-- One field of an update that the trigger let through: erased, filled in, or unchanged.
abbrev pub Kept {ℓ} : {A : Type ℓ} → Option A → Option A → Type ℓ
Kept old new = (new ≡ none) ⊎ ((old ≡ none) ⊎ (new ≡ old))

differ-Kept {ℓ} :
    {A : Type ℓ} (eq : A → A → Bool)
    → ((a b : A) → eq a b ≡ true → a ≡ b)
    → (old new : Option A) → differ eq new old ≡ false
    → Kept old new
differ-Kept eq sound old none h = inl refl
differ-Kept eq sound none (some b) h = inr (inl refl)
differ-Kept eq sound (some a) (some b) h = inr (inr (ap some (sound b a (ground arith))))

differ_self {ℓ} :
    {A : Type ℓ} (eq : A → A → Bool)
    → ((a : A) → eq a a ≡ true)
    → (x : Option A) → differ eq x x ≡ false
differ_self eq self none = refl
differ_self eq self (some a) = rw (self a)

differ-none_right {ℓ} : {A : Type ℓ} (eq : A → A → Bool) (x : Option A) → differ eq x none ≡ false
differ-none_right eq none = refl
differ-none_right eq (some a) = refl

module _ {Hash : Type 0} (dec : Discrete Hash) where
  abbrev hash_eq : Hash → Hash → Bool
  hash_eq a b = elim (dec a b) [ yes _ ↦ true | no _ ↦ false ]

  -- the spine: `WHEN` one to six of the trigger
  unfoldable pub spine_changed : Event Hash → Event Hash → Bool
  spine_changed old new =
      not (new.id == old.id)
      || not (new.timestamp == old.timestamp)
      || differ hash_eq new.chain_hash old.chain_hash
      || differ str_eq new.signature_algorithm old.signature_algorithm
      || differ ◌==◌ new.classification old.classification
      || not (str_eq new.event_type old.event_type)

  -- the payload: the other six
  unfoldable pub payload_changed : Event Hash → Event Hash → Bool
  payload_changed old new =
      differ str_eq new.input old.input
      || differ str_eq (column_text new.context) (column_text old.context)
      || differ str_eq new.output old.output
      || differ str_eq new.notes old.notes
      || differ str_eq new.human_decision old.human_decision
      || differ ◌==◌ new.confidence old.confidence

  -- the trigger lets the update of a row through
  unfoldable pub prevent_update_allows : Event Hash → Event Hash → Bool
  unfolding spine_changed payload_changed
  prevent_update_allows old new = not (spine_changed old new) && not (payload_changed old new)

  hash_eq_sound : (a b : Hash) → hash_eq a b ≡ true → a ≡ b
  hash_eq_sound a b h = ground arith

  hash_eq_self : (a : Hash) → hash_eq a a ≡ true
  hash_eq_self a = ground arith

  -- What an update of one row, let through by the trigger, can have done.
  pub record Updated (old new : Event Hash) : Type 0 where
    pub id : new.id ≡ old.id
    pub timestamp : new.timestamp ≡ old.timestamp
    pub event_type : new.event_type ≡ old.event_type
    pub input : Kept old.input new.input
    pub context : Kept (column_text old.context) (column_text new.context)
    pub output : Kept old.output new.output
    pub notes : Kept old.notes new.notes
    pub human_decision : Kept old.human_decision new.human_decision
    pub confidence : Kept old.confidence new.confidence
    pub chain_hash : Kept old.chain_hash new.chain_hash
    pub signature_algorithm : Kept old.signature_algorithm new.signature_algorithm
    pub classification : Kept old.classification new.classification

  spine-Kept :
      (old new : Event Hash)
      → spine_changed old new ≡ false
      → (new.id ≡ old.id)
        × (new.timestamp ≡ old.timestamp)
        × Kept old.chain_hash new.chain_hash
        × Kept old.signature_algorithm new.signature_algorithm
        × Kept old.classification new.classification
        × (new.event_type ≡ old.event_type)
  unfolding spine_changed
  spine-Kept old new h =
      let (i, t, c, s, k, e) = none_of_six _ _ _ _ _ _ h in
      (
        number_sound new.id old.id (not-false _ i),
        number_sound new.timestamp old.timestamp (not-false _ t),
        differ-Kept hash_eq hash_eq_sound old.chain_hash new.chain_hash c,
        differ-Kept str_eq text_sound old.signature_algorithm new.signature_algorithm s,
        differ-Kept ◌==◌ number_sound old.classification new.classification k,
        text_sound new.event_type old.event_type (not-false _ e),
      )

  payload-Kept :
      (old new : Event Hash)
      → payload_changed old new ≡ false
      → Kept old.input new.input
        × Kept (column_text old.context) (column_text new.context)
        × Kept old.output new.output
        × Kept old.notes new.notes
        × Kept old.human_decision new.human_decision
        × Kept old.confidence new.confidence
  unfolding payload_changed
  payload-Kept old new h =
      let (i, c, o, n, d, f) = none_of_six _ _ _ _ _ _ h in
      (
        differ-Kept str_eq text_sound old.input new.input i,
        differ-Kept str_eq text_sound (column_text old.context) (column_text new.context) c,
        differ-Kept str_eq text_sound old.output new.output o,
        differ-Kept str_eq text_sound old.notes new.notes n,
        differ-Kept str_eq text_sound old.human_decision new.human_decision d,
        differ-Kept ◌==◌ number_sound old.confidence new.confidence f,
      )

  -- An update that the trigger lets through keeps the id, the time and the type of the row, and of
  -- each other field it erases the value, fills in a missing one, or leaves it.
  prevent_update_allows-Updated :
      (old new : Event Hash) → prevent_update_allows old new ≡ true → Updated old new
  unfolding prevent_update_allows
  prevent_update_allows-Updated old new h =
      let (spine, payload) = both_not (spine_changed old new) (payload_changed old new) h in
      let (i, t, c, s, k, e) = spine-Kept old new spine in
      let (input, context, output, notes, decision, confidence) = payload-Kept old new payload in
      record {
        id = i;
        timestamp = t;
        event_type = e;
        input = input;
        context = context;
        output = output;
        notes = notes;
        human_decision = decision;
        confidence = confidence;
        chain_hash = c;
        signature_algorithm = s;
        classification = k;
      }

  -- The row with every field erased that may be NULL.
  abbrev pub erased : Event Hash → Event Hash
  erased e = record e {
    input = none;
    context = none;
    output = none;
    confidence = none;
    human_decision = none;
    notes = none;
    chain_hash = none;
    signature_algorithm = none;
    classification = none;
  }

  -- The trigger does not make the table append-only: with two updates that it lets through, every row
  -- is turned into any other with the same id, time and type, its chain hash included.
  pub prevent_update-bypassed :
      (old new : Event Hash)
      → new.id ≡ old.id
      → new.timestamp ≡ old.timestamp
      → new.event_type ≡ old.event_type
      → (prevent_update_allows old (erased old) ≡ true)
        × (prevent_update_allows (erased old) new ≡ true)
  unfolding prevent_update_allows
  prevent_update-bypassed old new i t k = (
    ground (arith, eq_iff old.event_type old.event_type),
    ground (
      arith,
      eq_iff new.event_type old.event_type,
      differ-none_right hash_eq new.chain_hash,
      differ-none_right str_eq new.signature_algorithm,
      differ-none_right ◌==◌ new.classification,
      differ-none_right str_eq new.input,
      differ-none_right str_eq (column_text new.context),
      differ-none_right str_eq new.output,
      differ-none_right str_eq new.notes,
      differ-none_right str_eq new.human_decision,
      differ-none_right ◌==◌ new.confidence,
    ),
  )

  prevent_update_allows_self : (e : Event Hash) → prevent_update_allows e e ≡ true
  unfolding prevent_update_allows
  prevent_update_allows_self e = rw (
    number_self e.id,
    number_self e.timestamp,
    eq_refl e.event_type,
    differ_self hash_eq hash_eq_self e.chain_hash,
    differ_self str_eq eq_refl e.signature_algorithm,
    differ_self ◌==◌ number_self e.classification,
    differ_self str_eq eq_refl e.input,
    differ_self str_eq eq_refl (column_text e.context),
    differ_self str_eq eq_refl e.output,
    differ_self str_eq eq_refl e.notes,
    differ_self str_eq eq_refl e.human_decision,
    differ_self ◌==◌ number_self e.confidence,
  )

  prevent_update_allows-nullified : (e : Event Hash) → prevent_update_allows e (nullified e) ≡ true
  unfolding prevent_update_allows
  prevent_update_allows-nullified e = rw (
    number_self e.id,
    number_self e.timestamp,
    eq_refl e.event_type,
    differ_self hash_eq hash_eq_self e.chain_hash,
    differ_self str_eq eq_refl e.signature_algorithm,
    differ_self ◌==◌ number_self e.classification,
    differ_self str_eq eq_refl e.human_decision,
    differ_self ◌==◌ number_self e.confidence,
  )

  -- The trigger lets every pruning of a row through.
  prevent_update_allows-prune_row :
      (limit : ℕ) (e : Event Hash) → prevent_update_allows e (prune_row limit e) ≡ true
  unfolding prune_row
  prevent_update_allows-prune_row limit e = elim (Bool-cases (is_due limit e)) [
    | inl due ↦ rw due (prevent_update_allows-nullified e)
    | inr kept ↦ rw kept (prevent_update_allows_self e)
  ]
