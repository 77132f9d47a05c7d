-- ===== src/Memory/Chain.antt =====
-- modules/memory.py: `verify_chain` and `verify_chain_tail`, the walks that recompute the chain.
use mathlib.Core.List.{reverse}
use onto_ontological_context.Prelude.{
  ℕ, zero, suc, Bool, true, false, not, ◌&&◌, Option, none, some, List, [], ◌∷◌, ◌++◌, length,
  if◌then◌else◌, leb,
}
use onto_ontological_context.Memory.{Event, Content, content, context_value}

-- An entry of `gaps`.
pub record Gap (Hash : Type 0) : Type 0 where
  pub record_id : ℕ
  pub expected : Option Hash
  pub stored : Option Hash

-- The loop variables of `verify_chain`.
pub record Walk (Hash : Type 0) : Type 0 where
  pub prev_hash : Option Hash
  pub gaps : List (Gap Hash)
  pub pruned_count : ℕ

pub record Report (Hash : Type 0) : Type 0 where
  pub intact : Bool
  pub total : ℕ
  pub gaps : List (Gap Hash)
  pub pruned : ℕ
  pub first_record_hash : Option Hash

pub record TailReport (Hash : Type 0) : Type 0 where
  pub intact : Bool
  pub checked : ℕ
  pub gaps : List (Gap Hash)

abbrev pub is_none {ℓ} : {A : Type ℓ} → Option A → Bool
is_none none = true
is_none (some _) = false

-- `LIMIT n` of a list
abbrev pub limit {ℓ} : {A : Type ℓ} → ℕ → List A → List A
limit zero l = []
limit (suc n) [] = []
limit (suc n) (x ∷ l) = x ∷ limit n l

module _ {Hash : Type 0} where
  -- `all(f is None for f in _payload_fields)`
  unfoldable pub payload_null : Event Hash → Bool
  payload_null e =
      is_none e.input && is_none (context_value e.context) && is_none e.output && is_none e.notes

abbrev pub no_gaps : {Hash : Type 0} → List (Gap Hash) → Bool
no_gaps [] = true
no_gaps (g ∷ gs) = false

-- the last `n` rows, oldest first
unfoldable pub tail_records {ℓ} : {A : Type ℓ} → ℕ → List A → List A
tail_records n rs = reverse (limit n (reverse rs))

module _ {Hash : Type 0} (dec : Discrete Hash) where
  -- `stored == expected`, where either may be None
  unfoldable pub same_hash : Option Hash → Option Hash → Bool
  same_hash none none = true
  same_hash none (some b) = false
  same_hash (some a) none = false
  same_hash (some a) (some b) = elim (dec a b) [ yes _ ↦ true | no _ ↦ false ]

  module _ (digest : Content → Hash) where
    -- One round of the loop of `verify_chain`, for a record after the first.
    unfoldable pub visit : Walk Hash → Event Hash → Walk Hash
    unfolding same_hash
    visit w r =
        if is_none r.chain_hash && is_none w.prev_hash
        then record w { prev_hash = some (digest (content r)) }
        else if same_hash r.chain_hash w.prev_hash
        then record w { prev_hash = some (digest (content r)) }
        else if not (is_none r.chain_hash) && payload_null r
        then record w { prev_hash = r.chain_hash; pruned_count = suc w.pruned_count }
        else record w {
          prev_hash = some (digest (content r));
          gaps =
              w.gaps
              ++ record { record_id = r.id; expected = w.prev_hash; stored = r.chain_hash } ∷ [];
        }

    -- The loop over the records after the first, and the loop from the first on.
    unfoldable pub visit_all : Walk Hash → List (Event Hash) → Walk Hash
    visit_all w [] = w
    visit_all w (r ∷ rs) = visit_all (visit w r) rs

    unfoldable pub walk : List (Event Hash) → Walk Hash
    unfolding visit_all visit
    walk [] = record { prev_hash = none; gaps = []; pruned_count = 0 }
    walk (r ∷ rs) =
        visit_all (record { prev_hash = some (digest (content r)); gaps = []; pruned_count = 0 }) rs

    abbrev pub first_digest : List (Event Hash) → Option Hash
    first_digest [] = none
    first_digest (r ∷ rs) = some (digest (content r))

    unfoldable pub verify_chain : List (Event Hash) → Report Hash
    unfolding walk
    verify_chain rs = record {
      intact = no_gaps (walk rs).gaps;
      total = length rs;
      gaps = (walk rs).gaps;
      pruned = (walk rs).pruned_count;
      first_record_hash = first_digest rs;
    }

    -- One round of the loop of `verify_chain_tail`, at a record and the one before it.
    unfoldable pub tail_gaps : List (Event Hash) → List (Gap Hash)
    unfolding same_hash
    tail_gaps [] = []
    tail_gaps (p ∷ []) = []
    tail_gaps (p ∷ r ∷ rs) =
        let expected = some (digest (content p)) in
        let rest = tail_gaps (r ∷ rs) in
        if same_hash r.chain_hash expected
        then rest
        else if not (is_none r.chain_hash) && payload_null r
        then rest
        else record { record_id = r.id; expected = expected; stored = r.chain_hash } ∷ rest

    unfoldable pub verify_chain_tail : ℕ → List (Event Hash) → TailReport Hash
    unfolding tail_gaps tail_records
    verify_chain_tail n rs =
        let records = tail_records n rs in
        if leb (length records) 1
        then record { intact = true; checked = length records; gaps = [] }
        else record {
          intact = no_gaps (tail_gaps records);
          checked = length records;
          gaps = tail_gaps records;
        }
