-- ===== src/Safety.antt =====
-- api/federation/safety.py: the filter between the node and its peers. Trust scores are natural
-- numbers of hundredths. The detector of crisis texts, of modules/graph.py, is a parameter. A reason
-- is the constructor of a verdict.
pub mod Barriers
pub mod Inbound
mod Tests
use onto_ontological_context.Prelude.{
  ℕ, min, String, Bool, true, false, not, ◌&&◌, ◌||◌, List, [], ◌∷◌, ◌++◌, ltb, leb, any_of, all_of,
  if◌then◌else◌,
}
use onto_ontological_context.Prelude.Texts.{member}

-- A value of a payload. Numbers, booleans and None are `other_value`; a tuple is a list.
mutual
  pub data Value : Type 0 where
    string_value : String → Value
    dict_value : Fields → Value
    list_value : Items → Value
    other_value : Value

  pub data Fields : Type 0 where
    no_fields : Fields
    field : String → Value → Fields → Fields

  pub data Items : Type 0 where
    no_items : Items
    item : Value → Items → Items

-- `_walk_strings`: the values of a dict, and not its keys
unfoldable mutual
  pub walk_strings : Value → List String
  walk_strings (string_value s) = s ∷ []
  walk_strings (dict_value fields) = walk_fields fields
  walk_strings (list_value items) = walk_items items
  walk_strings other_value = []

  pub walk_fields : Fields → List String
  walk_fields no_fields = []
  walk_fields (field key value rest) = walk_strings value ++ walk_fields rest

  pub walk_items : Items → List String
  walk_items no_items = []
  walk_items (item value rest) = walk_strings value ++ walk_items rest

-- The configuration of api/federation/config.py that the filter reads.
pub record Config : Type 0 where
  pub max_share_classification : ℕ
  pub sensitive_trust_threshold : ℕ
  pub inbound_trust : ℕ
  pub data_residency : List String

-- The arguments of `check_outbound`; the regions are those of `peer_data_residency`, split at the
-- commas, stripped and in capitals.
pub record Share : Type 0 where
  pub text : String
  pub classification : ℕ
  pub is_sensitive : Bool
  pub is_crisis : Bool
  pub peer_trust_score : ℕ
  pub peer_regions : List String
  pub has_valid_consent : Bool

pub data Verdict : Type 0 where
  passed : Verdict
  crisis_never_federates : Verdict
  privileged_never_federates : ℕ → Verdict
  no_valid_consent : Verdict
  exceeds_max_classification : ℕ → Verdict
  requires_trust : ℕ → Verdict
  region_not_permitted : Verdict

abbrev is_empty : List String → Bool
is_empty [] = true
is_empty (x ∷ xs) = false

-- the configurable controls of `check_outbound`
unfoldable pub check_controls : Config → Share → Verdict
check_controls c s =
    if not s.has_valid_consent
    then no_valid_consent
    else if ltb c.max_share_classification s.classification
    then exceeds_max_classification s.classification
    else if s.is_sensitive && ltb s.peer_trust_score c.sensitive_trust_threshold
    then requires_trust s.peer_trust_score
    else if not (is_empty c.data_residency)
        && not (all_of (λ r. member r c.data_residency) s.peer_regions)
    then region_not_permitted
    else passed

module _ (contains_crisis : String → Bool) where
  unfoldable pub check_absolute_barriers : String → ℕ → Bool → Verdict
  check_absolute_barriers text classification is_crisis =
      if is_crisis || contains_crisis text
      then crisis_never_federates
      else if leb 4 classification
      then privileged_never_federates classification
      else passed

  unfoldable pub check_inbound_for_crisis : Fields → Bool
  check_inbound_for_crisis data_fields =
      any_of contains_crisis (walk_strings (dict_value data_fields))

  unfoldable pub check_outbound : Config → Share → Verdict
  check_outbound c s =
      let controls = check_controls c s in
      elim (check_absolute_barriers s.text s.classification s.is_crisis) [
        | passed ↦ controls
        | barrier ↦ barrier
      ]

  -- `check_inbound`: whether the payload may enter, and the trust it gets
  unfoldable pub check_inbound : Config → Fields → ℕ → Bool × ℕ
  check_inbound c data_fields peer_trust_score =
      if check_inbound_for_crisis data_fields
      then (false, 0)
      else (true, min c.inbound_trust peer_trust_score)
