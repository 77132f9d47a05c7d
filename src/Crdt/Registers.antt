-- ===== src/Crdt/Registers.antt =====
-- api/federation/crdt.py: `LWWRegister`, `GSet` and `PNCounter`.
pub mod Laws
use onto_ontological_context.Prelude.{
  ℕ, ◌+◌, max, String, Bool, List, [], ◌∷◌, ltb, leb, if◌then◌else◌,
}
use onto_ontological_context.Prelude.Dict
use onto_ontological_context.Prelude.Dict.{Dict, keys, values, tabulate}
use onto_ontological_context.Prelude.Texts.{member, union}

pub record LwwRegister (A : Type 0) : Type 0 where
  pub value : A
  pub ts : ℕ

module _ {A : Type 0} where
  -- `set`, at the given or the current time
  unfoldable pub write : A → ℕ → LwwRegister A → LwwRegister A
  write value ts r = if leb r.ts ts then record { value = value; ts = ts } else r

  unfoldable pub merge_registers : LwwRegister A → LwwRegister A → LwwRegister A
  merge_registers self other = if ltb self.ts other.ts then other else self

-- `GSet`: the elements are texts
abbrev pub GSet : Type 0
GSet = List String

unfoldable pub insert : String → GSet → GSet
insert element s = union s (element ∷ [])

unfoldable pub merge_sets : GSet → GSet → GSet
merge_sets a b = union a b

pub record PnCounter : Type 0 where
  pub positive : Dict ℕ
  pub negative : Dict ℕ

unfoldable pub amount : String → Dict ℕ → ℕ
amount node_id d = Dict.get_or node_id 0 d

unfoldable pub increment : String → ℕ → PnCounter → PnCounter
increment node_id n c = record c {
  positive = Dict.set node_id (amount node_id c.positive + n) c.positive;
}

unfoldable pub decrement : String → ℕ → PnCounter → PnCounter
decrement node_id n c = record c {
  negative = Dict.set node_id (amount node_id c.negative + n) c.negative;
}

-- `sum(d.values())`
unfoldable pub total : Dict ℕ → ℕ
total [] = 0
total ((k, v) ∷ d) = v + total d

unfoldable pub merge_amounts : Dict ℕ → Dict ℕ → Dict ℕ
merge_amounts a b = tabulate (λ n. max (amount n a) (amount n b)) (union (keys a) (keys b))

unfoldable pub merge_counters : PnCounter → PnCounter → PnCounter
merge_counters a b = record {
  positive = merge_amounts a.positive b.positive;
  negative = merge_amounts a.negative b.negative;
}
