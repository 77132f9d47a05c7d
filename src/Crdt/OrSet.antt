-- ===== src/Crdt/OrSet.antt =====
-- api/federation/crdt.py: `ORSet`. The elements and their tags are texts; a fresh tag, which the
-- program takes from `uuid4`, is an argument.
pub mod Laws
pub mod Converge
use onto_ontological_context.Prelude.{
  String, Bool, true, false, not, List, [], ◌∷◌, if◌then◌else◌, select, str_eq,
}
use onto_ontological_context.Prelude.Dict
use onto_ontological_context.Prelude.Dict.{Dict, keys, tabulate}
use onto_ontological_context.Prelude.Texts.{member, union, difference}

pub record OrSet : Type 0 where
  pub adds : Dict (List String)
  pub rems : Dict (List String)

abbrev pub empty : OrSet
empty = record { adds = []; rems = [] }

-- `d.get(element, set())`
unfoldable pub tags : String → Dict (List String) → List String
tags element d = Dict.get_or element [] d

-- `bool(s)` of a set
abbrev pub is_nonempty : List String → Bool
is_nonempty [] = false
is_nonempty (x ∷ xs) = true

-- `d.setdefault(element, set()).update(new)`
unfoldable pub update_tags : String → List String → Dict (List String) → Dict (List String)
update_tags element new d = Dict.set element (union (tags element d) new) d

unfoldable pub add : String → String → OrSet → OrSet
add element tag s = record s { adds = update_tags element (tag ∷ []) s.adds }

unfoldable pub remove : String → OrSet → OrSet
remove element s =
    if is_nonempty (tags element s.adds)
    then record s { rems = update_tags element (tags element s.adds) s.rems }
    else s

unfoldable pub contains : String → OrSet → Bool
contains element s = is_nonempty (difference (tags element s.adds) (tags element s.rems))

unfoldable pub elements : OrSet → List String
elements s = select (λ e. contains e s) (keys s.adds)

-- `{e: a.get(e, set()) | b.get(e, set()) for e in set(a) | set(b)}`
unfoldable pub merge_tags : Dict (List String) → Dict (List String) → Dict (List String)
merge_tags a b = tabulate (λ e. union (tags e a) (tags e b)) (union (keys a) (keys b))

unfoldable pub merge : OrSet → OrSet → OrSet
merge a b = record { adds = merge_tags a.adds b.adds; rems = merge_tags a.rems b.rems }
