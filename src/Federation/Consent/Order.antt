-- ===== src/Federation/Consent/Order.antt =====
-- Ledgers whose times grow: their order, and their latest row.
use onto_ontological_context.Prelude.{
  ◌<◌, ◌≡◌, refl, sym, ap, ◌∙◌, String, Option, none, some, List, [], ◌∷◌, ◌++◌, map, arith, All,
  All-append,
}
use onto_ontological_context.Federation.Consent.{
  Consent, latest, hash_of, latest_chain_hash, insert_granted, by_granted_at,
}

-- the digest of the last row, or a given one
abbrev pub last_hash : Option String → List Consent → Option String
last_hash prev [] = prev
last_hash prev (c ∷ cs) = last_hash (some c.chain_hash) cs

-- Times grow along the ledger.
abbrev pub IsIncreasing : List Consent → Type 0
IsIncreasing [] = Unit
IsIncreasing (c ∷ cs) = All (λ (d : Consent). c.granted_at < d.granted_at) cs × IsIncreasing cs

insert_granted-first :
    (c : Consent) (cs : List Consent)
    → All (λ (d : Consent). c.granted_at < d.granted_at) cs
    → insert_granted c cs ≡ c ∷ cs
unfolding insert_granted
insert_granted-first c [] h = refl
insert_granted-first c (d ∷ ds) h = ground (arith, h.0)

pub by_granted_at-same : (cs : List Consent) → IsIncreasing cs → by_granted_at cs ≡ cs
unfolding by_granted_at
by_granted_at-same [] h = refl
by_granted_at-same (c ∷ cs) h = rw (by_granted_at-same cs h.1) (insert_granted-first c cs h.0)

-- the last row of a ledger that begins with one
abbrev last_row : Consent → List Consent → Consent
last_row c [] = c
last_row c (d ∷ ds) = last_row d ds

last_row-holds :
    (P : Consent → Type 0) (c : Consent) (cs : List Consent) → P c → All P cs → P (last_row c cs)
last_row-holds P c [] h all = h
last_row-holds P c (d ∷ ds) h all = last_row-holds P d ds all.0 all.1

last_hash-last_row :
    (c : Consent) (cs : List Consent)
    → last_hash (some c.chain_hash) cs ≡ some (last_row c cs).chain_hash
last_hash-last_row c [] = refl
last_hash-last_row c (d ∷ ds) = last_hash-last_row d ds

-- In a ledger whose times grow the latest row is the last.
latest-last_row :
    (c : Consent) (cs : List Consent)
    → IsIncreasing (c ∷ cs)
    → latest (c ∷ cs) ≡ some (last_row c cs)
unfolding latest
latest-last_row c [] h = refl
latest-last_row c (d ∷ ds) h =
    let later : c.granted_at < (last_row d ds).granted_at =
      last_row-holds (λ e. c.granted_at < e.granted_at) d ds h.0.0 h.0.1 in
    rw (latest-last_row d ds h.1) (ground (arith, later))

latest-nothing : latest [] ≡ none
unfolding latest
latest-nothing = refl

pub latest_chain_hash-last :
    (cs : List Consent) → IsIncreasing cs → latest_chain_hash cs ≡ last_hash none cs
unfolding latest_chain_hash
latest_chain_hash-last [] h = ap hash_of latest-nothing
latest_chain_hash-last (c ∷ cs) h =
    ap hash_of (latest-last_row c cs h) ∙ sym (last_hash-last_row c cs)

map-All-weaken :
    (P Q : Consent → Type 0) (f : Consent → Consent) (cs : List Consent)
    → ((c : Consent) → P c → Q (f c))
    → All P cs
    → All Q (map f cs)
map-All-weaken P Q f [] h all = tt
map-All-weaken P Q f (c ∷ cs) h all = (h c all.0, map-All-weaken P Q f cs h all.1)

-- An update that leaves the times alone.
pub map-IsIncreasing :
    (f : Consent → Consent) (cs : List Consent)
    → ((c : Consent) → (f c).granted_at ≡ c.granted_at)
    → IsIncreasing cs
    → IsIncreasing (map f cs)
map-IsIncreasing f [] same h = tt
map-IsIncreasing f (c ∷ cs) same h = (
  map-All-weaken (λ d. c.granted_at < d.granted_at) (λ d. (f c).granted_at < d.granted_at) f cs
      (λ d before. rw (same c, same d) before) h.0,
  map-IsIncreasing f cs same h.1,
)

pub append-IsIncreasing :
    (cs : List Consent) (c : Consent)
    → All (λ (d : Consent). d.granted_at < c.granted_at) cs
    → IsIncreasing cs
    → IsIncreasing (cs ++ c ∷ [])
append-IsIncreasing [] c below h = (tt, tt)
append-IsIncreasing (d ∷ ds) c below h = (
  All-append (λ (e : Consent). d.granted_at < e.granted_at) ds (c ∷ []) h.0 (below.0, tt),
  append-IsIncreasing ds c below.1 h.1,
)
