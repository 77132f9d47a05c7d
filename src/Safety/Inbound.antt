-- ===== src/Safety/Inbound.antt =====
-- What is received from a peer.
use onto_ontological_context.Prelude.{
  ℕ, ◌≤◌, ◌≡◌, refl, ◌↔◌, ◌⊎◌, inl, inr, ap, String, Bool, true, false, ◌||◌, List, [], ◌∷◌, ◌++◌,
  arith, any_of, Bool-cases,
}
use onto_ontological_context.Safety.{
  Value, string_value, dict_value, list_value, other_value, Fields, no_fields, field, Items,
  no_items, item, walk_strings, walk_fields, walk_items, Config, check_inbound_for_crisis,
  check_inbound,
}

-- The text is a value somewhere in the payload.
unfoldable mutual
  pub OccursIn : String → Value → Type 0
  OccursIn t (string_value s) = s ≡ t
  OccursIn t (dict_value fields) = OccursInFields t fields
  OccursIn t (list_value items) = OccursInItems t items
  OccursIn t other_value = ⊥

  pub OccursInFields : String → Fields → Type 0
  OccursInFields t no_fields = ⊥
  OccursInFields t (field key value rest) = OccursIn t value ⊎ OccursInFields t rest

  pub OccursInItems : String → Items → Type 0
  OccursInItems t no_items = ⊥
  OccursInItems t (item value rest) = OccursIn t value ⊎ OccursInItems t rest

module _ (contains_crisis : String → Bool) where
  any_of-append :
      (xs ys : List String)
      → any_of contains_crisis (xs ++ ys) ≡ (any_of contains_crisis xs || any_of contains_crisis ys)
  any_of-append [] ys = refl
  any_of-append (x ∷ xs) ys = ground (arith, any_of-append xs ys)

  abbrev pub Crisis : (String → Type 0) → Type 0
  Crisis P = (t : String) × (contains_crisis t ≡ true) × P t

  mutual
    unfolding walk_strings OccursIn

    found :
        (v : Value) → any_of contains_crisis (walk_strings v) ≡ true → Crisis (λ t. OccursIn t v)
    found (string_value s) h = (s, ground arith, refl)
    found (dict_value fields) h = found_field fields h
    found (list_value items) h = found_item items h
    found other_value h = absurd (ground arith)

    found_field :
        (fs : Fields)
        → any_of contains_crisis (walk_fields fs) ≡ true
        → Crisis (λ t. OccursInFields t fs)
    found_field no_fields h = absurd (ground arith)
    found_field (field key value rest) h =
        elim (Bool-cases (any_of contains_crisis (walk_strings value))) [
          | inl here ↦ let (t, c, o) = found value here in (t, c, inl o)
          | inr there ↦
              let (t, c, o) =
                found_field rest
                  (ground (arith, any_of-append (walk_strings value) (walk_fields rest))) in
              (t, c, inr o)
        ]

    found_item :
        (xs : Items)
        → any_of contains_crisis (walk_items xs) ≡ true
        → Crisis (λ t. OccursInItems t xs)
    found_item no_items h = absurd (ground arith)
    found_item (item value rest) h =
        elim (Bool-cases (any_of contains_crisis (walk_strings value))) [
          | inl here ↦ let (t, c, o) = found value here in (t, c, inl o)
          | inr there ↦
              let (t, c, o) =
                found_item rest
                  (ground (arith, any_of-append (walk_strings value) (walk_items rest))) in
              (t, c, inr o)
        ]

  mutual
    unfolding walk_strings OccursIn

    seen :
        (v : Value) (t : String)
        → contains_crisis t ≡ true
        → OccursIn t v
        → any_of contains_crisis (walk_strings v) ≡ true
    seen (string_value s) t c o = ground (arith, ap contains_crisis o)
    seen (dict_value fields) t c o = seen_field fields t c o
    seen (list_value items) t c o = seen_item items t c o
    seen other_value t c o = absurd o

    seen_field :
        (fs : Fields) (t : String)
        → contains_crisis t ≡ true
        → OccursInFields t fs
        → any_of contains_crisis (walk_fields fs) ≡ true
    seen_field no_fields t c o = absurd o
    seen_field (field key value rest) t c (inl o) =
        ground (arith, any_of-append (walk_strings value) (walk_fields rest), seen value t c o)
    seen_field (field key value rest) t c (inr o) =
        ground (arith, any_of-append (walk_strings value) (walk_fields rest), seen_field rest t c o)

    seen_item :
        (xs : Items) (t : String)
        → contains_crisis t ≡ true
        → OccursInItems t xs
        → any_of contains_crisis (walk_items xs) ≡ true
    seen_item no_items t c o = absurd o
    seen_item (item value rest) t c (inl o) =
        ground (arith, any_of-append (walk_strings value) (walk_items rest), seen value t c o)
    seen_item (item value rest) t c (inr o) =
        ground (arith, any_of-append (walk_strings value) (walk_items rest), seen_item rest t c o)

  -- A received payload is refused exactly if a crisis text is a value somewhere in it, however deeply
  -- it is nested; the trust that it gets is never above the configured floor, nor above the peer's.
  pub check_inbound_lem :
      (c : Config) (fs : Fields) (peer_trust_score : ℕ)
      → (((check_inbound contains_crisis c fs peer_trust_score).0 ≡ false)
          ↔ Crisis (λ t. OccursInFields t fs))
        × ((check_inbound contains_crisis c fs peer_trust_score).1 ≤ c.inbound_trust)
        × ((check_inbound contains_crisis c fs peer_trust_score).1 ≤ peer_trust_score)
  unfolding check_inbound check_inbound_for_crisis walk_strings
  check_inbound_lem c fs peer_trust_score = (
    (
      λ h. found_field fs (ground arith),
      λ h. let (t, crisis, o) = h in ground (arith, seen_field fs t crisis o),
    ),
    ground arith,
    ground arith,
  )
