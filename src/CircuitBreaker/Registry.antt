-- ===== src/CircuitBreaker/Registry.antt =====
-- The registry keeps the peers apart.
use onto_ontological_context.Prelude.{
  ℕ, ◌≡◌, refl, ◌∙◌, ap, sym, inl, inr, String, none, some, List, [], ◌∷◌, arith, str_eq, eq_iff,
  if◌then◌else◌, Bool-cases, Option-cases,
}
use onto_ontological_context.Prelude.Dict
use onto_ontological_context.Prelude.Dict.{Dict, get-set}
use onto_ontological_context.CircuitBreaker.{
  Breaker, closed_breaker, Event, step, run, get_breaker, at_peer, reset_all, reset,
}

-- The breaker that the registry would give for a peer.
abbrev pub breaker_of : String → Dict Breaker → Breaker
breaker_of did breakers = elim (Dict.get did breakers) [ none ↦ closed_breaker | some b ↦ b ]

-- The events of one peer.
abbrev pub events_of : String → List (String × Event) → List Event
events_of did [] = []
events_of did ((peer, e) ∷ es) = if str_eq peer did then e ∷ events_of did es else events_of did es

breaker_of-reset_all :
    (did : String) (breakers : Dict Breaker) → breaker_of did (reset_all breakers) ≡ closed_breaker
unfolding reset_all reset Dict.get
breaker_of-reset_all did [] = refl
breaker_of-reset_all did ((peer, b) ∷ rest) = ground (arith, breaker_of-reset_all did rest)

breaker_of-set :
    (did peer : String) (b : Breaker) (breakers : Dict Breaker)
    → breaker_of did (Dict.set peer b breakers)
      ≡ (if str_eq peer did then b else breaker_of did breakers)
breaker_of-set did peer b breakers = ground (arith, get-set did peer b breakers)

get_breaker_absent :
    (peer : String) (breakers : Dict Breaker)
    → Dict.get peer breakers ≡ none
    → get_breaker peer breakers ≡ (closed_breaker, Dict.set peer closed_breaker breakers)
unfolding get_breaker
get_breaker_absent peer breakers e = rw (e, get_breaker)

get_breaker_present :
    (peer : String) (b : Breaker) (breakers : Dict Breaker)
    → Dict.get peer breakers ≡ some b
    → get_breaker peer breakers ≡ (b, breakers)
unfolding get_breaker
get_breaker_present peer b breakers e = rw (e, get_breaker)

breaker_of_absent :
    (did : String) (breakers : Dict Breaker)
    → Dict.get did breakers ≡ none
    → breaker_of did breakers ≡ closed_breaker
breaker_of_absent did breakers e = rw (e, breaker_of)

breaker_of_present :
    (did : String) (b : Breaker) (breakers : Dict Breaker)
    → Dict.get did breakers ≡ some b
    → breaker_of did breakers ≡ b
breaker_of_present did b breakers e = rw (e, breaker_of)

get_breaker_lem :
    (did peer : String) (breakers : Dict Breaker)
    → ((get_breaker peer breakers).0 ≡ breaker_of peer breakers)
      × (breaker_of did (get_breaker peer breakers).1 ≡ breaker_of did breakers)
get_breaker_lem did peer breakers = elim (Option-cases (Dict.get peer breakers)) [
  | inl e ↦
      let found = get_breaker_absent peer breakers e in
      let absent = breaker_of_absent peer breakers e in
      (
        ap (λ (r : Breaker × Dict Breaker). r.0) found ∙ sym absent,
        ap (λ (r : Breaker × Dict Breaker). breaker_of did r.1) found
            ∙ breaker_of-set did peer closed_breaker breakers
            ∙ elim (Bool-cases (str_eq peer did)) [
              | inl same ↦
                  rw same (sym absent ∙ ap (λ d. breaker_of d breakers) ((eq_iff peer did).0 same))
              | inr other ↦ rw other
            ],
      )
  | inr (b, e) ↦
      let found = get_breaker_present peer b breakers e in
      (
        ap (λ (r : Breaker × Dict Breaker). r.0) found ∙ sym (breaker_of_present peer b breakers e),
        ap (λ (r : Breaker × Dict Breaker). breaker_of did r.1) found,
      )
]

module _ (failure_threshold recovery_seconds : ℕ) where
  abbrev pub run_registry : List (String × Event) → Dict Breaker → Dict Breaker
  run_registry [] breakers = breakers
  run_registry ((peer, e) ∷ es) breakers =
      run_registry es (at_peer failure_threshold recovery_seconds peer e breakers)

  breaker_of-at_peer :
      (did peer : String) (e : Event) (breakers : Dict Breaker)
      → breaker_of did (at_peer failure_threshold recovery_seconds peer e breakers) ≡ (
          if str_eq peer did
          then step failure_threshold recovery_seconds e (breaker_of did breakers)
          else breaker_of did breakers)
  unfolding at_peer
  breaker_of-at_peer did peer e breakers = elim (Bool-cases (str_eq peer did)) [
    | inl same ↦
        breaker_of-set did peer _ _
        ∙ rw (same, (eq_iff peer did).0 same, (get_breaker_lem did did breakers).0)
    | inr other ↦ breaker_of-set did peer _ _ ∙ rw other (get_breaker_lem did peer breakers).1
  ]

  run-breaker_of :
      (did : String) (es : List (String × Event)) (breakers : Dict Breaker)
      → breaker_of did (run_registry es breakers)
        ≡ run failure_threshold recovery_seconds (events_of did es) (breaker_of did breakers)
  unfolding run
  run-breaker_of did [] breakers = refl
  run-breaker_of did ((peer, e) ∷ es) breakers = elim (Bool-cases (str_eq peer did)) [
    | inl same ↦ run-breaker_of did es _ ∙ rw (breaker_of-at_peer did peer e breakers, same)
    | inr other ↦ run-breaker_of did es _ ∙ rw (breaker_of-at_peer did peer e breakers, other)
  ]

  -- However the events of several peers interleave, the registry's breaker of a peer is the one that
  -- the events of this peer alone lead to, and resetting all closes each.
  registry_isolates :
      (did : String) (es : List (String × Event))
      → (breaker_of did (run_registry es [])
          ≡ run failure_threshold recovery_seconds (events_of did es) closed_breaker)
        × (breaker_of did (reset_all (run_registry es [])) ≡ closed_breaker)
  unfolding Dict.get
  registry_isolates did es =
      (run-breaker_of did es [], breaker_of-reset_all did (run_registry es []))
