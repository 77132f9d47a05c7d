-- ===== src/Federation/Adapter/Ingest.antt =====
-- What messages put into the graph through `receive` of api/federation/local.py.
use onto_ontological_context.Prelude.{
  ℕ, ◌≡◌, refl, ap, sym, ◌∙◌, inl, inr, String, Bool, false, Option, none, some, List, [], ◌∷◌,
  ◌++◌, All, arith,
}
use onto_ontological_context.Graph.{Graph, Node, empty_graph}
use onto_ontological_context.Graph.Relate.{Package, relate, contains_crisis}
use onto_ontological_context.Graph.Sources.{
  AddsHumans, AddsHumans-refl, AddsHumans-trans, relate-AddsHumans,
}
use onto_ontological_context.Graph.Maintain.{Formulas}
use onto_ontological_context.Graph.Operations.{Operation, do_relate, operate, operate_all}
use onto_ontological_context.Graph.Stored.Facts.{operate_all-no_crisis}
use onto_ontological_context.Federation.Adapter.{
  Adapter, World, Step, arrives, calls, recalls, shares, relates, ingest, recall, share_with, step,
  run,
}
use onto_ontological_context.Federation.Adapter.Effects.{handle_message-Changes}

-- The formulas of prune and decay, which no step here runs.
abbrev no_formulas : Formulas
no_formulas = record { log_ratio = λ a b c d. 0; power_law = λ a b c. 0; times_lambda = λ a. 0 }

module _ (w : World) (digest : Option String → String → ℕ → String) where
  relate_all : List (ℕ × Package) → Graph → Graph
  relate_all [] g = g
  relate_all ((now, x) ∷ xs) g = relate_all xs (relate w.language w.relate_config now x g).1

  -- The graph of a node after what it did, as inputs to `relate`.
  abbrev Related : Graph → Graph → Type 0
  Related before after = (inputs : List (ℕ × Package)) × (after ≡ relate_all inputs before)

  ingest-Related :
      (now : ℕ) (session : String) (texts : List String) (g : Graph)
      → Related g (ingest w now session texts g)
  unfolding ingest relate_all
  ingest-Related now session [] g = ([], refl)
  ingest-Related now session (text ∷ texts) g =
      let input : Package = record {
        clean = some text;
        raw = some text;
        session_hash = some session;
      } in
      let (inputs, same) =
        ingest-Related now session texts (relate w.language w.relate_config now input g).1 in
      ((now, input) ∷ inputs, same)

  recall-graph :
      (now : ℕ) (id : String) (reachable : Bool) (a : Adapter)
      → (recall w now id reachable a).1.graph ≡ a.graph
  unfolding recall
  recall-graph now id reachable a = ground arith

  step-Related : (s : Step) (a : Adapter) → Related a.graph (step w digest s a).graph
  unfolding step share_with relate_all
  step-Related (arrives now i) a = elim (handle_message-Changes w now i a) [
    | inl ingested ↦
        let (inputs, same) = ingest-Related now ingested.1 ingested.2 a.graph in
        (inputs, ingested.3 ∙ same)
    | inr retracted ↦ ([], retracted.0)
  ]
  step-Related (calls c) a = ([], refl)
  step-Related (recalls now id reachable) a = ([], recall-graph now id reachable a)
  step-Related (shares now recipient sent hash none) a = ([], refl)
  step-Related (shares now recipient sent hash (some reason)) a = ([], refl)
  step-Related (relates now input) a = ((now, input) ∷ [], refl)

  relate_all-append :
      (xs ys : List (ℕ × Package)) (g : Graph)
      → relate_all (xs ++ ys) g ≡ relate_all ys (relate_all xs g)
  unfolding relate_all
  relate_all-append [] ys g = refl
  relate_all-append ((now, x) ∷ xs) ys g =
      relate_all-append xs ys (relate w.language w.relate_config now x g).1

  run-Related : (steps : List Step) (a : Adapter) → Related a.graph (run w digest steps a).graph
  unfolding run relate_all
  run-Related [] a = ([], refl)
  run-Related (s ∷ steps) a =
      let (xs, first) = step-Related s a in
      let (ys, rest) = run-Related steps (step w digest s a) in
      (xs ++ ys, rest ∙ ap (relate_all ys) first ∙ sym (relate_all-append xs ys a.graph))

  operations : List (ℕ × Package) → List Operation
  operations [] = []
  operations ((now, x) ∷ xs) = do_relate now x ∷ operations xs

  operate_all-operations :
      (f : Formulas) (xs : List (ℕ × Package)) (g : Graph)
      → operate_all w.language w.relate_config f (operations xs) g ≡ relate_all xs g
  unfolding operate_all operate operations relate_all
  operate_all-operations f [] g = refl
  operate_all-operations f ((now, x) ∷ xs) g =
      operate_all-operations f xs (relate w.language w.relate_config now x g).1

  -- Whatever messages arrive from anyone, and whatever the operator does, no node of the graph has a
  -- concept with a phrase of a crisis, if initialize had just made the graph and the extractor finds none in a text
  -- that contains none.
  pub run-no_crisis :
      (steps : List Step) (start : ℕ) (a : Adapter)
      → a.graph ≡ empty_graph start
      → ((text : String)
          → contains_crisis w.language text ≡ false
          → All
              (λ concept. contains_crisis w.language concept ≡ false)
              (w.language.extract_concepts text))
      → All
          (λ (n : Node). contains_crisis w.language n.concept ≡ false)
          (run w digest steps a).graph.nodes
  run-no_crisis steps start a fresh faithful =
      let (xs, same) = run-Related steps a in
      let path : (run w digest steps a).graph
          ≡ operate_all w.language w.relate_config no_formulas (operations xs) (empty_graph start) =
        same
        ∙ ap (relate_all xs) fresh
        ∙ sym (operate_all-operations no_formulas xs (empty_graph start)) in
      rw path (
        operate_all-no_crisis w.language w.relate_config no_formulas start (operations xs) faithful)

  relate_all-AddsHumans :
      (xs : List (ℕ × Package)) (g : Graph) → AddsHumans g.provenance (relate_all xs g).provenance
  unfolding relate_all
  relate_all-AddsHumans [] g = AddsHumans-refl g.provenance
  relate_all-AddsHumans ((now, x) ∷ xs) g =
      let next = (relate w.language w.relate_config now x g).1 in
      AddsHumans-trans g.provenance next.provenance (relate_all xs next).provenance
        (relate-AddsHumans w.language w.relate_config now x g) (relate_all-AddsHumans xs next)

  -- Whatever messages arrive, and whatever the operator does, the sources in the graph stay, and
  -- every source that is added is recorded as a human with a trust of 95 hundredths, also where it is
  -- a peer whose data the gate let in with less.
  pub run-AddsHumans :
      (steps : List Step) (a : Adapter)
      → AddsHumans a.graph.provenance (run w digest steps a).graph.provenance
  run-AddsHumans steps a =
      let (xs, same) = run-Related steps a in rw same (relate_all-AddsHumans xs a.graph)
