-- ===== src/Memory/Walks.antt =====
-- Steps of the walk of `verify_chain` over a table that was changed behind the program's back.
use onto_ontological_context.Prelude.{
  suc, ◌≡◌, refl, ◌≢◌, ◌⊎◌, true, false, some, List, [], ◌∷◌, ◌++◌, arith, ◌∙◌,
}
use mathlib.Core.Option.{some-injective}
use onto_ontological_context.Memory.{Event, Content, content}
use onto_ontological_context.Memory.Chain.{
  Walk, payload_null, visit, visit_all, walk, no_gaps, verify_chain,
}
use onto_ontological_context.Memory.Linked.{
  IsLinked, LinkedFrom, same_hash_iff, no_gaps-append, visit_all_keeps, visit_all-hit,
}

module _ {Hash : Type 0} (dec : Discrete Hash) (digest : Content → Hash) where
  visit_all-append :
      (xs ys : List (Event Hash)) (w : Walk Hash)
      → visit_all dec digest w (xs ++ ys) ≡ visit_all dec digest (visit_all dec digest w xs) ys
  unfolding visit_all
  visit_all-append [] ys w = refl
  visit_all-append (x ∷ xs) ys w = visit_all-append xs ys (visit dec digest w x)

  -- After a record the walk expects its digest, or, of a record without payload, what it stores.
  visit-prev_hash :
      (w : Walk Hash) (r : Event Hash)
      → ((visit dec digest w r).prev_hash ≡ some (digest (content r)))
        ⊎ (((visit dec digest w r).prev_hash ≡ r.chain_hash) × (payload_null r ≡ true))
  unfolding visit
  visit-prev_hash w r = ground arith

  pub gap_at :
      (w : Walk Hash) (s : Event Hash) (post : List (Event Hash)) (h : Hash)
      → s.chain_hash ≡ some h
      → w.prev_hash ≢ some h
      → payload_null s ≡ false
      → no_gaps (visit_all dec digest w (s ∷ post)).gaps ≡ false
  unfolding visit_all visit
  gap_at w s post h stored expected payload =
      visit_all_keeps dec digest post (visit dec digest w s) (
        ground (
          arith,
          same_hash_iff dec s.chain_hash w.prev_hash,
          no_gaps-append w.gaps
              (record { record_id = s.id; expected = w.prev_hash; stored = s.chain_hash }),
        ))

  -- The walk over a list with a changed record and its successor.
  changed_from :
      (w : Walk Hash) (r' s : Event Hash) (post : List (Event Hash)) (h : Hash)
      → s.chain_hash ≡ some h
      → digest (content r') ≢ h
      → (payload_null r' ≡ false) ⊎ (r'.chain_hash ≢ some h)
      → payload_null s ≡ false
      → no_gaps (visit_all dec digest w (r' ∷ s ∷ post)).gaps ≡ false
  unfolding visit_all
  changed_from w r' s post h stored other guard payload =
      gap_at (visit dec digest w r') s post h stored (λ e. ground (arith, visit-prev_hash w r'))
        payload

  pub changed_gap :
      (pre : List (Event Hash)) (r' s : Event Hash) (post : List (Event Hash)) (h : Hash)
      → s.chain_hash ≡ some h
      → digest (content r') ≢ h
      → (payload_null r' ≡ false) ⊎ (r'.chain_hash ≢ some h)
      → payload_null s ≡ false
      → (verify_chain dec digest (pre ++ r' ∷ s ∷ post)).intact ≡ false
  unfolding verify_chain walk
  changed_gap [] r' s post h stored other guard payload =
      gap_at (record { prev_hash = some (digest (content r')); gaps = []; pruned_count = 0 }) s post
        h stored (λ e. other (some-injective (digest (content r')) h e)) payload
  changed_gap (p ∷ pre) r' s post h stored other guard payload =
      rw visit_all-append (changed_from _ r' s post h stored other guard payload)

  visit_all-past :
      (w : Walk Hash) (h : Hash) (pre : List (Event Hash)) (p : Event Hash)
      (xs rest : List (Event Hash))
      → w.prev_hash ≡ some h
      → LinkedFrom digest h (pre ++ p ∷ xs)
      → visit_all dec digest w (pre ++ p ∷ rest)
        ≡ visit_all dec digest (record w { prev_hash = some (digest (content p)) }) rest
  visit_all-past w h [] p xs rest e l = visit_all-hit dec digest w p rest h e l.0
  visit_all-past w h (x ∷ pre) p xs rest e l =
      visit_all-hit dec digest w x (pre ++ p ∷ rest) h e l.0
      ∙ visit_all-past (record w { prev_hash = some (digest (content x)) }) (digest (content x)) pre
          p xs rest refl l.1

  -- The walk is clean up to a record that the list links up to, whatever follows it.
  pub walk_past :
      (pre : List (Event Hash)) (p : Event Hash) (xs rest : List (Event Hash))
      → IsLinked digest (pre ++ p ∷ xs)
      → walk dec digest (pre ++ p ∷ rest)
        ≡ visit_all dec digest
            (record { prev_hash = some (digest (content p)); gaps = []; pruned_count = 0 })
            rest
  unfolding walk
  walk_past [] p xs rest l = refl
  walk_past (x ∷ pre) p xs rest l =
      visit_all-past (record { prev_hash = some (digest (content x)); gaps = []; pruned_count = 0 })
        (digest (content x)) pre p xs rest refl l

  pub visit_pruned :
      (w : Walk Hash) (r : Event Hash) (h g : Hash)
      → w.prev_hash ≡ some h
      → r.chain_hash ≡ some g
      → g ≢ h
      → payload_null r ≡ true
      → visit dec digest w r ≡ record w { prev_hash = some g; pruned_count = suc w.pruned_count }
  unfolding visit
  visit_pruned w r h g e stored ne payload =
      ground (arith, same_hash_iff dec r.chain_hash w.prev_hash)
