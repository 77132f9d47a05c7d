-- ===== src/Memory/Linked.antt =====
-- The chain of the audit trail: what linked means, that recording keeps it, and that `verify_chain`
-- decides it.
use onto_ontological_context.Prelude.{
  ℕ, ◌+◌, ◌<◌, ◌≤◌, ◌≡◌, refl, ◌≢◌, ◌↔◌, ◌⊎◌, inl, inr, true, false, Option, none, some, List, [],
  ◌∷◌, ◌++◌, length, length-append, arith, ap, Bool-cases,
}
use onto_ontological_context.Memory.{
  Event, Content, Entry, Db, empty_db, content, latest, compute_chain_hash, new_event, record_event,
  record_all,
}
use onto_ontological_context.Memory.Chain.{
  Gap, Walk, same_hash, visit, visit_all, walk, no_gaps, verify_chain,
}

pub no_gaps-append :
    {Hash : Type 0} (gs : List (Gap Hash)) (g : Gap Hash) → no_gaps (gs ++ g ∷ []) ≡ false
no_gaps-append [] g = refl
no_gaps-append (x ∷ gs) g = refl

module _ {Hash : Type 0} (digest : Content → Hash) where
  -- Every record of the list stores the digest of the one before it, the first one `h`.
  abbrev pub LinkedFrom : Hash → List (Event Hash) → Type 0
  LinkedFrom h [] = Unit
  LinkedFrom h (r ∷ rs) = (r.chain_hash ≡ some h) × LinkedFrom (digest (content r)) rs

  abbrev pub IsLinked : List (Event Hash) → Type 0
  IsLinked [] = Unit
  IsLinked (r ∷ rs) = LinkedFrom (digest (content r)) rs

  LinkedFrom-append :
      (p : Event Hash) (rs : List (Event Hash)) (x : Event Hash)
      → LinkedFrom (digest (content p)) rs
      → x.chain_hash ≡ compute_chain_hash digest (p ∷ rs)
      → LinkedFrom (digest (content p)) (rs ++ x ∷ [])
  unfolding compute_chain_hash latest
  LinkedFrom-append p [] x l e = (e, tt)
  LinkedFrom-append p (r ∷ rs) x l e = (l.0, LinkedFrom-append r rs x l.1 e)

  record_event-IsLinked :
      (now : ℕ) (e : Entry) (db : Db Hash)
      → IsLinked db.events
      → IsLinked (record_event digest now e db).0.events
  unfolding record_event
  record_event-IsLinked now e db l = go db.events l refl
    where
      go :
          (es : List (Event Hash))
          → IsLinked es
          → (new_event now e (compute_chain_hash digest db.events) db).chain_hash
            ≡ compute_chain_hash digest es
          → IsLinked (es ++ new_event now e (compute_chain_hash digest db.events) db ∷ [])
      go [] l h = tt
      go (p ∷ rs) l h =
          LinkedFrom-append p rs (new_event now e (compute_chain_hash digest db.events) db) l h

  pub record_all-IsLinked :
      (calls : List (ℕ × Entry)) (db : Db Hash)
      → IsLinked db.events
      → IsLinked (record_all digest calls db).events
  unfolding record_all
  record_all-IsLinked [] db l = l
  record_all-IsLinked ((now, e) ∷ calls) db l =
      record_all-IsLinked calls (record_event digest now e db).0 (record_event-IsLinked now e db l)

  length-record_all :
      (calls : List (ℕ × Entry)) (db : Db Hash)
      → length (record_all digest calls db).events ≡ length db.events + length calls
  unfolding record_all record_event
  length-record_all [] db = omega arith
  length-record_all ((now, e) ∷ calls) db = omega (
    arith,
    length-record_all calls (record_event digest now e db).0,
    length-append db.events (new_event now e (compute_chain_hash digest db.events) db ∷ []),
  )

  -- Two neighbours of a linked list.
  LinkedFrom-middle :
      (h : Hash) (pre : List (Event Hash)) (r s : Event Hash) (post : List (Event Hash))
      → LinkedFrom h (pre ++ r ∷ s ∷ post)
      → s.chain_hash ≡ some (digest (content r))
  LinkedFrom-middle h [] r s post l = l.1.0
  LinkedFrom-middle h (p ∷ pre) r s post l = LinkedFrom-middle (digest (content p)) pre r s post l.1

  pub IsLinked-middle :
      (pre : List (Event Hash)) (r s : Event Hash) (post : List (Event Hash))
      → IsLinked (pre ++ r ∷ s ∷ post)
      → s.chain_hash ≡ some (digest (content r))
  IsLinked-middle [] r s post l = l.0
  IsLinked-middle (p ∷ pre) r s post l = LinkedFrom-middle (digest (content p)) pre r s post l

  LinkedFrom-take :
      (h : Hash) (pre post : List (Event Hash)) → LinkedFrom h (pre ++ post) → LinkedFrom h pre
  LinkedFrom-take h [] post l = tt
  LinkedFrom-take h (p ∷ pre) post l = (l.0, LinkedFrom-take (digest (content p)) pre post l.1)

  IsLinked-take : (pre post : List (Event Hash)) → IsLinked (pre ++ post) → IsLinked pre
  IsLinked-take [] post l = tt
  IsLinked-take (p ∷ pre) post l = LinkedFrom-take (digest (content p)) pre post l

  LinkedFrom-drop :
      (h : Hash) (pre : List (Event Hash)) (r : Event Hash) (post : List (Event Hash))
      → LinkedFrom h (pre ++ r ∷ post)
      → LinkedFrom (digest (content r)) post
  LinkedFrom-drop h [] r post l = l.1
  LinkedFrom-drop h (p ∷ pre) r post l = LinkedFrom-drop (digest (content p)) pre r post l.1

  pub IsLinked-drop : (pre post : List (Event Hash)) → IsLinked (pre ++ post) → IsLinked post
  IsLinked-drop [] post l = l
  IsLinked-drop (p ∷ pre) [] l = tt
  IsLinked-drop (p ∷ pre) (r ∷ post) l = LinkedFrom-drop (digest (content p)) pre r post l

module _ {Hash : Type 0} (dec : Discrete Hash) where
  pub same_hash_iff : (a b : Option Hash) → (same_hash dec a b ≡ true) ↔ (a ≡ b)
  unfolding same_hash
  same_hash_iff none none = (λ _. refl, λ _. refl)
  same_hash_iff none (some b) = (λ h. cc, λ h. cc)
  same_hash_iff (some a) none = (λ h. cc, λ h. cc)
  same_hash_iff (some a) (some b) = (λ h. ground arith, λ h. ground arith)

  module _ (digest : Content → Hash) where
    visit_hit :
        (w : Walk Hash) (r : Event Hash) (h : Hash)
        → w.prev_hash ≡ some h
        → r.chain_hash ≡ some h
        → visit dec digest w r ≡ record w { prev_hash = some (digest (content r)) }
    unfolding visit
    visit_hit w r h p e = ground (arith, same_hash_iff r.chain_hash w.prev_hash)

    pub visit_all-hit :
        (w : Walk Hash) (r : Event Hash) (rs : List (Event Hash)) (h : Hash)
        → w.prev_hash ≡ some h
        → r.chain_hash ≡ some h
        → visit_all dec digest w (r ∷ rs)
          ≡ visit_all dec digest (record w { prev_hash = some (digest (content r)) }) rs
    unfolding visit_all
    visit_all-hit w r rs h p e = ap (λ v. visit_all dec digest v rs) (visit_hit w r h p e)

    -- A gap is never forgotten, and the count of pruned records does not fall.
    visit_keeps :
        (w : Walk Hash) (r : Event Hash)
        → no_gaps w.gaps ≡ false
        → no_gaps (visit dec digest w r).gaps ≡ false
    unfolding visit
    visit_keeps w r h = ground (
      arith,
      no_gaps-append w.gaps
          (record { record_id = r.id; expected = w.prev_hash; stored = r.chain_hash }),
    )

    visit_counts :
        (w : Walk Hash) (r : Event Hash) → w.pruned_count ≤ (visit dec digest w r).pruned_count
    unfolding visit
    visit_counts w r = ground arith

    -- A record that does not store what is expected is a gap, or is taken for a pruned one.
    visit_miss :
        (w : Walk Hash) (r : Event Hash) (h : Hash)
        → w.prev_hash ≡ some h
        → r.chain_hash ≢ some h
        → (no_gaps (visit dec digest w r).gaps ≡ false)
          ⊎ (w.pruned_count < (visit dec digest w r).pruned_count)
    unfolding visit
    visit_miss w r h p e = ground (
      arith,
      same_hash_iff r.chain_hash w.prev_hash,
      no_gaps-append w.gaps
          (record { record_id = r.id; expected = w.prev_hash; stored = r.chain_hash }),
    )

    pub visit_all_keeps :
        (rs : List (Event Hash)) (w : Walk Hash)
        → no_gaps w.gaps ≡ false
        → no_gaps (visit_all dec digest w rs).gaps ≡ false
    unfolding visit_all
    visit_all_keeps [] w h = h
    visit_all_keeps (r ∷ rs) w h = visit_all_keeps rs (visit dec digest w r) (visit_keeps w r h)

    visit_all_counts :
        (rs : List (Event Hash)) (w : Walk Hash)
        → w.pruned_count ≤ (visit_all dec digest w rs).pruned_count
    unfolding visit_all
    visit_all_counts [] w = omega arith
    visit_all_counts (r ∷ rs) w =
        omega (arith, visit_counts w r, visit_all_counts rs (visit dec digest w r))

    -- A linked rest adds nothing to the gaps and to the count.
    pub visit_all-linked :
        (rs : List (Event Hash)) (w : Walk Hash) (h : Hash)
        → w.prev_hash ≡ some h
        → LinkedFrom digest h rs
        → ((visit_all dec digest w rs).gaps ≡ w.gaps)
          × ((visit_all dec digest w rs).pruned_count ≡ w.pruned_count)
    visit_all-linked [] w h p l = unfold visit_all in (refl, refl)
    visit_all-linked (r ∷ rs) w h p l =
        rw (visit_all-hit w r rs h p l.0) (visit_all-linked rs _ (digest (content r)) refl l.1)

    not_clean :
        (w : Walk Hash) (r : Event Hash) (rs : List (Event Hash)) (h : Hash)
        → w.prev_hash ≡ some h
        → r.chain_hash ≢ some h
        → no_gaps (visit_all dec digest w (r ∷ rs)).gaps ≡ true
        → (visit_all dec digest w (r ∷ rs)).pruned_count ≡ w.pruned_count
        → ⊥
    unfolding visit_all
    not_clean w r rs h p e g n = elim (visit_miss w r h p e) [
      | inl bad ↦ cc (visit_all_keeps rs (visit dec digest w r) bad, g)
      | inr more ↦ omega (arith, visit_all_counts rs (visit dec digest w r))
    ]

    -- The converse: a clean walk has found every link.
    LinkedFrom-of_clean :
        (rs : List (Event Hash)) (w : Walk Hash) (h : Hash)
        → w.prev_hash ≡ some h
        → no_gaps (visit_all dec digest w rs).gaps ≡ true
        → (visit_all dec digest w rs).pruned_count ≡ w.pruned_count
        → LinkedFrom digest h rs
    LinkedFrom-of_clean [] w h p g n = tt
    LinkedFrom-of_clean (r ∷ rs) w h p g n =
        elim (Bool-cases (same_hash dec r.chain_hash (some h))) [
          | inl e ↦
              let hit = visit_all-hit w r rs h p ((same_hash_iff r.chain_hash (some h)).0 e) in
              (
                (same_hash_iff r.chain_hash (some h)).0 e,
                LinkedFrom-of_clean rs _ (digest (content r)) refl (rw hit at g) (rw hit at n),
              )
          | inr e ↦
              absurd
                (not_clean w r rs h p (λ q. cc (e, (same_hash_iff r.chain_hash (some h)).1 q)) g n)
        ]

    -- `verify_chain` reports an intact chain with no pruned record exactly when every record after
    -- the first one stores the digest of the record before it.
    pub verify_chain_iff :
        (rs : List (Event Hash))
        → (((verify_chain dec digest rs).intact ≡ true) × ((verify_chain dec digest rs).pruned ≡ 0))
          ↔ IsLinked digest rs
    unfolding verify_chain walk
    verify_chain_iff [] = (λ _. tt, λ _. (refl, refl))
    verify_chain_iff (r ∷ rs) = (
      λ h. LinkedFrom-of_clean rs _ (digest (content r)) refl h.0 h.1,
      λ l. let (g, n) = visit_all-linked rs _ (digest (content r)) refl l in (ap no_gaps g, n),
    )

    -- From an empty table, whatever is recorded and when, one after another: `verify_chain` finds the chain intact, with
    -- no gap and no pruned record, over all the records made.
    pub record_all-intact :
        (calls : List (ℕ × Entry))
        → ((verify_chain dec digest (record_all digest calls empty_db).events).intact ≡ true)
          × ((verify_chain dec digest (record_all digest calls empty_db).events).pruned ≡ 0)
          × ((verify_chain dec digest (record_all digest calls empty_db).events).total
              ≡ length calls)
    unfolding verify_chain
    record_all-intact calls =
        let (i, p) = (verify_chain_iff _).1 (record_all-IsLinked digest calls empty_db tt) in
        (i, p, omega (arith, length-record_all digest calls empty_db))
