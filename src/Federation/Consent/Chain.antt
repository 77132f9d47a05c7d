-- ===== src/Federation/Consent/Chain.antt =====
-- The digest chain of the ledger stays intact.
use onto_ontological_context.Prelude.{
  ℕ, ◌<◌, ◌≤◌, ◌≡◌, refl, sym, inl, inr, String, true, Option, none, some, List, [], ◌∷◌, ◌++◌, map,
  arith, length, All, All-append, str_eq, eq_refl, if◌then◌else◌, Bool-cases,
}
use onto_ontological_context.Prelude.Unique.{All-map, All-weaken}
use onto_ontological_context.Federation.Consent.{
  Consent, Grant, find_consent, update_consent, is_live, revoke, reconfirm, by_granted_at, grant,
  broken_from, verify_chain_integrity, Call, do_grant, do_revoke, do_reconfirm, perform,
  perform_all,
}
use onto_ontological_context.Federation.Consent.Order.{
  last_hash, IsIncreasing, by_granted_at-same, latest_chain_hash-last, map-IsIncreasing,
  append-IsIncreasing,
}

module _ (digest : Option String → String → ℕ → String) where
  -- Each row has the digest of its id, its time and the row before.
  abbrev pub Linked : Option String → List Consent → Type 0
  Linked prev [] = Unit
  Linked prev (c ∷ cs) =
      (c.chain_hash ≡ digest prev c.consent_id c.granted_at) × Linked (some c.chain_hash) cs

  broken_from-none :
      (prev : Option String) (cs : List Consent)
      → Linked prev cs
      → broken_from digest prev cs ≡ none
  unfolding broken_from
  broken_from-none prev [] h = refl
  broken_from-none prev (c ∷ cs) h =
      let same : str_eq c.chain_hash (digest prev c.consent_id c.granted_at) ≡ true =
        rw (sym h.0) (eq_refl c.chain_hash) in
      rw same (broken_from-none (some c.chain_hash) cs h.1)

  append-Linked :
      (prev : Option String) (cs : List Consent) (c : Consent)
      → c.chain_hash ≡ digest (last_hash prev cs) c.consent_id c.granted_at
      → Linked prev cs
      → Linked prev (cs ++ c ∷ [])
  append-Linked prev [] c same h = (same, tt)
  append-Linked prev (d ∷ ds) c same h = (h.0, append-Linked (some d.chain_hash) ds c same h.1)

  map-Linked :
      (f : Consent → Consent) (prev : Option String) (cs : List Consent)
      → ((c : Consent) → (f c).granted_at ≡ c.granted_at)
      → ((c : Consent) → (f c).consent_id ≡ c.consent_id)
      → ((c : Consent) → (f c).chain_hash ≡ c.chain_hash)
      → Linked prev cs
      → Linked prev (map f cs)
  map-Linked f prev [] times ids hashes h = tt
  map-Linked f prev (c ∷ cs) times ids hashes h = (
    rw (hashes c, ids c, times c) h.0,
    rw (hashes c) (map-Linked f (some c.chain_hash) cs times ids hashes h.1),
  )

  -- What holds of a ledger whose grants happened up to a time.
  abbrev pub Upto : ℕ → List Consent → Type 0
  Upto now ledger =
      Linked none ledger × IsIncreasing ledger × All (λ (c : Consent). c.granted_at ≤ now) ledger

  update-Upto :
      (now : ℕ) (id : String) (f : Consent → Consent) (ledger : List Consent)
      → ((c : Consent)
          → ((f c).granted_at ≡ c.granted_at)
            × ((f c).consent_id ≡ c.consent_id)
            × ((f c).chain_hash ≡ c.chain_hash))
      → Upto now ledger
      → Upto now (update_consent id f ledger)
  unfolding update_consent
  update-Upto now id f ledger keeps (linked, increasing, upto) =
      let g = λ (c : Consent). if str_eq c.consent_id id then f c else c in
      let times : (c : Consent) → (g c).granted_at ≡ c.granted_at =
        λ c. ground (arith, (keeps c).0) in
      let ids : (c : Consent) → (g c).consent_id ≡ c.consent_id =
        λ c. ground (arith, (keeps c).1) in
      let hashes : (c : Consent) → (g c).chain_hash ≡ c.chain_hash =
        λ c. ground (arith, (keeps c).2) in
      (
        map-Linked g none ledger times ids hashes linked,
        map-IsIncreasing g ledger times increasing,
        All-map (λ (c : Consent). c.granted_at ≤ now) g ledger (λ c h. rw (times c) h) upto,
      )

  -- Grants happen at times that grow from a time on.
  abbrev pub IsOrdered : ℕ → List Call → Type 0
  IsOrdered last [] = Unit
  IsOrdered last (do_grant now id a ∷ calls) = (last < now) × IsOrdered now calls
  IsOrdered last (do_revoke now id reason ∷ calls) = IsOrdered last calls
  IsOrdered last (do_reconfirm now id ∷ calls) = IsOrdered last calls

  grant-Upto :
      (last now : ℕ) (id : String) (a : Grant) (ledger : List Consent)
      → last < now
      → Upto last ledger
      → Upto now (grant digest now id a ledger)
  unfolding grant
  grant-Upto last now id a ledger later (linked, increasing, upto) = (
    append-Linked none ledger _ (rw (latest_chain_hash-last ledger increasing) refl) linked,
    append-IsIncreasing ledger _
        (All-weaken (λ (c : Consent). c.granted_at ≤ last) ledger (λ c h. omega arith) upto)
        increasing,
    All-append (λ (c : Consent). c.granted_at ≤ now) ledger _
        (All-weaken (λ (c : Consent). c.granted_at ≤ last) ledger (λ c h. omega arith) upto)
        (omega arith, tt),
  )

  perform_all-Upto :
      (calls : List Call) (last : ℕ) (ledger : List Consent)
      → IsOrdered last calls
      → Upto last ledger
      → Linked none (perform_all digest calls ledger)
        × IsIncreasing (perform_all digest calls ledger)
  unfolding perform_all perform revoke reconfirm
  perform_all-Upto [] last ledger ordered h = (h.0, h.1)
  perform_all-Upto (do_grant now id a ∷ calls) last ledger ordered h =
      perform_all-Upto calls now (grant digest now id a ledger) ordered.1
        (grant-Upto last now id a ledger ordered.0 h)
  perform_all-Upto (do_revoke now id reason ∷ calls) last ledger ordered h =
      perform_all-Upto calls last (revoke now id reason ledger).1 ordered
        (elim (Bool-cases (is_live (find_consent id ledger))) [
          | inl e ↦ rw e (update-Upto last id _ ledger (λ c. (refl, refl, refl)) h)
          | inr e ↦ rw e h
        ])
  perform_all-Upto (do_reconfirm now id ∷ calls) last ledger ordered h =
      perform_all-Upto calls last (reconfirm now id ledger).1 ordered
        (elim (Bool-cases (is_live (find_consent id ledger))) [
          | inl e ↦ rw e (update-Upto last id _ ledger (λ c. (refl, refl, refl)) h)
          | inr e ↦ rw e h
        ])

  -- From the empty ledger, after any grants at times that grow, mixed with revocations and
  -- reconfirmations, verify_chain_integrity finds the chain intact.
  pub perform_all-intact :
      (calls : List Call) (start : ℕ)
      → IsOrdered start calls
      → verify_chain_integrity digest (perform_all digest calls [])
        ≡ record { intact = true; total = length (perform_all digest calls []); broken_at = none }
  unfolding verify_chain_integrity
  perform_all-intact calls start ordered =
      let (linked, increasing) = perform_all-Upto calls start [] ordered (tt, tt, tt) in
      let ledger = perform_all digest calls [] in
      let whole : broken_from digest none (by_granted_at ledger) ≡ none =
        rw (by_granted_at-same ledger increasing) (broken_from-none none ledger linked) in
      rw whole refl
