-- ===== src/Safety/Barriers.antt =====
-- What is shared with a peer.
use onto_ontological_context.Prelude.{
  ◌≤◌, ◌<◌, ◌≡◌, refl, ◌↔◌, ◌⊎◌, inl, inr, String, Bool, true, false, ◌||◌, List, [], ◌∷◌, arith,
  all_of, str_eq, eq_iff, eq_refl, Bool-cases,
}
use onto_ontological_context.Prelude.Texts.{member}
use onto_ontological_context.Safety.{
  Config, Share, passed, is_empty, check_absolute_barriers, check_controls, check_outbound,
}

all_of_iff :
    (p : String → Bool) (ns : List String)
    → (all_of p ns ≡ true) ↔ ((n : String) → member n ns ≡ true → p n ≡ true)
unfolding member
all_of_iff p [] = (λ h n m. ground arith, λ h. refl)
all_of_iff p (m ∷ ns) = (
  λ h n inside. elim (Bool-cases (str_eq m n)) [
    | inl same ↦ rw (← (eq_iff m n).0 same) (ground arith)
    | inr differ ↦ (all_of_iff p ns).0 (ground arith) n (ground arith)
  ],
  λ h. ground (
    arith,
    h m (ground (arith, eq_refl m)),
    (all_of_iff p ns).1 (λ n inside. h n (ground arith)),
  ),
)

unfoldable residency_ok : Config → Share → Bool
residency_ok c s =
    is_empty c.data_residency || all_of (λ r. member r c.data_residency) s.peer_regions

empty_iff : (l : List String) → (is_empty l ≡ true) ↔ (l ≡ [])
empty_iff [] = (λ h. refl, λ h. refl)
empty_iff (x ∷ l) = (λ h. absurd (ground arith), λ h. absurd (ground arith))

residency_iff :
    (c : Config) (s : Share)
    → (residency_ok c s ≡ true) ↔ (
        (c.data_residency ≡ [])
        ⊎ ((r : String) → member r s.peer_regions ≡ true → member r c.data_residency ≡ true))
unfolding residency_ok
residency_iff c s = (
  λ h. elim (Bool-cases (is_empty c.data_residency)) [
    | inl none ↦ inl ((empty_iff c.data_residency).0 none)
    | inr some ↦ inr ((all_of_iff (λ r. member r c.data_residency) s.peer_regions).0 (ground arith))
  ],
  λ h. elim h [
    | inl none ↦ ground (arith, (empty_iff c.data_residency).1 none)
    | inr all ↦ ground (arith, (all_of_iff (λ r. member r c.data_residency) s.peer_regions).1 all)
  ],
)

module _ (contains_crisis : String → Bool) where
  -- All that a share needs.
  pub record Permitted (c : Config) (s : Share) : Type 0 where
    pub not_flagged : s.is_crisis ≡ false
    pub not_crisis : contains_crisis s.text ≡ false
    pub not_privileged : s.classification < 4
    pub consent : s.has_valid_consent ≡ true
    pub ceiling : s.classification ≤ c.max_share_classification
    pub trusted : (s.is_sensitive ≡ false) ⊎ (c.sensitive_trust_threshold ≤ s.peer_trust_score)
    pub residency :
        (c.data_residency ≡ [])
        ⊎ ((r : String) → member r s.peer_regions ≡ true → member r c.data_residency ≡ true)

  outbound_lem :
      (c : Config) (s : Share)
      → (check_outbound contains_crisis c s ≡ passed) ↔ (
          (s.is_crisis ≡ false)
          × (contains_crisis s.text ≡ false)
          × (s.classification < 4)
          × (s.has_valid_consent ≡ true)
          × (s.classification ≤ c.max_share_classification)
          × ((s.is_sensitive ≡ false) ⊎ (c.sensitive_trust_threshold ≤ s.peer_trust_score))
          × (residency_ok c s ≡ true))
  unfolding check_outbound check_absolute_barriers check_controls residency_ok
  outbound_lem c s = ground arith

  -- Data is shared with a peer exactly if the flag and the text show no crisis, its classification is
  -- under 4 and within the configured ceiling, consent is valid, the peer is trusted enough for
  -- sensitive content, and its regions are permitted, which any are if none are configured. No
  -- configuration lifts the first three.
  pub check_outbound-Permitted :
      (c : Config) (s : Share) → (check_outbound contains_crisis c s ≡ passed) ↔ Permitted c s
  check_outbound-Permitted c s = (
    λ h.
        let (flag, crisis, privileged, consent, ceiling, trust, regions) = (outbound_lem c s).0 h in
        record {
          not_flagged = flag;
          not_crisis = crisis;
          not_privileged = privileged;
          consent = consent;
          ceiling = ceiling;
          trusted = trust;
          residency = (residency_iff c s).0 regions;
        },
    λ p. (outbound_lem c s).1 (
      p.not_flagged,
      p.not_crisis,
      p.not_privileged,
      p.consent,
      p.ceiling,
      p.trusted,
      (residency_iff c s).1 p.residency,
    ),
  )
