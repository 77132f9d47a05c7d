-- ===== src/Federation/Regulatory/Complies.antt =====
-- What the profiles of api/federation/regulatory.py ask for, and that the registry asks for all of it.
use onto_ontological_context.Prelude.{
  eq_refl, if◌then◌else◌, ◌≡◌, ◌↔◌, ◌⊎◌, refl, inl, inr, String, Bool, true, false, not, Option,
  none, some, List, [], ◌∷◌, arith, All,
}
use onto_ontological_context.Prelude.Dict.{Dict}
use onto_ontological_context.Prelude.Texts.{member, difference, member-difference}
use onto_ontological_context.Federation.Regulatory.{
  Scalar, Peer, Profile, hipaa, gdpr, ferpa, glba, Block, no_baa, no_dpa, no_erasure,
  unsafe_countries, third_countries, holds, has_type, hipaa_safe_countries, eea_and_adequate,
  outside, hipaa_outbound, gdpr_outbound, ferpa_outbound, glba_outbound, profile_outbound,
  first_block, check_outbound,
}

-- Every region is one of the countries.
abbrev pub Within : List String → List String → Type 0
Within countries regions = (r : String) → member r regions ≡ true → member r countries ≡ true

-- What a profile asks for, of data that may go to a peer.
abbrev pub Complies : Profile → Dict Scalar → Peer → Type 0
Complies hipaa d peer =
    (holds "phi_flag" d ≡ true)
    → (holds "baa_confirmed" peer.capabilities ≡ true) × Within hipaa_safe_countries peer.regions
Complies gdpr d peer =
    (holds "is_personal" d ≡ true)
    → (holds "gdpr_dpa_confirmed" peer.capabilities ≡ true)
      × (holds "right_to_erasure_supported" peer.capabilities ≡ true)
      × ((holds "gdpr_transfer_mechanism" peer.capabilities ≡ true)
          ⊎ Within eea_and_adequate peer.regions)
Complies ferpa d peer =
    (holds "ferpa_flag" d ≡ true) ⊎ (has_type "educational_record" d ≡ true)
    → (holds "ferpa_agreement" peer.capabilities ≡ true)
      ⊎ (holds "ferpa_legitimate_interest" peer.capabilities ≡ true)
Complies glba d peer =
    (holds "glba_flag" d ≡ true) ⊎ (has_type "financial_record" d ≡ true)
    → (holds "glba_safeguards" peer.capabilities ≡ true)
      × ((holds "is_nppi" d ≡ true) → holds "glba_optout_supported" peer.capabilities ≡ true)

nobody :
    (block : List String → Block) (l : List String)
    → (outside block l ≡ none) ↔ ((r : String) → member r l ≡ false)
unfolding outside member
nobody block [] = (λ h r. refl, λ h. refl)
nobody block (x ∷ l) = (λ h. absurd (cc), λ h. absurd (ground (arith, h x, eq_refl x)))

nothing_outside :
    (block : List String → Block) (countries regions : List String)
    → (outside block (difference regions countries) ≡ none) ↔ Within countries regions
nothing_outside block countries regions =
    let iff = nobody block (difference regions countries) in
    (
      λ h r in_regions.
          ground (arith, iff.0 h r, member-difference r regions countries, in_regions),
      λ within. iff.1 (λ r. ground (arith, within r, member-difference r regions countries)),
    )

hipaa_cases :
    (phi baa : Bool) (o : Option Block) (W : Type 0)
    → (o ≡ none) ↔ W
    → ((if phi then (if baa then o else some no_baa) else none) ≡ none)
      ↔ ((phi ≡ true) → (baa ≡ true) × W)
hipaa_cases true true o W iff = (λ h p. (refl, iff.0 h), λ f. iff.1 (f refl).1)
hipaa_cases true false o W iff = (λ h. absurd (cc), λ f. absurd (ground (arith, (f refl).0)))
hipaa_cases false baa o W iff = (λ h p. absurd (cc), λ f. refl)

gdpr_cases :
    (personal dpa erasure mechanism : Bool) (o : Option Block) (W : Type 0)
    → (o ≡ none) ↔ W
    → ((if not personal
          then none
          else if not dpa
          then some no_dpa
          else if not erasure
          then some no_erasure
          else if mechanism
          then none
          else o)
        ≡ none)
      ↔ ((personal ≡ true) → (dpa ≡ true) × (erasure ≡ true) × ((mechanism ≡ true) ⊎ W))
gdpr_cases true true true true o W iff = (λ h p. (refl, refl, inl refl), λ f. refl)
gdpr_cases true true true false o W iff = (
  λ h p. (refl, refl, inr (iff.0 h)),
  λ f. elim (f refl).2 [ inl e ↦ absurd (cc) | inr within ↦ iff.1 within ],
)
gdpr_cases true true false mechanism o W iff =
    (λ h. absurd (cc), λ f. absurd (ground (arith, (f refl).1)))
gdpr_cases true false erasure mechanism o W iff =
    (λ h. absurd (cc), λ f. absurd (ground (arith, (f refl).0)))
gdpr_cases false dpa erasure mechanism o W iff = (λ h p. absurd (cc), λ f. refl)

profile_outbound_iff :
    (p : Profile) (d : Dict Scalar) (peer : Peer)
    → (profile_outbound p d peer ≡ none) ↔ Complies p d peer
unfolding profile_outbound hipaa_outbound gdpr_outbound ferpa_outbound glba_outbound
profile_outbound_iff hipaa d peer =
    hipaa_cases (holds "phi_flag" d) (holds "baa_confirmed" peer.capabilities)
      (outside unsafe_countries (difference peer.regions hipaa_safe_countries))
      (Within hipaa_safe_countries peer.regions)
      (nothing_outside unsafe_countries hipaa_safe_countries peer.regions)
profile_outbound_iff gdpr d peer =
    gdpr_cases (holds "is_personal" d) (holds "gdpr_dpa_confirmed" peer.capabilities)
      (holds "right_to_erasure_supported" peer.capabilities)
      (holds "gdpr_transfer_mechanism" peer.capabilities)
      (outside third_countries (difference peer.regions eea_and_adequate))
      (Within eea_and_adequate peer.regions)
      (nothing_outside third_countries eea_and_adequate peer.regions)
profile_outbound_iff ferpa d peer = ground arith
profile_outbound_iff glba d peer = ground arith

first_block_iff :
    (P : Profile → Type 0) (check : Profile → Option Block) (profiles : List Profile)
    → ((p : Profile) → (check p ≡ none) ↔ P p)
    → (first_block check profiles ≡ none) ↔ All P profiles
unfolding first_block
first_block_iff P check [] each = (λ h. tt, λ h. refl)
first_block_iff P check (p ∷ profiles) each =
    let (rest, all) = first_block_iff P check profiles each in
    (
      λ h. ((each p).0 (ground (arith, h)), rest (ground (arith, h))),
      λ h. ground (arith, (each p).1 h.0, all h.1),
    )

-- The registry lets data go to a peer exactly if all active profiles are satisfied: HIPAA, for health
-- data only, with an agreement and regions in the US only; GDPR, for personal data, with an agreement, the
-- right to erasure, and regions that are adequate unless there is a mechanism for the transfer;
-- FERPA, for educational records of any classification, with an agreement or a legitimate interest; GLBA, for financial
-- records, with safeguards, and the way to opt out if the data is not public.
pub check_outbound-Complies :
    (profiles : List Profile) (d : Dict Scalar) (peer : Peer)
    → (check_outbound profiles d peer ≡ none) ↔ All (λ p. Complies p d peer) profiles
unfolding check_outbound
check_outbound-Complies profiles d peer =
    first_block_iff (λ p. Complies p d peer) (λ p. profile_outbound p d peer) profiles
      (λ p. profile_outbound_iff p d peer)
