-- ===== src/Federation/Regulatory/Internet.antt =====
-- The gates of api/federation/internet.py.
use onto_ontological_context.Prelude.{
  ℕ, ◌≡◌, ◌↔◌, refl, ap, String, Bool, true, false, Option, none, some, List, [], ◌∷◌, arith,
  if◌then◌else◌,
}
use onto_ontological_context.Prelude.Dict
use onto_ontological_context.Prelude.Dict.{Dict}
use onto_ontological_context.Safety
use onto_ontological_context.Safety.{Fields, Verdict, passed, check_inbound_for_crisis}
use onto_ontological_context.Federation.Adapter.{Adapter, NodeInfo, World, can_share}
use onto_ontological_context.Federation.Regulatory.{
  Scalar, text_scalar, flag_scalar, number_scalar, holds, has_type, is_text, truthy, Peer, Profile,
  hipaa, gdpr, ferpa, glba, Block, hipaa_outbound, gdpr_outbound, ferpa_outbound, glba_outbound,
  profile_outbound, first_block, check_outbound, check_inbound,
}

-- What the gate of InternetAdapter answers.
pub data Gate : Type 0 where
  allowed : Gate
  refused : Verdict → Gate
  blocked : Profile → Block → Gate

-- the dict that `can_share` puts together for the profiles
unfoldable pub share_data : String → ℕ → Bool → Bool → Dict Scalar
share_data text classification is_sensitive is_crisis =
    ("text", text_scalar text)
    ∷ ("classification", number_scalar classification)
    ∷ ("is_sensitive", flag_scalar is_sensitive)
    ∷ ("is_crisis", flag_scalar is_crisis)
    ∷ []

abbrev pub by_profiles : Option (Profile × Block) → Gate
by_profiles none = allowed
by_profiles (some (p, block)) = blocked p block

-- the gate of LocalAdapter first
abbrev pub then_profiles : Verdict → Option (Profile × Block) → Gate
then_profiles passed found = by_profiles found
then_profiles verdict found = refused verdict

-- `can_share` of InternetAdapter, with the capabilities of the peer
unfoldable pub internet_can_share :
    World
    → List Profile
    → ℕ
    → String
    → ℕ
    → Bool
    → Bool
    → NodeInfo
    → Dict Scalar
    → String
    → Adapter
    → Gate
unfolding can_share share_data check_outbound
internet_can_share w profiles now text classification is_sensitive is_crisis peer capabilities
      consent_id a =
    then_profiles (can_share w now text classification is_sensitive is_crisis peer consent_id a) (
      check_outbound profiles (share_data text classification is_sensitive is_crisis)
        (record { capabilities = capabilities; regions = peer.regions }))

-- `can_receive` of InternetAdapter, for a payload with its scalars
unfoldable pub internet_can_receive :
    (String → Bool) → Safety.Config → List Profile → Fields → Dict Scalar → ℕ → Peer → Bool × ℕ
unfolding Safety.check_inbound check_inbound
internet_can_receive contains_crisis c profiles data_fields scalars trust_score peer =
    let (enters, trust) = Safety.check_inbound contains_crisis c data_fields trust_score in
    if enters
    then elim (check_inbound profiles scalars peer) [ none ↦ (true, trust) | some b ↦ (false, 0) ]
    else (false, 0)

profile_passes :
    (p : Profile) (text : String) (classification : ℕ) (is_sensitive is_crisis : Bool) (peer : Peer)
    → profile_outbound p (share_data text classification is_sensitive is_crisis) peer ≡ none
unfolding profile_outbound hipaa_outbound gdpr_outbound ferpa_outbound glba_outbound holds has_type
    share_data Dict.get truthy is_text
profile_passes hipaa text classification is_sensitive is_crisis peer = refl
profile_passes gdpr text classification is_sensitive is_crisis peer = refl
profile_passes ferpa text classification is_sensitive is_crisis peer = refl
profile_passes glba text classification is_sensitive is_crisis peer = refl

none_blocks :
    (check : Profile → Option Block) (profiles : List Profile)
    → ((p : Profile) → check p ≡ none)
    → first_block check profiles ≡ none
unfolding first_block
none_blocks check [] each = refl
none_blocks check (p ∷ profiles) each = ground (arith, each p, none_blocks check profiles each)

-- No profile ever blocks a share, whichever are active, whatever the data and the capabilities and
-- regions of the peer: can_share of InternetAdapter answers as that of LocalAdapter does, since the
-- dict that it puts together has none of the keys that the profiles read.
pub internet_can_share-can_share :
    (w : World) (profiles : List Profile) (now : ℕ) (text : String) (classification : ℕ)
    (is_sensitive is_crisis : Bool) (peer : NodeInfo) (capabilities : Dict Scalar)
    (consent_id : String) (a : Adapter)
    → internet_can_share w profiles now text classification is_sensitive is_crisis peer capabilities
        consent_id a
      ≡ then_profiles
          (can_share w now text classification is_sensitive is_crisis peer consent_id a)
          none
unfolding internet_can_share check_outbound
internet_can_share-can_share w profiles now text classification is_sensitive is_crisis peer
      capabilities consent_id a =
    let regulated : Peer = record { capabilities = capabilities; regions = peer.regions } in
    ap
      (then_profiles (can_share w now text classification is_sensitive is_crisis peer consent_id a))
      (none_blocks
        (λ p. profile_outbound p (share_data text classification is_sensitive is_crisis) regulated)
        profiles (λ p. profile_passes p text classification is_sensitive is_crisis regulated))

-- A payload enters exactly if it has no crisis text and no profile objects, and then with the trust
-- that the gate of LocalAdapter gives it.
internet_can_receive_iff :
    (contains_crisis : String → Bool) (c : Safety.Config) (profiles : List Profile)
    (data_fields : Fields) (scalars : Dict Scalar) (trust_score : ℕ) (peer : Peer)
    → ((internet_can_receive contains_crisis c profiles data_fields scalars trust_score peer).0
        ≡ true)
      ↔ ((check_inbound_for_crisis contains_crisis data_fields ≡ false)
          × (check_inbound profiles scalars peer ≡ none))
unfolding internet_can_receive Safety.check_inbound
internet_can_receive_iff contains_crisis c profiles data_fields scalars trust_score peer =
    ground arith
