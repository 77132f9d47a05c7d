-- ===== src/Federation/Regulatory.antt =====
-- api/federation/regulatory.py: the profiles and their registry; and the gates of InternetAdapter of
-- api/federation/internet.py, which ask it after those of LocalAdapter. The data and the capabilities of
-- a peer are dicts, of which the profiles read scalars. Reasons are constructors. The profiles catch
-- what raises, which nothing here does.
pub mod Complies
pub mod Internet
mod Tests
use onto_ontological_context.Prelude.{
  ℕ, String, Bool, true, false, not, ◌&&◌, ◌||◌, Option, none, some, List, [], ◌∷◌, ◌++◌, ◌==◌,
  str_eq, if◌then◌else◌,
}
use onto_ontological_context.Prelude.Dict
use onto_ontological_context.Prelude.Dict.{Dict}
use onto_ontological_context.Prelude.Texts.{difference}

pub data Scalar : Type 0 where
  text_scalar : String → Scalar
  flag_scalar : Bool → Scalar
  number_scalar : ℕ → Scalar

-- whether Python takes the value of `d.get(key)` for true
unfoldable pub truthy : Option Scalar → Bool
truthy none = false
truthy (some (text_scalar s)) = not (str_eq s "")
truthy (some (flag_scalar b)) = b
truthy (some (number_scalar n)) = not (n == 0)

unfoldable pub holds : String → Dict Scalar → Bool
unfolding truthy Dict.get
holds key d = truthy (Dict.get key d)

-- `d.get(key) == text`
unfoldable pub is_text : String → Option Scalar → Bool
is_text text none = false
is_text text (some (text_scalar s)) = str_eq s text
is_text text (some (flag_scalar b)) = false
is_text text (some (number_scalar n)) = false

unfoldable pub has_type : String → Dict Scalar → Bool
unfolding is_text Dict.get
has_type type d = is_text type (Dict.get "data_type" d)

-- What the profiles read of a `NodeInfo`; the regions are `data_residency_set`.
pub record Peer : Type 0 where
  pub capabilities : Dict Scalar
  pub regions : List String

pub data Profile : Type 0 where
  hipaa gdpr ferpa glba : Profile

pub data Block : Type 0 where
  no_baa no_dpa no_erasure no_educational_agreement no_safeguards no_optout : Block
  unsafe_countries third_countries : List String → Block

abbrev pub hipaa_safe_countries : List String
hipaa_safe_countries = "US" ∷ []

abbrev pub eea_and_adequate : List String
eea_and_adequate =
    "AT" ∷ "BE" ∷ "BG" ∷ "CY" ∷ "CZ" ∷ "DE" ∷ "DK" ∷ "EE" ∷ "ES" ∷ "FI" ∷ "FR" ∷ "GR" ∷ "HR" ∷ "HU"
    ∷ "IE" ∷ "IT" ∷ "LT" ∷ "LU" ∷ "LV" ∷ "MT" ∷ "NL" ∷ "PL" ∷ "PT" ∷ "RO" ∷ "SE" ∷ "SI" ∷ "SK"
    ∷ "IS" ∷ "LI" ∷ "NO" ∷ "CH" ∷ "UK" ∷ "CA" ∷ "JP" ∷ "NZ" ∷ "AR" ∷ "UY" ∷ "IL" ∷ "KR" ∷ "AD" ∷ []

-- a block if there are countries outside
unfoldable pub outside : (List String → Block) → List String → Option Block
outside block [] = none
outside block (country ∷ countries) = some (block (country ∷ countries))

unfoldable pub hipaa_outbound : Dict Scalar → Peer → Option Block
unfolding holds outside difference
hipaa_outbound d peer =
    if holds "phi_flag" d
    then if holds "baa_confirmed" peer.capabilities
      then outside unsafe_countries (difference peer.regions hipaa_safe_countries)
      else some no_baa
    else none

unfoldable pub gdpr_outbound : Dict Scalar → Peer → Option Block
unfolding holds outside difference
gdpr_outbound d peer =
    if not (holds "is_personal" d)
    then none
    else if not (holds "gdpr_dpa_confirmed" peer.capabilities)
    then some no_dpa
    else if not (holds "right_to_erasure_supported" peer.capabilities)
    then some no_erasure
    else if holds "gdpr_transfer_mechanism" peer.capabilities
    then none
    else outside third_countries (difference peer.regions eea_and_adequate)

unfoldable pub ferpa_outbound : Dict Scalar → Peer → Option Block
unfolding holds has_type
ferpa_outbound d peer =
    if not (holds "ferpa_flag" d || has_type "educational_record" d)
    then none
    else if holds "ferpa_agreement" peer.capabilities
        || holds "ferpa_legitimate_interest" peer.capabilities
    then none
    else some no_educational_agreement

unfoldable pub glba_outbound : Dict Scalar → Peer → Option Block
unfolding holds has_type
glba_outbound d peer =
    if not (holds "glba_flag" d || has_type "financial_record" d)
    then none
    else if not (holds "glba_safeguards" peer.capabilities)
    then some no_safeguards
    else if holds "is_nppi" d && not (holds "glba_optout_supported" peer.capabilities)
    then some no_optout
    else none

-- a flag that the data has and a capability that the peer lacks
unfoldable pub unless : String → String → Block → Dict Scalar → Peer → Option Block
unfolding holds
unless flag capability block d peer =
    if holds flag d && not (holds capability peer.capabilities) then some block else none

unfoldable pub profile_outbound : Profile → Dict Scalar → Peer → Option Block
unfolding hipaa_outbound gdpr_outbound ferpa_outbound glba_outbound
profile_outbound hipaa = hipaa_outbound
profile_outbound gdpr = gdpr_outbound
profile_outbound ferpa = ferpa_outbound
profile_outbound glba = glba_outbound

unfoldable pub profile_inbound : Profile → Dict Scalar → Peer → Option Block
unfolding unless
profile_inbound hipaa = unless "phi_flag" "baa_confirmed" no_baa
profile_inbound gdpr = λ d peer. none
profile_inbound ferpa = unless "ferpa_flag" "ferpa_agreement" no_educational_agreement
profile_inbound glba = unless "glba_flag" "glba_safeguards" no_safeguards

-- `_PROFILE_REGISTRY.get(name)`
unfoldable pub profile_of : String → Option Profile
profile_of name =
    if str_eq name "HIPAA"
    then some hipaa
    else if str_eq name "GDPR"
    then some gdpr
    else if str_eq name "FERPA"
    then some ferpa
    else if str_eq name "GLBA"
    then some glba
    else none

abbrev pub add_profile : Option Profile → List Profile → List Profile
add_profile none profiles = profiles
add_profile (some p) profiles = p ∷ profiles

unfoldable pub load : (String → String) → List String → List Profile
unfolding profile_of
load upper [] = []
load upper (name ∷ names) = add_profile (profile_of (upper name)) (load upper names)

-- The first profile that blocks, and why.
unfoldable pub first_block : (Profile → Option Block) → List Profile → Option (Profile × Block)
first_block check [] = none
first_block check (p ∷ profiles) =
    let rest = first_block check profiles in
    elim (check p) [ none ↦ rest | some block ↦ some (p, block) ]

unfoldable pub check_outbound : List Profile → Dict Scalar → Peer → Option (Profile × Block)
unfolding first_block profile_outbound
check_outbound profiles d peer = first_block (λ p. profile_outbound p d peer) profiles

unfoldable pub check_inbound : List Profile → Dict Scalar → Peer → Option (Profile × Block)
unfolding first_block profile_inbound
check_inbound profiles d peer = first_block (λ p. profile_inbound p d peer) profiles
