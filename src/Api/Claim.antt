-- ===== src/Api/Claim.antt =====
-- api/v1b1/resourceclaim_types.go
use score_orchestrator.Base.{ℕ, String, Bool, Option}
use score_orchestrator.Base.Dict.{Dict}
use score_orchestrator.Api.Meta.{ObjectMeta, Raw}

pub record NamespacedName : Type 0 where
  pub name : String
  pub namespace : String

-- The CRD admits no other policy.
pub data DeprovisionPolicy : Type 0 where
  delete retain orphan : DeprovisionPolicy

pub record ResourceClaimSpec : Type 0 where
  pub workload_ref : NamespacedName
  pub key : String
  pub type : String
  pub class : Option String
  pub id : Option String
  pub params : Option Raw
  pub deprovision_policy : Option DeprovisionPolicy

-- The CRD admits these four phases; `unset` is the empty string of a claim with no status yet.
pub data ClaimPhase : Type 0 where
  unset pending claiming bound failed : ClaimPhase

pub record LocalObjectReference : Type 0 where
  pub name : String

pub record CertificateOutput : Type 0 where
  pub secret_name : Option String
  pub contents : Option (Dict String)

pub record ResourceClaimOutputs : Type 0 where
  pub secret_ref : Option LocalObjectReference
  pub config_map_ref : Option LocalObjectReference
  pub uri : Option String
  pub image : Option String
  pub cert : Option CertificateOutput

pub record ResourceClaimStatus : Type 0 where
  pub phase : ClaimPhase
  pub reason : String
  pub message : String
  pub outputs : Option ResourceClaimOutputs
  pub outputs_available : Bool
  pub observed_generation : ℕ
  pub last_transition_time : Option ℕ

pub record ResourceClaim : Type 0 where
  pub metadata : ObjectMeta
  pub open metadata use *
  pub spec : ResourceClaimSpec
  pub status : ResourceClaimStatus
