-- ===== src/Api/Workload.antt =====
-- api/v1b1/workload_types.go
use score_orchestrator.Base.{String, Bool, Option, List}
use score_orchestrator.Base.Int.{ℤ}
use score_orchestrator.Base.Dict.{Dict}
use score_orchestrator.Api.Meta.{ObjectMeta, Condition, Raw}
use score_orchestrator.Api.Claim.{ClaimPhase}

pub record FileSourceSpec : Type 0 where
  pub uri : String

pub record FileSpec : Type 0 where
  pub target : String
  pub mode : Option String
  pub source : Option FileSourceSpec
  pub content : Option String
  pub binary_content : Option String

pub record HttpGetProbe : Type 0 where
  pub path : String
  pub port : ℤ
  pub headers : Dict String

pub record ExecProbe : Type 0 where
  pub command : List String

pub record ProbeSpec : Type 0 where
  pub http_get : Option HttpGetProbe
  pub exec : Option ExecProbe

pub record ResourceRequirements : Type 0 where
  pub limits : Dict String
  pub requests : Dict String

pub record ContainerSpec : Type 0 where
  pub image : String
  pub command : List String
  pub args : List String
  pub variables : Option (Dict String)
  pub files : List FileSpec
  pub liveness_probe : Option ProbeSpec
  pub readiness_probe : Option ProbeSpec
  pub resources : Option ResourceRequirements

pub record ServicePort : Type 0 where
  pub port : ℤ
  pub protocol : String
  pub target_port : Option ℤ

pub record ServiceSpec : Type 0 where
  pub ports : List ServicePort

pub record ResourceSpec : Type 0 where
  pub type : String
  pub class : Option String
  pub params : Option Raw

pub record WorkloadSpec : Type 0 where
  pub profile : Option String
  pub containers : Dict ContainerSpec
  pub service : Option ServiceSpec
  pub resources : Dict ResourceSpec

pub record ClaimSummary : Type 0 where
  pub key : String
  pub phase : ClaimPhase
  pub reason : String
  pub message : String
  pub outputs_available : Bool

pub record WorkloadStatus : Type 0 where
  pub endpoint : Option String
  pub conditions : List Condition
  pub claims : List ClaimSummary

pub record Workload : Type 0 where
  pub metadata : ObjectMeta
  pub open metadata use *
  pub spec : WorkloadSpec
  pub status : WorkloadStatus
