-- ===== src/Api/Meta.antt =====
-- What the program uses of the Kubernetes metadata, and the JSON documents that its types carry.
-- A map that is nil and an empty one are the same value here: the API server hands out neither a
-- label map nor an annotation map that is empty and not nil (both are `omitempty`).
use score_orchestrator.Base.{ℕ, String, Bool, Option, List}
use score_orchestrator.Base.Int.{ℤ}
use score_orchestrator.Base.Dict.{Dict}

pub data ConditionStatus : Type 0 where
  is_true is_false is_unknown : ConditionStatus

-- `time` is the LastTransitionTime.
pub record Condition : Type 0 where
  pub type : String
  pub status : ConditionStatus
  pub reason : String
  pub message : String
  pub time : ℕ

pub record OwnerReference : Type 0 where
  pub kind : String
  pub name : String
  pub uid : String
  pub controller : Bool
  pub block_owner_deletion : Bool

pub record ObjectMeta : Type 0 where
  pub name : String
  pub namespace : String
  pub uid : String
  pub generation : ℕ
  pub labels : Dict String
  pub annotations : Dict String
  pub finalizers : List String
  pub owner_references : List OwnerReference
  pub deletion_timestamp : Option ℕ

-- A JSON value. The program looks into no number that it did not write.
mutual
  pub data Json : Type 0 where
    null : Json
    bool : Bool → Json
    num : ℤ → Json
    str : String → Json
    arr : Items → Json
    obj : Fields → Json

  pub data Items : Type 0 where
    nil : Items
    cons : Json → Items → Items

  pub data Fields : Type 0 where
    end : Fields
    field : String → Json → Fields → Fields

-- The bytes of a RawExtension, by what json.Unmarshal makes of them.
pub data Raw : Type 0 where
  empty : Raw
  malformed : Raw
  json : Json → Raw
