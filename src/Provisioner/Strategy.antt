-- ===== src/Provisioner/Strategy.antt =====
-- internal/provisioner/strategy/interface.go and selector.go. What a strategy does to the cluster is a
-- change of the store, whose type is a parameter. Secrets has the strategies of two types.
use score_orchestrator.Base.{
  String, Bool, Option, some, List, [], ◌∷◌, ◌≡◌, is_some, ◌==◌, if◌then◌else◌,
}
use score_orchestrator.Base.Dict.{Dict, lookup, insert, lookup-insert}
use score_orchestrator.Base.Result.{Result}
use score_orchestrator.Api.Claim.{ResourceClaim, ResourceClaimOutputs, ClaimPhase}

-- An error is its text. GetStatus reads only.
pub record Strategy (Store : Type 0) : Type 0 where
  pub type : String
  pub provision : Store → ResourceClaim → Store × Result String (Option ResourceClaimOutputs)
  pub deprovision : Store → ResourceClaim → Store × Option String
  pub get_status : Store → ResourceClaim → Result String (ClaimPhase × String × String)

-- The fields Config and Outputs are left out: nothing reads them.
pub record ProvisioningConfig : Type 0 where
  pub type : String
  pub strategy : String

pub record Selector (Store : Type 0) : Type 0 where
  pub strategies : Dict (Strategy Store)
  pub configs : Dict ProvisioningConfig

load_from : List ProvisioningConfig → Dict ProvisioningConfig → Dict ProvisioningConfig
load_from [] m = m
load_from (c ∷ cs) m = load_from cs (insert c.type c m)

module _ {Store : Type 0} where
  unfoldable pub register_strategy : Strategy Store → Selector Store → Selector Store
  register_strategy strategy s = record s {
    strategies = insert strategy.type strategy s.strategies;
  }

  unfoldable pub load_config : List ProvisioningConfig → Selector Store → Selector Store
  unfolding load_from
  load_config configs s = record s { configs = load_from configs [] }

  unfoldable pub get_strategy : String → Selector Store → Option (Strategy Store)
  get_strategy type s = lookup type s.strategies

  unfoldable pub get_config : String → Selector Store → Option ProvisioningConfig
  get_config type s = lookup type s.configs

  unfoldable pub is_supported : ResourceClaim → Selector Store → Bool
  is_supported claim s = is_some (lookup claim.spec.type s.strategies)

  -- A strategy that is registered serves its own type, in place of one that served it before, and
  -- the other types keep theirs.
  pub get_strategy-register_strategy :
      (type : String) (strategy : Strategy Store) (s : Selector Store)
      → get_strategy type (register_strategy strategy s)
        ≡ (if strategy.type == type then some strategy else get_strategy type s)
  unfolding get_strategy register_strategy
  get_strategy-register_strategy type strategy s =
      lookup-insert strategy.type type strategy s.strategies
