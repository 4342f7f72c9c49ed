-- ===== src/Provisioner/Reconcile.antt =====
-- Reconcile and handleDeletion of internal/controller/provisioner_controller.go, for one claim. The
-- API server is a parameter: a client of one object over the store.
use score_orchestrator.Base.{
  ℕ, String, true, false, not, Option, none, some, List, [], ◌++◌, is_some, if◌then◌else◌,
}
use score_orchestrator.Base.Result.{Result, ok, err}
use score_orchestrator.Api.Claim.{ResourceClaim}
use score_orchestrator.Provisioner.Lifecycle.{
  set_pending, has_finalizer, add_finalizer, remove_finalizer, is_being_deleted, should_reconcile,
  get_reconcile_result, CtrlResult, done,
}
use score_orchestrator.Provisioner.Strategy.{Strategy, Selector, get_strategy}
use score_orchestrator.Provisioner.Phases.{
  Event, normal, warning, event, Outcome, handle_provisioning,
}

pub data ApiError : Type 0 where
  not_found : ApiError
  refused : String → ApiError

-- client.Client at the key of the claim: Get, Update, and Update of the status. The two updates give
-- back the object that the server answers with, into which the client decodes it.
pub record Client (Store : Type 0) : Type 0 where
  pub get : Store → Result ApiError ResourceClaim
  pub update : Store → ResourceClaim → Store × Result ApiError ResourceClaim
  pub update_status : Store → ResourceClaim → Store × Result ApiError ResourceClaim

pub data Failure : Type 0 where
  api : ApiError → Failure
  provisioning : String → Failure

pub record Reconciled (Store : Type 0) : Type 0 where
  pub store : Store
  pub events : List Event
  pub result : CtrlResult
  pub error : Option Failure

module _ {Store : Type 0} where
  abbrev pub ended : Store → List Event → Option Failure → Reconciled Store
  ended store events error = record { store = store; events = events; result = done; error = error }

  -- The end of handleDeletion, by the answer to the update.
  unfoldable pub released : Store × Result ApiError ResourceClaim → Reconciled Store
  released (store, err e) =
      ended store (event normal "Deprovisioning" "Starting resource cleanup") (some (api e))
  released (store, ok claim) =
      ended store
        (event normal "Deprovisioning" "Starting resource cleanup"
          ++ event normal "Deprovisioned" "Resource cleanup completed")
        none

  unfoldable pub release : Client Store → Store → ResourceClaim → Reconciled Store
  unfolding released
  release client store claim = released (client.update store (remove_finalizer claim))

  -- What follows Deprovision, by its error.
  unfoldable pub after_deprovision :
      Client Store → ResourceClaim → Store × Option String → Reconciled Store
  unfolding release
  after_deprovision client claim (store, none) = release client store claim
  after_deprovision client claim (store, some e) =
      ended store
        (event normal "Deprovisioning" "Starting resource cleanup"
          ++ event warning "DeprovisionFailed" e)
        (some (provisioning e))

  unfoldable pub deprovision_by :
      Client Store → Store → ResourceClaim → Option (Strategy Store) → Reconciled Store
  unfolding after_deprovision
  deprovision_by client store claim none = release client store claim
  deprovision_by client store claim (some strategy) =
      after_deprovision client claim (strategy.deprovision store claim)

  unfoldable pub handle_deletion :
      Client Store → Selector Store → Store → ResourceClaim → Reconciled Store
  unfolding deprovision_by
  handle_deletion client selector store claim =
      if not (has_finalizer claim)
      then ended store [] none
      else deprovision_by client store claim (get_strategy claim.spec.type selector)

  -- The initial phase, by the answer to its status update.
  unfoldable pub initialized : Store × Result ApiError ResourceClaim → Reconciled Store
  initialized (store, err e) = ended store [] (some (api e))
  initialized (store, ok claim) = record {
    store = store;
    events = [];
    result = get_reconcile_result claim false;
    error = none;
  }

  -- What follows the update that adds the finalizer, by its answer.
  unfoldable pub after_finalizer :
      ℕ → Client Store → Store × Result ApiError ResourceClaim → Reconciled Store
  unfolding initialized
  after_finalizer now client (store, err e) = ended store [] (some (api e))
  after_finalizer now client (store, ok claim) = initialized (
      client.update_status store
        (set_pending now "ClaimPending" "Initializing resource claim" claim))

  -- What follows handleProvisioning, by the answer to the status update.
  unfoldable pub recorded : Outcome Store → Store × Result ApiError ResourceClaim → Reconciled Store
  recorded o (store, ok claim) = record {
    store = store;
    events = o.events;
    result = get_reconcile_result claim (is_some o.error);
    error = elim o.error [ none ↦ none | some e ↦ some (provisioning e) ];
  }
  recorded o (store, err x) = record {
    store = store;
    events = o.events;
    result = get_reconcile_result o.claim true;
    error = elim o.error [ none ↦ some (api x) | some e ↦ some (provisioning e) ];
  }

  unfoldable pub record_outcome : Client Store → Outcome Store → Reconciled Store
  unfolding recorded
  record_outcome client o = recorded o (client.update_status o.store o.claim)

  unfoldable pub reconcile_claim :
      ℕ → Client Store → Selector Store → Store → ResourceClaim → Reconciled Store
  unfolding handle_deletion after_finalizer record_outcome
  reconcile_claim now client selector store claim =
      if not (should_reconcile claim)
      then ended store [] none
      else if is_being_deleted claim
      then handle_deletion client selector store claim
      else if not (has_finalizer claim)
      then after_finalizer now client (client.update store (add_finalizer claim))
      else record_outcome client (handle_provisioning now selector store claim)

  unfoldable pub reconcile_answer :
      ℕ → Client Store → Selector Store → Store → Result ApiError ResourceClaim → Reconciled Store
  unfolding reconcile_claim
  reconcile_answer now client selector store (err not_found) = ended store [] none
  reconcile_answer now client selector store (err (refused e)) =
      ended store [] (some (api (refused e)))
  reconcile_answer now client selector store (ok claim) =
      reconcile_claim now client selector store claim

  unfoldable pub reconcile : ℕ → Client Store → Selector Store → Store → Reconciled Store
  unfolding reconcile_answer
  reconcile now client selector store =
      reconcile_answer now client selector store (client.get store)
