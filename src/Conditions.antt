-- ===== src/Conditions.antt =====
-- internal/conditions/conditions.go: the list of conditions of a status. `now` is the time that
-- SetCondition reads from the clock.
pub mod Laws
pub mod Ready
mod Tests
use score_orchestrator.Base.{
  ℕ, String, Bool, true, false, ◌&&◌, not, ◌||◌, Option, none, some, List, [], ◌∷◌, ◌==◌,
  if◌then◌else◌,
}
use score_orchestrator.Api.Meta.{ConditionStatus, is_true, is_false, is_unknown, Condition}

-- condition types
abbrev pub ready : String
ready = "Ready"

abbrev pub claims_ready : String
claims_ready = "ClaimsReady"

abbrev pub runtime_ready : String
runtime_ready = "RuntimeReady"

abbrev pub inputs_valid : String
inputs_valid = "InputsValid"

-- a.Status == b.Status
abbrev pub same_status : ConditionStatus → ConditionStatus → Bool
same_status is_true is_true = true
same_status is_false is_false = true
same_status is_unknown is_unknown = true
same_status _ _ = false

-- One round of the loop, at a condition of the type that is set.
unfoldable pub refresh : ℕ → ConditionStatus → String → String → Condition → Condition
refresh now status reason message c =
    if not (same_status c.status status) || not (c.reason == reason)
    then record c { status = status; reason = reason; message = message; time = now }
    else record c { message = message }

unfoldable pub set_condition :
    ℕ → String → ConditionStatus → String → String → List Condition → List Condition
set_condition now type status reason message [] =
    record { type = type; status = status; reason = reason; message = message; time = now } ∷ []
set_condition now type status reason message (c ∷ cs) =
    if c.type == type
    then refresh now status reason message c ∷ cs
    else c ∷ set_condition now type status reason message cs

unfoldable pub is_condition_true : List Condition → String → Bool
is_condition_true [] type = false
is_condition_true (c ∷ cs) type =
    if c.type == type then same_status c.status is_true else is_condition_true cs type

unfoldable pub get_condition : List Condition → String → Option Condition
get_condition [] type = none
get_condition (c ∷ cs) type = if c.type == type then some c else get_condition cs type

pub record ConditionUpdate : Type 0 where
  pub type : String
  pub status : ConditionStatus
  pub reason : String
  pub message : String

abbrev pub for_projection_error : String → List ConditionUpdate
for_projection_error message =
    record {
      type = runtime_ready;
      status = is_false;
      reason = "ProjectionError";
      message = message;
    }
    ∷ []

unfoldable pub apply_condition_updates : ℕ → List ConditionUpdate → List Condition → List Condition
apply_condition_updates now [] cs = cs
apply_condition_updates now (u ∷ us) cs =
    apply_condition_updates now us (set_condition now u.type u.status u.reason u.message cs)

-- The branch of ComputeReadyCondition for one part that is not true: the part's own reason if it is
-- False, the given ones if it is missing or Unknown.
unfoldable pub not_ready :
    Option Condition → String → String → String → ConditionStatus × String × String
not_ready none failed reason pending = (is_false, reason, pending)
not_ready (some c) failed reason pending =
    if same_status c.status is_false
    then (is_false, c.reason, failed)
    else (is_false, reason, pending)

unfoldable pub compute_ready_condition : List Condition → ConditionStatus × String × String
compute_ready_condition cs =
    if not (is_condition_true cs inputs_valid)
    then not_ready (get_condition cs inputs_valid) "Workload specification validation failed"
        "SpecInvalid" "Workload specification validation pending"
    else if not (is_condition_true cs claims_ready)
    then not_ready (get_condition cs claims_ready) "Resource claims are not ready" "ClaimPending"
        "Resource claims are being provisioned"
    else if not (is_condition_true cs runtime_ready)
    then not_ready (get_condition cs runtime_ready) "Runtime provisioning failed"
        "RuntimeProvisioning" "Runtime is being provisioned"
    else (is_true, "Succeeded", "Workload is ready and operational")
