-- ===== src/Conditions/Tests.antt =====
-- Runs of the condition list, and its theorems at concrete inputs.
use score_orchestrator.Base.{◌≡◌, refl, ◌≢◌, ◌↔◌, inr, some, List, [], ◌∷◌, arith, eq_iff}
use score_orchestrator.Api.Meta.{is_true, is_false, is_unknown, Condition}
use score_orchestrator.Conditions.{
  inputs_valid, claims_ready, runtime_ready, set_condition, get_condition, is_condition_true,
  refresh, not_ready, ConditionUpdate, apply_condition_updates, compute_ready_condition,
}
use score_orchestrator.Conditions.Laws.{
  HasUniqueTypes, shown, set_condition-HasUniqueTypes, apply_condition_updates_lem,
}
use score_orchestrator.Conditions.Ready.{
  Holds, compute_ready_condition_iff, blamed, ready_parts, compute_ready_condition-blamed,
  set_condition-not_ready,
}

abbrev valid_at_3 : Condition
valid_at_3 = record {
  type = inputs_valid;
  status = is_true;
  reason = "Succeeded";
  message = "ok";
  time = 3;
}

abbrev pending_at_4 : Condition
pending_at_4 = record {
  type = claims_ready;
  status = is_false;
  reason = "ClaimPending";
  message = "wait";
  time = 4;
}

abbrev conditions : List Condition
conditions = valid_at_3 ∷ pending_at_4 ∷ []

-- A new message alone keeps the transition time.
message_only :
    set_condition 9 claims_ready is_false "ClaimPending" "still" conditions
    ≡ valid_at_3 ∷ record pending_at_4 { message = "still" } ∷ []
unfolding set_condition refresh
message_only = refl

blames_claims :
    compute_ready_condition conditions ≡ (is_false, "ClaimPending", "Resource claims are not ready")
unfolding compute_ready_condition is_condition_true get_condition not_ready
blames_claims = refl

claims_ne_inputs : claims_ready ≢ inputs_valid
claims_ne_inputs = ground (arith, eq_iff claims_ready inputs_valid)

set_condition-HasUniqueTypes_example :
    HasUniqueTypes (set_condition 9 runtime_ready is_true "Succeeded" "up" conditions)
set_condition-HasUniqueTypes_example =
    set_condition-HasUniqueTypes 9 runtime_ready is_true "Succeeded" "up" conditions
      ((claims_ne_inputs, tt), (tt, tt))

abbrev updates : List ConditionUpdate
updates =
    record { type = claims_ready; status = is_true; reason = "Succeeded"; message = "a" }
    ∷ record { type = claims_ready; status = is_false; reason = "ClaimFailed"; message = "b" }
    ∷ []

apply_condition_updates_example :
    shown (get_condition (apply_condition_updates 9 updates conditions) claims_ready)
    ≡ some (is_false, "ClaimFailed", "b")
apply_condition_updates_example = apply_condition_updates_lem 9 updates conditions claims_ready

compute_ready_condition_iff_example : ((compute_ready_condition conditions).0 ≡ is_true) ↔ (
    Holds conditions inputs_valid × Holds conditions claims_ready × Holds conditions runtime_ready)
compute_ready_condition_iff_example = compute_ready_condition_iff conditions

compute_ready_condition-blamed_example :
    ((compute_ready_condition conditions).1 ≡ blamed conditions ready_parts)
    × ((compute_ready_condition conditions).0 ≢ is_unknown)
compute_ready_condition-blamed_example = compute_ready_condition-blamed conditions

unknown-ne-true : ◌≢◌ is_unknown is_true
unknown-ne-true = cc

set_condition-not_ready_example :
    (compute_ready_condition (set_condition 9 runtime_ready is_unknown "X" "?" conditions)).0
    ≡ is_false
set_condition-not_ready_example =
    set_condition-not_ready 9 runtime_ready is_unknown "X" "?" conditions (inr (inr refl))
      unknown-ne-true
