-- ===== src/Status/Aggregate.antt =====
-- The claims of a workload are ready when all of them are bound with outputs.
use score_orchestrator.Base.{
  ℕ, suc, ◌+◌, ◌≤◌, String, Bool, true, false, ◌≡◌, refl, sym, ◌∙◌, ap, ◌↔◌, inl, inr, List, [],
  ◌∷◌, arith, any, all, keep, length, All, Bool-cases, if◌then◌else◌, eqb, ltb,
}
use score_orchestrator.Api.Meta.{is_true}
use score_orchestrator.Api.Claim.{
  ResourceClaim, ClaimPhase, unset, pending, claiming, bound, failed,
}
use score_orchestrator.Api.Workload.{Workload}
use score_orchestrator.Conditions.{claims_ready, get_condition, set_condition}
use score_orchestrator.Base.{some, ◌==◌}
use score_orchestrator.Api.Meta.{Condition}
use score_orchestrator.Conditions.Laws.{set_condition_lem}
use score_orchestrator.Conditions.Ready.{Holds}
use score_orchestrator.Status.{
  count, count_claims, readiness, summaries, aggregate_claim_statuses, status_of,
  update_workload_status_from_aggregation,
}

abbrev pub is_bound : ResourceClaim → Bool
is_bound c = elim c.status.phase [ bound ↦ c.status.outputs_available | _ ↦ false ]

abbrev pub is_failed : ResourceClaim → Bool
is_failed c = elim c.status.phase [ failed ↦ true | _ ↦ false ]

-- The verdict with no counters.
abbrev pub verdict : List ResourceClaim → Bool × String
verdict claims =
    if any is_failed claims
    then (false, "ClaimFailed")
    else if all is_bound claims
    then (true, "Succeeded")
    else (false, "ClaimPending")

-- How many there are of each.
abbrev counts : List ResourceClaim → ℕ × ℕ
counts claims = (length (keep is_bound claims), length (keep is_failed claims))

count_lem :
    (c : ResourceClaim) (b f : ℕ)
    → count c.status.phase c.status.outputs_available (b, f)
      ≡ ((if is_bound c then suc b else b), (if is_failed c then suc f else f))
unfolding count
count_lem c b f = by_phase c.status.phase c.status.outputs_available
  where
    by_phase :
        (p : ClaimPhase) (o : Bool)
        → count p o (b, f) ≡ (
          (if (elim p [ bound ↦ o | _ ↦ false ]) then suc b else b),
          (if (elim p [ failed ↦ true | _ ↦ false ]) then suc f else f),
        )
    by_phase unset o = refl
    by_phase pending o = refl
    by_phase claiming o = refl
    by_phase bound true = refl
    by_phase bound false = refl
    by_phase failed o = refl

count_claims_lem :
    (cs : List ResourceClaim) (b f : ℕ)
    → count_claims cs (b, f) ≡ (b + (counts cs).0, f + (counts cs).1)
unfolding count_claims
count_claims_lem [] b f = ground arith
count_claims_lem (c ∷ cs) b f = elim (Bool-cases (is_bound c)) [
  | inl bounds ↦ elim (Bool-cases (is_failed c)) [
    | inl fails ↦
        rw (count_lem c b f, bounds, fails) (count_claims_lem cs (suc b) (suc f) ∙ ground arith)
    | inr works ↦ rw (count_lem c b f, bounds, works) (count_claims_lem cs (suc b) f ∙ ground arith)
  ]
  | inr waits ↦ elim (Bool-cases (is_failed c)) [
    | inl fails ↦ rw (count_lem c b f, waits, fails) (count_claims_lem cs b (suc f) ∙ ground arith)
    | inr works ↦ rw (count_lem c b f, waits, works) (count_claims_lem cs b f)
  ]
]

module _ (test : ResourceClaim → Bool) where
  length-keep_le : (cs : List ResourceClaim) → length (keep test cs) ≤ length cs
  length-keep_le [] = omega arith
  length-keep_le (c ∷ cs) = ground (arith, length-keep_le cs)

  -- Some pass exactly when their number is not zero, all when it is the length.
  any-eq_count : (cs : List ResourceClaim) → ltb 0 (length (keep test cs)) ≡ any test cs
  any-eq_count [] = refl
  any-eq_count (c ∷ cs) = ground (arith, any-eq_count cs)

  all-eq_count : (cs : List ResourceClaim) → eqb (length (keep test cs)) (length cs) ≡ all test cs
  all-eq_count [] = refl
  all-eq_count (c ∷ cs) = ground (arith, all-eq_count cs, length-keep_le cs)

  all_iff : (cs : List ResourceClaim) → (all test cs ≡ true) ↔ All (λ c. test c ≡ true) cs
  all_iff [] = ((λ e. tt), (λ h. refl))
  all_iff (c ∷ cs) =
      let ih = all_iff cs in
      (λ e. (ground arith, ih.0 (ground arith)), λ (h, hs). let rest = ih.1 hs in ground arith)

readiness_lem :
    (cs : List ResourceClaim)
    → ((readiness (count_claims cs (0, 0)) (length cs)).0 ≡ (verdict cs).0)
      × ((readiness (count_claims cs (0, 0)) (length cs)).1 ≡ (verdict cs).1)
unfolding readiness
readiness_lem cs =
    rw (count_claims_lem cs 0 0)
      (ground (arith, any-eq_count is_failed cs, all-eq_count is_bound cs))

-- The aggregation finds the claims failed if one of them is, else ready if each of them is bound
-- and has its outputs, else pending; its summaries are those of the claims, in their order.
pub aggregate_claim_statuses_lem :
    (claims : List ResourceClaim)
    → ((aggregate_claim_statuses claims).ready ≡ (verdict claims).0)
      × ((aggregate_claim_statuses claims).reason ≡ (verdict claims).1)
      × ((aggregate_claim_statuses claims).claims ≡ summaries claims)
unfolding aggregate_claim_statuses
aggregate_claim_statuses_lem [] = (refl, refl, refl)
aggregate_claim_statuses_lem (c ∷ cs) = let (r, s) = readiness_lem (c ∷ cs) in (r, s, refl)

-- A claim that is bound and has its outputs.
abbrev pub IsUsable : ResourceClaim → Type 0
IsUsable c = (c.status.phase ≡ bound) × (c.status.outputs_available ≡ true)

is_bound_iff : (c : ResourceClaim) → (is_bound c ≡ true) ↔ IsUsable c
is_bound_iff c = by_phase c.status.phase c.status.outputs_available
  where
    by_phase :
        (p : ClaimPhase) (o : Bool)
        → ((elim p [ bound ↦ o | _ ↦ false ]) ≡ true) ↔ ((p ≡ bound) × (o ≡ true))
    by_phase p o = ground arith

not_both : (c : ResourceClaim) → is_bound c ≡ true → is_failed c ≡ false
not_both c = by_phase c.status.phase c.status.outputs_available
  where
    by_phase :
        (p : ClaimPhase) (o : Bool)
        → (elim p [ bound ↦ o | _ ↦ false ]) ≡ true
        → (elim p [ failed ↦ true | _ ↦ false ]) ≡ false
    by_phase p o h = ground arith

none_failed : (cs : List ResourceClaim) → all is_bound cs ≡ true → any is_failed cs ≡ false
none_failed [] h = refl
none_failed (c ∷ cs) h = ground (arith, not_both c, none_failed cs)

All-map_iff : (cs : List ResourceClaim) → All (λ c. is_bound c ≡ true) cs ↔ All (λ c. IsUsable c) cs
All-map_iff [] = ((λ h. h), (λ h. h))
All-map_iff (c ∷ cs) =
    let ih = All-map_iff cs in
    (λ (h, hs). ((is_bound_iff c).0 h, ih.0 hs), λ (h, hs). ((is_bound_iff c).1 h, ih.1 hs))

pub ready_iff :
    (claims : List ResourceClaim)
    → ((aggregate_claim_statuses claims).ready ≡ true) ↔ All (λ c. IsUsable c) claims
ready_iff claims =
    let found = (aggregate_claim_statuses_lem claims).0 in
    let (to, from) = all_iff is_bound claims in
    let (usable, bounds) = All-map_iff claims in
    (
      λ e. usable (to (let v = sym found ∙ e in ground arith)),
      λ h. found ∙ (let b = from (bounds h) in let n = none_failed claims b in ground arith),
    )

-- After the aggregation of its claims is written to a workload, ClaimsReady is True exactly when
-- every claim is bound with its outputs, every other condition is as it was, and the summaries are
-- those of the claims.
pub update_workload_status_lem :
    (now : ℕ) (claims : List ResourceClaim) (w : Workload)
    → let v = update_workload_status_from_aggregation now (aggregate_claim_statuses claims) w in
      (Holds v.status.conditions claims_ready ↔ All (λ c. IsUsable c) claims)
      × ((t : String)
          → (claims_ready == t) ≡ false
          → get_condition v.status.conditions t ≡ get_condition w.status.conditions t)
      × (v.status.claims ≡ summaries claims)
unfolding update_workload_status_from_aggregation
update_workload_status_lem now claims w =
    let agg = aggregate_claim_statuses claims in
    let (c, status, reason, message, time, reads) =
      set_condition_lem now claims_ready (status_of agg.ready) agg.reason agg.message
        w.status.conditions in
    let (to, from) = ready_iff claims in
    let at : get_condition
          (set_condition now claims_ready (status_of agg.ready) agg.reason agg.message
            w.status.conditions)
          claims_ready
        ≡ some c =
      reads claims_ready in
    (
      (
        λ (d, found, holds).
            to (let same = sym at ∙ found in by_status agg.ready c d status same holds),
        λ h. (c, at, status ∙ ap status_of (from h)),
      ),
      λ t other. reads t ∙ rw other refl,
      (aggregate_claim_statuses_lem claims).2,
    )
  where
    by_status :
        (b : Bool) (c d : Condition)
        → c.status ≡ status_of b
        → some c ≡ some d
        → d.status ≡ is_true
        → b ≡ true
    by_status b c d e same holds = ground arith
