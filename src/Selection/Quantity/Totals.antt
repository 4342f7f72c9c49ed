-- ===== src/Selection/Quantity/Totals.antt =====
-- The totals do not depend on the order in which Go ranges over the containers.
use score_orchestrator.Base.{
  ℕ, ◌+◌, ◌%◌, ◌<◌, ◌≡◌, ◌∙◌, sym, ap, refl, String, [], ◌∷◌, ◌++◌, arith,
}
use mathlib.Core.List.{Perm, Permᴰ}
use mathlib.Core.Logic.{∥∥₁_elim}
use native.Mathlib.Nat.{ℕ_set}
use score_orchestrator.Base.Dict.{Dict}
use score_orchestrator.Base.Text.{codes}
use score_orchestrator.Api.Workload.{ContainerSpec}
use score_orchestrator.Api.Config.{ResourceConstraints}
use score_orchestrator.Selection.Quantity.{
  int64_mod, request, total, calculate_workload_resources, validate_resource_constraints,
  format_int,
}

-- The sum over the containers, with no bound.
sum_requests : String → Dict ContainerSpec → ℕ
sum_requests name [] = 0
sum_requests name ((key, c) ∷ containers) = request name c + sum_requests name containers

total-eq-sum :
    (name : String) (start : ℕ) (containers : Dict ContainerSpec)
    → start < int64_mod
    → total name start containers ≡ (start + sum_requests name containers) % int64_mod
unfolding sum_requests total
total-eq-sum name start [] h = omega arith
total-eq-sum name start ((key, c) ∷ containers) h =
    total-eq-sum name ((start + request name c) % int64_mod) containers (omega arith) ∙ omega arith

abbrev entry : String → String × ContainerSpec → ℕ
entry name e = request name e.1

sum_requests-cons :
    (name : String) (e : String × ContainerSpec) (containers : Dict ContainerSpec)
    → sum_requests name (e ∷ containers) ≡ entry name e + sum_requests name containers
unfolding sum_requests
sum_requests-cons name (key, c) containers = refl

sum_requests-perm :
    {containers others : Dict ContainerSpec} (name : String)
    → Permᴰ containers others
    → sum_requests name containers ≡ sum_requests name others
sum_requests-perm name Permᴰ.nil = refl
sum_requests-perm name (Permᴰ.cons {a} {b} {l₁} {l₂} e p) =
    let head = ap (entry name) e in
    let ih = sum_requests-perm name p in
    omega (arith, head, ih, sum_requests-cons name a l₁, sum_requests-cons name b l₂)
sum_requests-perm name (Permᴰ.swap {a} {b} {a'} {b'} {l} e f) =
    let p = ap (entry name) e in
    let q = ap (entry name) f in
    omega (
      arith,
      p,
      q,
      sum_requests-cons name a (b ∷ l),
      sum_requests-cons name b l,
      sum_requests-cons name a' (b' ∷ l),
      sum_requests-cons name b' l,
    )
sum_requests-perm name (Permᴰ.trans p q) = sum_requests-perm name p ∙ sum_requests-perm name q

total-perm :
    {containers others : Dict ContainerSpec} (name : String)
    → Perm containers others
    → total name 0 containers ≡ total name 0 others
total-perm {containers} {others} name perm = ∥∥₁_elim perm (ℕ_set _ _) λ p.
    total-eq-sum name 0 containers (omega arith)
    ∙ ap (λ (n : ℕ). (0 + n) % int64_mod) (sum_requests-perm name p)
    ∙ sym (total-eq-sum name 0 others (omega arith))

module _ (containers others : Dict ContainerSpec)
    (cpu : total "cpu" 0 containers ≡ total "cpu" 0 others)
    (memory : total "memory" 0 containers ≡ total "memory" 0 others)
    (storage : total "ephemeral-storage" 0 containers ≡ total "ephemeral-storage" 0 others) where
  same_resources : calculate_workload_resources containers ≡ calculate_workload_resources others
  unfolding calculate_workload_resources
  same_resources =
      λ i. (format_int (cpu i) ++ codes "m", format_int (memory i), format_int (storage i))

  same_verdict :
      (limits : ResourceConstraints)
      → validate_resource_constraints containers limits
        ≡ validate_resource_constraints others limits
  unfolding validate_resource_constraints
  same_verdict limits = rw (cpu, memory, storage)

-- The totals, and so whether the resource constraints of a backend hold, do not depend on the order
-- in which the containers come, though Go ranges over the map in any order and the sums wrap.
pub validate_resource_constraints-perm :
    (containers others : Dict ContainerSpec) (limits : ResourceConstraints)
    → Perm containers others
    → (calculate_workload_resources containers ≡ calculate_workload_resources others)
      × (validate_resource_constraints containers limits
          ≡ validate_resource_constraints others limits)
validate_resource_constraints-perm containers others limits p =
    let cpu = total-perm "cpu" p in
    let memory = total-perm "memory" p in
    let storage = total-perm "ephemeral-storage" p in
    (
      same_resources containers others cpu memory storage,
      same_verdict containers others cpu memory storage limits,
    )
