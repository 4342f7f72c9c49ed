-- ===== src/Selection/Quantity.antt =====
-- The quantities of internal/selection/selector.go: parseQuantity, validateQuantityConstraint and
-- calculateWorkloadResources. An int64 is its bit pattern, a number below 2 ^ 64; an error of
-- strconv is `none`.
pub mod Decimal
pub mod Range
pub mod Totals
use score_orchestrator.Base.{
  ℕ, zero, suc, ◌+◌, ◌-◌, ◌*◌, ◌/◌, ◌%◌, ◌^◌, String, Bool, true, false, not, ◌&&◌, ◌||◌, Option,
  none, some, List, [], ◌∷◌, ◌++◌, ltb, leb, eqb, if◌then◌else◌, is_empty,
}
use score_orchestrator.Base.Dict.{Dict, lookup}
use score_orchestrator.Base.Text.{Codes, codes, same_text, split}
use score_orchestrator.Api.Workload.{ContainerSpec, ResourceRequirements}
use score_orchestrator.Api.Config.{ResourceConstraints}

abbrev pub int64_mod : ℕ
int64_mod = 2 ^ 64

abbrev pub int64_half : ℕ
int64_half = 2 ^ 63

-- a < b on int64
abbrev pub int64_lt : ℕ → ℕ → Bool
int64_lt a b = ltb ((a + int64_half) % int64_mod) ((b + int64_half) % int64_mod)

-- The digits of strconv.ParseInt, with no bound yet.
unfoldable pub scan : Codes → ℕ → Option ℕ
scan [] n = some n
scan (c ∷ s) n = if leb b'0' c && leb c b'9' then scan s (n * 10 + (c - b'0')) else none

unfoldable pub parse_digits : Codes → Option ℕ
unfolding scan
parse_digits [] = none
parse_digits (c ∷ s) = scan (c ∷ s) 0

abbrev positive : Option ℕ → Option ℕ
positive none = none
positive (some n) = if ltb n int64_half then some n else none

abbrev negative : Option ℕ → Option ℕ
negative none = none
negative (some n) = if leb n int64_half then some ((int64_mod - n) % int64_mod) else none

-- strconv.ParseInt(s, 10, 64)
unfoldable pub parse_int : Codes → Option ℕ
unfolding parse_digits
parse_int [] = none
parse_int (c ∷ s) =
    if eqb c b'-'
    then negative (parse_digits s)
    else if eqb c b'+'
    then positive (parse_digits s)
    else positive (parse_digits (c ∷ s))

-- strings.HasSuffix with strings.TrimSuffix: what stands before the suffix, if it is there.
unfoldable pub strip_suffix : Codes → Codes → Option Codes
strip_suffix t [] = if same_text [] t then some [] else none
strip_suffix t (c ∷ s) =
    let shorter : Option Codes = elim (strip_suffix t s) [ none ↦ none | some r ↦ some (c ∷ r) ] in
    if same_text (c ∷ s) t then some [] else shorter

-- `val * 1024 * …` on int64, with the error passed on
scaled : ℕ → Option ℕ → Option ℕ
scaled k none = none
scaled k (some n) = some ((n * k) % int64_mod)

unfoldable pub parse_quantity : Codes → Option ℕ
unfolding parse_int strip_suffix scaled
parse_quantity s = if is_empty s then some 0 else elim (strip_suffix (codes "m") s) [
  | some value ↦ parse_int value
  | none ↦ elim (strip_suffix (codes "Mi") s) [
    | some value ↦ scaled (1024 * 1024) (parse_int value)
    | none ↦ elim (strip_suffix (codes "Gi") s) [
      | some value ↦ scaled (1024 * 1024 * 1024) (parse_int value)
      | none ↦ parse_int s
    ]
  ]
]

-- The digits of a number by fmt's %d. Twenty digits are enough below 10 ^ 20.
unfoldable pub emit : ℕ → ℕ → Codes → Codes
emit zero n out = out
emit (suc fuel) n out =
    let rest = emit fuel (n / 10) ((b'0' + n % 10) ∷ out) in
    if ltb n 10 then (b'0' + n % 10) ∷ out else rest

unfoldable pub format_int : ℕ → Codes
unfolding emit
format_int n = if ltb n int64_half then emit 20 n [] else b'-' ∷ emit 20 (int64_mod - n) []

-- The tests of one bound: an empty bound is not looked at.
above_minimum : ℕ → Codes → Bool
above_minimum actual [] = true
above_minimum actual (c ∷ s) = elim (parse_quantity (c ∷ s)) [
  | none ↦ false
  | some minimum ↦ not (int64_lt actual minimum)
]

below_maximum : ℕ → Codes → Bool
below_maximum actual [] = true
below_maximum actual (c ∷ s) = elim (parse_quantity (c ∷ s)) [
  | none ↦ false
  | some maximum ↦ not (int64_lt maximum actual)
]

in_range : Option ℕ → Codes → Codes → Bool
in_range none minimum maximum = false
in_range (some actual) minimum maximum =
    if above_minimum actual minimum then below_maximum actual maximum else false

-- The switch on the number of parts.
match_parts : Codes → Codes → List Codes → Bool
match_parts actual constraint (part ∷ []) = same_text actual constraint
match_parts actual constraint (minimum ∷ maximum ∷ []) =
    in_range (parse_quantity actual) minimum maximum
match_parts actual constraint _ = false

unfoldable pub validate_quantity_constraint : Codes → Codes → Bool
unfolding match_parts in_range above_minimum below_maximum
validate_quantity_constraint actual constraint =
    if is_empty constraint then true else match_parts actual constraint (split constraint b'-')

-- One `if str, exists := Requests[name]` of the loop: a quantity that does not parse adds nothing.
request : String → ContainerSpec → ℕ
request name c = elim c.resources [
  | none ↦ 0
  | some r ↦ elim (lookup name r.requests) [
    | none ↦ 0
    | some text ↦ elim (parse_quantity (codes text)) [ none ↦ 0 | some n ↦ n ]
  ]
]

-- The sum of one resource over the containers, in int64.
unfoldable pub total : String → ℕ → Dict ContainerSpec → ℕ
unfolding request
total name sum [] = sum
total name sum ((key, c) ∷ containers) = total name ((sum + request name c) % int64_mod) containers

unfoldable pub calculate_workload_resources : Dict ContainerSpec → Codes × Codes × Codes
unfolding total format_int
calculate_workload_resources containers = (
  format_int (total "cpu" 0 containers) ++ codes "m",
  format_int (total "memory" 0 containers),
  format_int (total "ephemeral-storage" 0 containers),
)

-- One constraint field: an empty one admits all.
admits : Codes → Codes → Bool
admits actual constraint =
    if is_empty constraint then true else validate_quantity_constraint actual constraint

unfoldable pub validate_resource_constraints : Dict ContainerSpec → ResourceConstraints → Bool
unfolding admits calculate_workload_resources validate_quantity_constraint
validate_resource_constraints containers limits =
    let (cpu, memory, storage) = calculate_workload_resources containers in
    if not (admits cpu (codes limits.cpu))
    then false
    else if not (admits memory (codes limits.memory))
    then false
    else admits storage (codes limits.storage)
