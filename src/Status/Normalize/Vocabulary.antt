-- ===== src/Status/Normalize/Vocabulary.antt =====
-- Which conditions are kept, and the words that they use.
use score_orchestrator.Base.{
  String, Bool, true, false, ◌≡◌, refl, sym, ◌⊎◌, inl, inr, none, some, List, [], ◌∷◌, ◌==◌, arith,
  In, Bool-cases, string_ne, eq_iff, all, not,
}
use score_orchestrator.Base.Dict.{Dict, lookup}
use score_orchestrator.Api.Meta.{Condition}
use score_orchestrator.Conditions.{ready, claims_ready, runtime_ready, inputs_valid}
use score_orchestrator.Status.Normalize.{
  or_empty, normalize_reason, normalize_condition_type, normalize_condition, normalize_conditions,
}

-- A word of the workload, with the words of the runtimes that mean it.
abbrev pub Groups : Type 0
Groups = List (String × List String)

abbrev pub reason_groups : Groups
reason_groups =
    ("Succeeded", "Ready" ∷ "Available" ∷ "Deployed" ∷ "Active" ∷ "Healthy" ∷ "Running" ∷ [])
    ∷ (
      "SpecInvalid",
      "InvalidSpec" ∷ "ValidationError" ∷ "SchemaViolation" ∷ "InvalidConfiguration" ∷ [],
    )
    ∷ (
      "PolicyViolation",
      "PolicyViolation" ∷ "SecurityViolation" ∷ "ComplianceFailure" ∷ "AdmissionDenied" ∷ [],
    )
    ∷ ("BindingPending", "Pending" ∷ "Waiting" ∷ "Provisioning" ∷ [])
    ∷ ("BindingFailed", "BindingFailed" ∷ "ProvisioningFailed" ∷ "ResourceUnavailable" ∷ [])
    ∷ ("ProjectionError", "ProjectionError" ∷ "TransformationError" ∷ "MappingError" ∷ [])
    ∷ ("RuntimeSelecting", "Selecting" ∷ [])
    ∷ ("RuntimeProvisioning", "RuntimeProvisioning" ∷ [])
    ∷ ("RuntimeDegraded", "Degraded" ∷ "Unavailable" ∷ "Failed" ∷ [])
    ∷ ("QuotaExceeded", "QuotaExceeded" ∷ "ResourceQuotaExceeded" ∷ "LimitExceeded" ∷ [])
    ∷ ("PermissionDenied", "PermissionDenied" ∷ "Forbidden" ∷ "Unauthorized" ∷ "AccessDenied" ∷ [])
    ∷ (
      "NetworkUnavailable",
      "NetworkUnavailable" ∷ "NetworkError" ∷ "ConnectivityError" ∷ "DNSError" ∷ [],
    )
    ∷ []

abbrev pub type_groups : Groups
type_groups =
    (ready, "Ready" ∷ [])
    ∷ (claims_ready, "ClaimsReady" ∷ [])
    ∷ (runtime_ready, "RuntimeReady" ∷ [])
    ∷ (inputs_valid, "InputsValid" ∷ [])
    ∷ (
      runtime_ready,
      "Available" ∷ "Deployed" ∷ "Active" ∷ "Healthy" ∷ "Running" ∷ "Progressing" ∷ [],
    )
    ∷ (inputs_valid, "Valid" ∷ "Validated" ∷ "SpecValid" ∷ [])
    ∷ (claims_ready, "Bound" ∷ "Provisioned" ∷ "ResourceReady" ∷ [])
    ∷ []

-- A word of a runtime means a word of the workload: it stands in a group of it.
abbrev pub Means : Groups → String → String → Type 0
Means [] said word = ⊥
Means ((w, saids) ∷ groups) said word = ((w ≡ word) × In said saids) ⊎ Means groups said word

abbrev keyed : String → List String → Dict String → Dict String
keyed word [] rest = rest
keyed word (k ∷ ks) rest = (k, word) ∷ keyed word ks rest

abbrev flattened : Groups → Dict String
flattened [] = []
flattened ((word, ks) ∷ groups) = keyed word ks (flattened groups)

-- No group is that of the empty word.
abbrev filled : Groups → Bool
filled groups = all (λ (word, ks). not (word == "")) groups

lookup-keyed :
    (k word : String) (ks : List String) (rest : Dict String)
    → (In k ks × (lookup k (keyed word ks rest) ≡ some word))
      ⊎ ((¬ In k ks) × (lookup k (keyed word ks rest) ≡ lookup k rest))
unfolding lookup
lookup-keyed k word [] rest = inr ((λ h. elim h [ ]), refl)
lookup-keyed k word (j ∷ ks) rest = elim (Bool-cases (j == k)) [
  | inl same ↦ inl (inl (sym ((eq_iff j k).0 same)), rw same refl)
  | inr differ ↦ elim (lookup-keyed k word ks rest) [
    | inl (m, e) ↦ inl (inr m, rw differ e)
    | inr (n, e) ↦
        inr (λ h. elim h [ inl q ↦ string_ne j k differ (sym q) | inr m ↦ n m ], rw differ e)
  ]
]

-- A map gives the word of a group, or there is no group for the key.
mapped_lem :
    (groups : Groups) (k : String)
    → filled groups ≡ true
    → (Means groups k (or_empty (lookup k (flattened groups)))
        × ((or_empty (lookup k (flattened groups)) == "") ≡ false))
      ⊎ (((or_empty (lookup k (flattened groups)) == "") ≡ true)
          × ((word : String) → ¬ Means groups k word))
unfolding lookup
mapped_lem [] k h = inr (refl, λ word m. elim m [ ])
mapped_lem ((w, ks) ∷ groups) k h =
    let here : (w == "") ≡ false = ground arith in
    let others : filled groups ≡ true = ground arith in
    elim (lookup-keyed k w ks (flattened groups)) [
      | inl (m, e) ↦ rw e (inl (inl (refl, m), here))
      | inr (n, e) ↦ elim (mapped_lem groups k others) [
        | inl (m, f) ↦ rw e (inl (inr m, f))
        | inr (f, missing) ↦
            rw e (inr (f, λ word m. elim m [ inl (_, i) ↦ n i | inr i ↦ missing word i ]))
      ]
    ]

-- A condition of the runtime in the words of the workload: its type and reason are of the groups that
-- have those of the runtime, and the rest is as it was.
abbrev pub Renders : Condition → Condition → Type 0
Renders c d =
    Means type_groups c.type d.type
    × Means reason_groups c.reason d.reason
    × (d.status ≡ c.status)
    × (d.message ≡ c.message)
    × (d.time ≡ c.time)

-- A condition whose type and reason both stand in a group.
abbrev pub IsMapped : Condition → Type 0
IsMapped c =
    ((word : String) × Means type_groups c.type word)
    × ((word : String) × Means reason_groups c.reason word)

reason_lem :
    (said : String)
    → (Means reason_groups said (normalize_reason said) × ((normalize_reason said == "") ≡ false))
      ⊎ (((normalize_reason said == "") ≡ true)
          × ((word : String) → ¬ Means reason_groups said word))
unfolding normalize_reason
reason_lem said = mapped_lem reason_groups said refl

type_lem :
    (said : String)
    → (Means type_groups said (normalize_condition_type said)
        × ((normalize_condition_type said == "") ≡ false))
      ⊎ (((normalize_condition_type said == "") ≡ true)
          × ((word : String) → ¬ Means type_groups said word))
unfolding normalize_condition_type
type_lem said = mapped_lem type_groups said refl

-- One condition is kept exactly if it is mapped.
normalize_condition_lem :
    (c : Condition)
    → ((normalize_condition c ≡ none) × ¬ IsMapped c)
      ⊎ ((d : Condition) × (normalize_condition c ≡ some d) × Renders c d)
unfolding normalize_condition
normalize_condition_lem c = elim (reason_lem c.reason) [
  | inr (dropped, missing) ↦ inl (rw dropped refl, λ (t, (word, m)). missing word m)
  | inl (reason, kept) ↦ elim (type_lem c.type) [
    | inr (dropped, missing) ↦ inl (rw (kept, dropped) refl, λ ((word, m), r). missing word m)
    | inl (type, kept') ↦ inr (_, rw (kept, kept') refl, (type, reason, refl, refl, refl))
  ]
]

-- A list renders another one, condition by condition and in its order: each that is mapped is
-- rendered, and each that is not is left out.
pub data Describes : List Condition → List Condition → Type 0 where
  nothing : Describes [] []
  renders :
      {c d : Condition} {cs ds : List Condition}
      → Renders c d
      → Describes ds cs
      → Describes (d ∷ ds) (c ∷ cs)
  drops :
      {c : Condition} {cs ds : List Condition}
      → ¬ IsMapped c
      → Describes ds cs
      → Describes ds (c ∷ cs)

-- The normalized conditions are, in their order, those of the runtime whose type and reason stand in
-- the listed groups. Each has the words of these groups (Succeeded for Ready, Available, Deployed,
-- Active, Healthy and Running, and so on) as type and reason, and its own status, message and time.
pub normalize_conditions_lem : (cs : List Condition) → Describes (normalize_conditions cs) cs
unfolding normalize_conditions
normalize_conditions_lem [] = nothing
normalize_conditions_lem (c ∷ cs) =
    let rest = normalize_conditions_lem cs in
    elim (normalize_condition_lem c) [
      | inl (gone, unmapped) ↦ rw gone (drops unmapped rest)
      | inr (d, kept, words) ↦ rw kept (renders words rest)
    ]
