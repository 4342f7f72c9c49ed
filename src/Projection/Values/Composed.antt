-- ===== src/Projection/Values/Composed.antt =====
-- What the composed values hold.

use score_orchestrator.Base.Dict.{Dict}
use mathlib.Core.Bool.{false≢true}
use score_orchestrator.Base.{
  String, Bool, ◌≡◌, refl, sym, ap, ◌∙◌, ◌≢◌, true, false, Option, none, some, List, [], ◌∷◌, ◌++◌,
  inl, inr, ◌⊎◌, arith, eq_refl, eq_iff, is_some, All,
}
use score_orchestrator.Base.Result.{ok}
use score_orchestrator.Api.Meta.{Json, null, str, obj, Fields, Raw, json}
use score_orchestrator.Api.Workload.{Workload}
use score_orchestrator.Api.Claim.{
  ResourceClaim, ResourceClaimOutputs, LocalObjectReference, CertificateOutput,
}
use score_orchestrator.Projection.Merge.{
  Value, leaf, tree, Entries, no_entry, entry, find, marshal, unmarshal_fields, merge_pass,
}
use score_orchestrator.Projection.Merge.Laws.{
  IsMap, IsMapValue, find-store, store-IsMap, value_at, or_else, merge_pass-precedence,
}
use score_orchestrator.Projection.Values.{
  store_opt, reference_value, text_value, data_value, cert_value, resource_outputs, add_outputs,
  read_outputs, collect_outputs, with_resources, defaults_map, normalize_workload, compose_values,
}

-- A claim that says that its outputs are available has them.
abbrev pub HasOutputs : ResourceClaim → Type 0
HasOutputs claim = claim.status.outputs_available ≡ true → is_some claim.status.outputs ≡ true

-- The defaults are absent, JSON null or a JSON object.
abbrev pub IsDefaults : Option Raw → Type 0
IsDefaults defaults =
    (defaults ≡ none)
    ⊎ ((defaults ≡ some (json null)) ⊎ ((fields : Fields) × (defaults ≡ some (json (obj fields)))))

IsDefaults-ok :
    (defaults : Option Raw)
    → IsDefaults defaults
    → (start : Entries) × (defaults_map defaults ≡ ok start)
unfolding defaults_map
IsDefaults-ok defaults (inl e) = (no_entry, ap defaults_map e)
IsDefaults-ok defaults (inr (inl e)) = (no_entry, ap defaults_map e)
IsDefaults-ok defaults (inr (inr (fields, e))) = (unmarshal_fields fields, ap defaults_map e)

abbrev OptIsMap : Option Value → Type 0
OptIsMap none = Unit
OptIsMap (some value) = IsMapValue value

store_opt-IsMap :
    (key : String) (value : Option Value) (entries : Entries)
    → OptIsMap value
    → IsMap entries
    → IsMap (store_opt key value entries)
unfolding store_opt
store_opt-IsMap key none entries v m = m
store_opt-IsMap key (some value) entries v m = store-IsMap key value entries v m

text_value-OptIsMap : (s : Option String) → OptIsMap (text_value s)
unfolding text_value IsMap
text_value-OptIsMap none = tt
text_value-OptIsMap (some s) = tt

reference_value-OptIsMap : (r : Option LocalObjectReference) → OptIsMap (reference_value r)
unfolding reference_value IsMap
reference_value-OptIsMap none = tt
reference_value-OptIsMap (some r) = store-IsMap "name" (leaf (str r.name)) no_entry tt tt

module _ (base64 : String → String) where
  data_value-OptIsMap : (c : Option (Dict String)) → OptIsMap (data_value base64 c)
  unfolding data_value IsMap
  data_value-OptIsMap none = tt
  data_value-OptIsMap (some c) = tt

  cert_value-OptIsMap : (c : Option CertificateOutput) → OptIsMap (cert_value base64 c)
  unfolding cert_value IsMap
  cert_value-OptIsMap none = tt
  cert_value-OptIsMap (some c) =
      store_opt-IsMap _ _ _ (data_value-OptIsMap c.contents)
        (store_opt-IsMap _ _ _ (text_value-OptIsMap c.secret_name) tt)

  resource_outputs-IsMap :
      (outputs : ResourceClaimOutputs) → IsMap (resource_outputs base64 outputs)
  unfolding resource_outputs IsMap
  resource_outputs-IsMap outputs = store_opt-IsMap _ _ _ (cert_value-OptIsMap outputs.cert) (
      store_opt-IsMap _ _ _ (text_value-OptIsMap outputs.image) (
        store_opt-IsMap _ _ _ (text_value-OptIsMap outputs.uri) (
          store_opt-IsMap _ _ _ (reference_value-OptIsMap outputs.config_map_ref)
            (store_opt-IsMap _ _ _ (reference_value-OptIsMap outputs.secret_ref) tt))))

  add_outputs-IsMap :
      (key : String) (outputs resources : Entries)
      → IsMap outputs
      → IsMap resources
      → IsMap (add_outputs key outputs resources)
  unfolding add_outputs IsMap
  add_outputs-IsMap key no_entry resources o m = m
  add_outputs-IsMap key (entry k v e) resources o m = store-IsMap key _ resources (tt, o, tt) m

  find-add_outputs :
      (key wanted : String) (outputs resources : Entries)
      → key ≢ wanted
      → find wanted (add_outputs key outputs resources) ≡ find wanted resources
  unfolding add_outputs
  find-add_outputs key wanted no_entry resources h = refl
  find-add_outputs key wanted (entry k v e) resources h =
      let found =
        find-store key wanted (tree (entry "outputs" (tree (entry k v e)) no_entry)) resources in
      ground (arith, found, eq_iff key wanted)

  read_outputs_lem :
      (available : Bool) (key : String) (outputs : Option ResourceClaimOutputs)
      (resources : Entries)
      → (available ≡ true → is_some outputs ≡ true)
      → IsMap resources
      → (next : Entries) × (read_outputs base64 available key outputs resources ≡ some next)
        × IsMap next
        × ((k : String) → key ≢ k → find k next ≡ find k resources)
  unfolding read_outputs
  read_outputs_lem false key outputs resources h m = (resources, refl, m, λ k a. refl)
  read_outputs_lem true key none resources h m = absurd (false≢true (h refl))
  read_outputs_lem true key (some outputs) resources h m = (
    add_outputs key (resource_outputs base64 outputs) resources,
    refl,
    add_outputs-IsMap key _ resources (resource_outputs-IsMap outputs) m,
    λ k a. find-add_outputs key k _ resources a,
  )

  -- The loop over claims that have their outputs ends, and the entries of other keys stay.
  collect_outputs_lem :
      (claims : List ResourceClaim) (resources : Entries)
      → All HasOutputs claims
      → IsMap resources
      → (collected : Entries) × (collect_outputs base64 claims resources ≡ some collected)
        × IsMap collected
        × ((k : String) → All (λ c. c.spec.key ≢ k) claims → find k collected ≡ find k resources)
  unfolding collect_outputs
  collect_outputs_lem [] resources h m = (resources, refl, m, λ k a. refl)
  collect_outputs_lem (claim ∷ claims) resources h m =
      let first =
        read_outputs_lem claim.status.outputs_available claim.spec.key claim.status.outputs
          resources h.0 m in
      let rest = collect_outputs_lem claims first.0 h.1 first.2 in
      (rest.0, rw (first.1, collect_outputs) rest.1, rest.2, λ k a. rest.3 k a.1 ∙ first.3 k a.0)

  collect_outputs-append :
      (before after : List ResourceClaim) (resources : Entries) {collected : Entries}
      → collect_outputs base64 before resources ≡ some collected
      → collect_outputs base64 (before ++ after) resources ≡ collect_outputs base64 after collected
  unfolding collect_outputs
  collect_outputs-append [] after resources e = ap (collect_outputs base64 after) (ground arith)
  collect_outputs-append (claim ∷ before) after resources {collected} e =
      elim (read_outputs base64 claim.status.outputs_available claim.spec.key claim.status.outputs
            resources)
          as (λ o.
            ◌≡◌ {A = Option Entries}
              (elim o [ none ↦ none | some next ↦ collect_outputs base64 before next ])
              (some collected)
            → ◌≡◌ {A = Option Entries}
                (elim o [ none ↦ none | some next ↦ collect_outputs base64 (before ++ after) next ])
                (collect_outputs base64 after collected)) [
                  | none ↦ λ h. cc
                  | some next ↦ λ h. collect_outputs-append before after next h
                ]
        e

  find-add_outputs_self :
      (key : String) (outputs resources : Entries)
      → outputs ≢ no_entry
      → find key (add_outputs key outputs resources)
        ≡ some (tree (entry "outputs" (tree outputs) no_entry))
  unfolding add_outputs
  find-add_outputs_self key no_entry resources h = absurd (h refl)
  find-add_outputs_self key (entry k v e) resources h =
      find-store key key _ resources ∙ rw (eq_refl key)

  value_at-with_resources :
      (key : String) (path : List String) (outputs resources : Entries)
      → find key resources ≡ some (tree (entry "outputs" (tree outputs) no_entry))
      → value_at ("resources" ∷ key ∷ "outputs" ∷ path) (tree (with_resources resources))
        ≡ value_at path (tree outputs)
  unfolding with_resources value_at find
  value_at-with_resources key path outputs no_entry h = cc
  value_at-with_resources key path outputs (entry k v e) h = rw h

  with_resources-IsMap : (resources : Entries) → IsMap resources → IsMap (with_resources resources)
  unfolding with_resources IsMap
  with_resources-IsMap no_entry m = tt
  with_resources-IsMap (entry k v e) m = (tt, m, tt)

  value_at-no_entry :
      (path : List String) {document : Json} → value_at path (tree no_entry) ≢ some (leaf document)
  unfolding value_at find
  value_at-no_entry [] h = cc
  value_at-no_entry (k ∷ path) h = cc

  collect_outputs_split :
      (before : List ResourceClaim) (claim : ResourceClaim) (after : List ResourceClaim)
      → {outputs : ResourceClaimOutputs} → All HasOutputs before
      → All HasOutputs after
      → All (λ c. c.spec.key ≢ claim.spec.key) after
      → claim.status.outputs_available ≡ true
      → claim.status.outputs ≡ some outputs
      → (collected : Entries) × (collect_outputs base64 (before ++ (claim ∷ after)) no_entry
          ≡ some collected)
        × IsMap collected
        × (resource_outputs base64 outputs ≢ no_entry
            → find claim.spec.key collected
              ≡ some (tree (entry "outputs" (tree (resource_outputs base64 outputs)) no_entry)))
  unfolding IsMap collect_outputs read_outputs
  collect_outputs_split before claim after {outputs} hb ha apart av has =
      let first = collect_outputs_lem before no_entry hb tt in
      let own = resource_outputs base64 outputs in
      let with_own = add_outputs claim.spec.key own first.0 in
      let kept =
        add_outputs-IsMap claim.spec.key own first.0 (resource_outputs-IsMap outputs) first.2 in
      let last = collect_outputs_lem after with_own ha kept in
      let step : collect_outputs base64 (claim ∷ after) first.0 ≡ some last.0 =
        rw (av, has, collect_outputs) last.1 in
      (
        last.0,
        collect_outputs-append before (claim ∷ after) no_entry first.1 ∙ step,
        last.2,
        λ own_entry.
            last.3 claim.spec.key apart
            ∙ find-add_outputs_self claim.spec.key own first.0 own_entry,
      )

  -- Let the defaults be absent, JSON null or a JSON object, let a claim have its outputs, let every
  -- other claim have outputs that says so, let no later one have its key, and let a value that is no
  -- map stand in its outputs at a path. Then the composition of values succeeds, and in what it
  -- composes that value stands under resources, the key, outputs and the path, whatever the defaults
  -- and the Workload have there.
  pub compose_values-outputs :
      (defaults : Option Raw) (workload : Workload)
      → (before : List ResourceClaim) (claim : ResourceClaim) (after : List ResourceClaim)
      → {outputs : ResourceClaimOutputs} → (path : List String) {document : Json}
      → IsDefaults defaults
      → All HasOutputs before
      → All HasOutputs after
      → All (λ c. c.spec.key ≢ claim.spec.key) after
      → claim.status.outputs_available ≡ true
      → claim.status.outputs ≡ some outputs
      → value_at path (tree (resource_outputs base64 outputs)) ≡ some (leaf document)
      → (composed : Entries) × (compose_values base64 defaults workload (before ++ (claim ∷ after))
          ≡ ok (json (marshal (tree composed))))
        × (value_at ("resources" ∷ claim.spec.key ∷ "outputs" ∷ path) (tree composed)
            ≡ some (leaf document))
  unfolding compose_values
  compose_values-outputs defaults workload before claim after {outputs} path {document} given hb ha
        apart av has h =
      let (start, d) = IsDefaults-ok defaults given in
      let collected = collect_outputs_split before claim after hb ha apart av has in
      let values = with_resources collected.0 in
      let below = merge_pass (merge_pass no_entry start) (normalize_workload workload) in
      let nonempty : resource_outputs base64 outputs ≢ no_entry =
        λ e. value_at-no_entry path (ap (λ o. value_at path (tree o)) (sym e) ∙ h) in
      let whole = "resources" ∷ claim.spec.key ∷ "outputs" ∷ path in
      let at_end : value_at whole (tree values) ≡ some (leaf document) =
        value_at-with_resources claim.spec.key path _ collected.0 (collected.3 nonempty) ∙ h in
      let merged =
        merge_pass-precedence whole below values (with_resources-IsMap collected.0 collected.2)
          (inl (document, at_end)) in
      (
        merge_pass below values,
        rw (d, collected.1) refl,
        merged ∙ ap (λ v. or_else v (value_at whole (tree below))) at_end,
      )
