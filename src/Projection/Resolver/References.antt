-- ===== src/Projection/Resolver/References.antt =====
-- What becomes of a value with references, by which outputs there are.

use score_orchestrator.Base.{String, ◌≡◌, refl, ◌↔◌, Option, none, some, List, [], ◌∷◌, All}
use score_orchestrator.Base.Dict.{Dict, lookup}
use score_orchestrator.Base.Result.{Result, ok, err, >>=-eq-ok}
use score_orchestrator.Projection.Resolver.{
  Reference, short_match, long_match, short_text, long_text, find_all, replace_all, Available,
  Missing, missing_output, find_output, substitute, substitute_found, resolve_value,
}

-- The references of a value: those in the long form, or if there are none those in the short form.
abbrev pub by_form : List Reference → List Reference → List Reference
by_form [] short = short
by_form (r ∷ long) short = r ∷ long

pub references : String → List Reference
references value =
    by_form (find_all long_match long_text value) (find_all short_match short_text value)

abbrev pub HasOutput : String → Option (Dict String) → Type 0
HasOutput output none = ⊥
HasOutput output (some outputs) = (value : String) × (lookup output outputs ≡ some value)

-- The resource of the reference has the output.
abbrev pub IsAvailable : Available → Reference → Type 0
IsAvailable available r = HasOutput r.output (lookup r.resource available)

find_output_needs :
    (r : Reference) (o : Option (Dict String)) {value : String}
    → find_output r o ≡ ok value
    → HasOutput r.output o
unfolding find_output
find_output_needs r none e = cc
find_output_needs r (some outputs) {value} e =
    elim (lookup r.output outputs)
        as (λ l.
          ◌≡◌ {A = Result Missing String} (elim l [ none ↦ err (missing_output r) | some v ↦ ok v ])
            (ok value)
          → (v : String) × (l ≡ some v)) [ none ↦ λ h. cc | some v ↦ λ h. (v, refl) ]
      e

find_output_available :
    (r : Reference) (o : Option (Dict String))
    → HasOutput r.output o
    → (value : String) × (find_output r o ≡ ok value)
unfolding find_output
find_output_available r none h = elim h [ ]
find_output_available r (some outputs) h = (h.0, rw (h.1, find_output))

substitute_available :
    (text : Reference → String) (available : Available) (refs : List Reference) (s : String)
    → All (IsAvailable available) refs
    → (result : String) × (substitute text available refs s ≡ ok result)
unfolding substitute
substitute_available text available [] s h = (s, refl)
substitute_available text available (r ∷ refs) s (h, hs) =
    let found = find_output_available r (lookup r.resource available) h in
    let rest = substitute_available text available refs (replace_all s (text r) found.0) hs in
    (rest.0, rw (found.1) rest.1)

substitute_needs :
    (text : Reference → String) (available : Available) (refs : List Reference) (s : String)
    {result : String}
    → substitute text available refs s ≡ ok result
    → All (IsAvailable available) refs
unfolding substitute
substitute_needs text available [] s e = tt
substitute_needs text available (r ∷ refs) s e =
    let step = >>=-eq-ok (find_output r (lookup r.resource available)) _ e in
    (
      find_output_needs r (lookup r.resource available) step.1,
      substitute_needs text available refs _ step.2,
    )

-- A value is resolved exactly when each reference in it, in the long form or, where there is none in
-- that form, in the short one, names a resource with outputs and an output that it has.
pub resolve_value-ok_iff :
    (value : String) (available : Available)
    → ((result : String) × (resolve_value value available ≡ ok result))
      ↔ All (IsAvailable available) (references value)
unfolding resolve_value references
resolve_value-ok_iff value available =
    elim (find_all long_match long_text value)
      as (λ long.
        ((result : String) × (substitute_found value available long ≡ ok result))
        ↔ All (IsAvailable available) (by_form long (find_all short_match short_text value))) [
          | [] ↦ (
            λ h. substitute_needs short_text available _ value h.1,
            substitute_available short_text available _ value,
          )
          | r ∷ long ↦ (
            λ h. substitute_needs long_text available (r ∷ long) value h.1,
            substitute_available long_text available (r ∷ long) value,
          )
        ]
