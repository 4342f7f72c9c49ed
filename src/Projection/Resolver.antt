-- ===== src/Projection/Resolver.antt =====
-- internal/reconcile/resolver.go: references to the outputs of resources, and their substitution.
pub mod References
pub mod Whole
use Prim.Native.String
use Prim.Native.Char.{Char, code}
use score_orchestrator.Base.{
  ℕ, zero, suc, ◌-◌, String, Bool, true, false, not, Option, none, some, List, [], ◌∷◌, eqb, ◌==◌,
  if◌then◌else◌,
}
use score_orchestrator.Base.Dict.{entries_of, Dict, lookup, insert}
use score_orchestrator.Base.Text.{joined}
use score_orchestrator.Base.Result.{Result, ok, err, ◌>>=◌}
use score_orchestrator.Api.Meta.{Json, str, obj, Fields, end, field, Raw, json}
use score_orchestrator.Api.Workload.{Workload, ContainerSpec}
use score_orchestrator.Api.Claim.{
  ResourceClaim, ResourceClaimOutputs, LocalObjectReference, CertificateOutput,
}

-- len(s), in code points.
unfoldable pub text_length : String → ℕ
text_length String.[] = 0
text_length (String.◌∷◌ c s) = suc (text_length s)

-- The rest of a text behind a literal.
unfoldable pub strip : String → String → Option String
strip String.[] s = some s
strip (String.◌∷◌ p literal) String.[] = none
strip (String.◌∷◌ p literal) (String.◌∷◌ c s) =
    if eqb (code p) (code c) then strip literal s else none

pub record Cut : Type 0 where
  pub before : String
  pub after : String

unfoldable pub put_back : Char → Option Cut → Option Cut
put_back c none = none
put_back c (some found) = some (record { before = String.◌∷◌ c found.before; after = found.after })

-- What stands before the first `stop` and behind it.
unfoldable pub cut : ℕ → String → Option Cut
unfolding put_back
cut stop String.[] = none
cut stop (String.◌∷◌ c s) =
    let later = put_back c (cut stop s) in
    if eqb (code c) stop then some (record { before = ""; after = s }) else later

unfoldable pub nonempty : Option Cut → Option Cut
nonempty none = none
nonempty (some found) = if found.before == "" then none else some found

-- The two groups of a match.
pub record Reference : Type 0 where
  pub resource : String
  pub output : String

-- The match of `([^.]+)\.`, which is the text up to the first dot: no longer one is free of dots.
unfoldable pub match_resource : Option String → Option Cut
unfolding cut nonempty
match_resource none = none
match_resource (some s) = nonempty (cut b'.' s)

unfoldable pub with_output : String → Option Cut → Option Reference
with_output resource none = none
with_output resource (some found) = some (record { resource = resource; output = found.before })

-- The match of `([^}]+)\}`, in the same way.
unfoldable pub match_output : Option Cut → Option Reference
unfolding cut nonempty with_output
match_output none = none
match_output (some found) = with_output found.before (nonempty (cut b'}' found.after))

unfoldable pub strip_outputs : Option Cut → Option Cut
unfolding strip
strip_outputs none = none
strip_outputs (some found) = elim (strip "outputs." found.after) [
  | none ↦ none
  | some rest ↦ some (record { before = found.before; after = rest })
]

-- A match of resourceRefPattern at the start of the text, and one of resourceRefWithOutputsPattern.
unfoldable pub short_match : String → Option Reference
unfolding match_output match_resource strip
short_match s = match_output (match_resource (strip "${resources." s))

unfoldable pub long_match : String → Option Reference
unfolding match_output strip_outputs match_resource strip
long_match s = match_output (strip_outputs (match_resource (strip "${resources." s)))

-- templateVar, which is the whole text of the match too.
unfoldable pub short_text : Reference → String
short_text r = joined "${resources." (joined r.resource (joined "." (joined r.output "}")))

unfoldable pub long_text : Reference → String
long_text r = joined "${resources." (joined r.resource (joined ".outputs." (joined r.output "}")))

-- FindAllStringSubmatch: the matches from left to right. `skip` counts what is left of the text of
-- the match before.
module _ (match : String → Option Reference) (text : Reference → String) where
  unfoldable pub matches_behind : ℕ → String → List Reference
  unfolding text_length
  matches_behind skip String.[] = []
  matches_behind (suc skip) (String.◌∷◌ c s) = matches_behind skip s
  matches_behind zero (String.◌∷◌ c s) = elim (match (String.◌∷◌ c s)) [
    | none ↦ matches_behind zero s
    | some r ↦ r ∷ matches_behind (text_length (text r) - 1) s
  ]

  unfoldable pub find_all : String → List Reference
  unfolding matches_behind
  find_all s = matches_behind 0 s

-- strings.ReplaceAll of a text that is not empty.
unfoldable pub replace_behind : String → String → ℕ → String → String
unfolding text_length strip
replace_behind old new skip String.[] = ""
replace_behind old new (suc skip) (String.◌∷◌ c s) = replace_behind old new skip s
replace_behind old new zero (String.◌∷◌ c s) = elim (strip old (String.◌∷◌ c s)) [
  | none ↦ String.◌∷◌ c (replace_behind old new zero s)
  | some rest ↦ joined new (replace_behind old new (text_length old - 1) s)
]

unfoldable pub replace_all : String → String → String → String
unfolding replace_behind
replace_all s old new = replace_behind old new 0 s

abbrev pub Available : Type 0
Available = Dict (Dict String)

pub data Missing : Type 0 where
  missing_output : Reference → Missing
  no_outputs : Reference → Missing

unfoldable pub find_output : Reference → Option (Dict String) → Result Missing String
unfolding lookup
find_output r none = err (no_outputs r)
find_output r (some outputs) = elim (lookup r.output outputs) [
  | none ↦ err (missing_output r)
  | some value ↦ ok value
]

-- The loop over the matches of one of the two patterns.
unfoldable pub substitute :
    (Reference → String) → Available → List Reference → String → Result Missing String
unfolding find_output replace_all
substitute text available [] result = ok result
substitute text available (r ∷ others) result = do
  value ← find_output r (lookup r.resource available)
  substitute text available others (replace_all result (text r) value)

-- The short form is looked for only where there is no match of the long one.
unfoldable pub substitute_found : String → Available → List Reference → Result Missing String
unfolding substitute find_all short_match short_text long_text
substitute_found value available [] =
    substitute short_text available (find_all short_match short_text value) value
substitute_found value available (r ∷ others) = substitute long_text available (r ∷ others) value

unfoldable pub resolve_value : String → Available → Result Missing String
unfolding substitute_found find_all long_match long_text
resolve_value value available =
    substitute_found value available (find_all long_match long_text value)

-- What is read of a Secret: its data, or none where the read fails. A []byte is taken as a string.
abbrev pub SecretReader : Type 0
SecretReader = String → String → Option (Dict String)

unfoldable pub insert_opt : String → Option String → Dict String → Dict String
unfolding insert
insert_opt key none entries = entries
insert_opt key (some value) entries = insert key value entries

unfoldable pub insert_each : Dict String → Dict String → Dict String
unfolding insert
insert_each [] entries = entries
insert_each ((key, value) ∷ others) entries = insert_each others (insert key value entries)

-- Made-up values where the Secret of a database cannot be read.
unfoldable pub fallback_outputs : ResourceClaim → Dict String → Dict String
unfolding insert
fallback_outputs claim outputs =
    let username = joined "postgres-" claim.name in
    let password = joined "password-" claim.name in
    let host = joined claim.name "-postgres" in
    let database = joined "db_" claim.name in
    let uri = joined "postgresql://" (
      joined username
        (joined ":" (joined password (joined "@" (joined host (joined ":5432/" database)))))) in
    if claim.spec.type == "postgres"
    then insert "uri" uri (
        insert "database" database (
          insert "port" "5432"
            (insert "host" host (insert "password" password (insert "username" username outputs)))))
    else outputs

unfoldable pub secret_outputs : ResourceClaim → Option (Dict String) → Dict String → Dict String
unfolding insert_each fallback_outputs
secret_outputs claim (some contents) outputs = insert_each contents outputs
secret_outputs claim none outputs = fallback_outputs claim outputs

unfoldable pub certificate_name : Option CertificateOutput → Option String
certificate_name none = none
certificate_name (some cert) = cert.secret_name

module _ (read_secret : SecretReader) where
  unfoldable pub from_secret :
      ResourceClaim → Option LocalObjectReference → Dict String → Dict String
  unfolding secret_outputs
  from_secret claim none outputs = outputs
  from_secret claim (some secret) outputs =
      secret_outputs claim (read_secret claim.namespace secret.name) outputs

  unfoldable pub resolved_outputs : ResourceClaim → ResourceClaimOutputs → Dict String
  unfolding insert_opt certificate_name from_secret
  resolved_outputs claim outputs = insert_opt "cert" (certificate_name outputs.cert) (
      insert_opt "image" outputs.image
        (from_secret claim outputs.secret_ref (insert_opt "uri" outputs.uri [])))

  -- The loop body by whether the outputs are available and by the pointer to them, which is read
  -- without a test for nil: `none` is the panic.
  unfoldable pub add_claim :
      Bool → Option ResourceClaimOutputs → ResourceClaim → Available → Option Available
  unfolding resolved_outputs insert
  add_claim false outputs claim available = some available
  add_claim true none claim available = none
  add_claim true (some outputs) claim available =
      some (insert claim.spec.key (resolved_outputs claim outputs) available)

  unfoldable pub add_claims : List ResourceClaim → Available → Option Available
  unfolding add_claim
  add_claims [] available = some available
  add_claims (claim ∷ claims) available =
      elim (add_claim claim.status.outputs_available claim.status.outputs claim available) [
        | none ↦ none
        | some next ↦ add_claims claims next
      ]

  unfoldable pub build_resolved_outputs_map : List ResourceClaim → Option Available
  unfolding add_claims
  build_resolved_outputs_map claims = add_claims claims []

pub data ResolveFailure : Type 0 where
  unresolved_env : String → String → Missing → ResolveFailure
  nil_outputs : ResolveFailure

unfoldable pub in_env : String → String → Result Missing String → Result ResolveFailure String
in_env container variable (ok value) = ok value
in_env container variable (err e) = err (unresolved_env container variable e)

unfoldable pub resolve_env : String → Available → Dict String → Result ResolveFailure Fields
unfolding in_env resolve_value
resolve_env container available [] = ok end
resolve_env container available ((name, value) ∷ others) = do
  resolved ← in_env container name (resolve_value value available)
  rest ← resolve_env container available others
  ok (field name (str resolved) rest)

-- A container whose variables are nil has no `env`.
unfoldable pub env_fields : Option (Dict String) → Fields → Fields
env_fields none env = end
env_fields (some variables) env = field "env" (obj env) end

unfoldable pub resolve_containers : Available → Dict ContainerSpec → Result ResolveFailure Fields
unfolding resolve_env env_fields
resolve_containers available [] = ok end
resolve_containers available ((name, spec) ∷ others) = do
  env ← resolve_env name available (entries_of spec.variables)
  rest ← resolve_containers available others
  ok (field name (obj (env_fields spec.variables env)) rest)

unfoldable pub resolve_with : Workload → Option Available → Result ResolveFailure Raw
unfolding resolve_containers
resolve_with workload none = err nil_outputs
resolve_with workload (some available) = do
  containers ← resolve_containers available workload.spec.containers
  ok (json (obj (field "containers" (obj containers) end)))

unfoldable pub resolve_all_placeholders :
    SecretReader → Workload → List ResourceClaim → Result ResolveFailure Raw
unfolding build_resolved_outputs_map resolve_with
resolve_all_placeholders read_secret workload claims =
    resolve_with workload (build_resolved_outputs_map read_secret claims)
