-- ===== src/Projection/Tests.antt =====
-- Runs of the projection, and its theorems at concrete inputs: a claim "db" whose uri is available.
use score_orchestrator.Base.{
  inr, String, ◌≡◌, refl, ◌↔◌, none, some, [], ◌∷◌, true, false, arith, All, string_ne,
}
use score_orchestrator.Base.Dict.{lookup}
use score_orchestrator.Base.Text.{codes}
use score_orchestrator.Base.Result.{ok}
use score_orchestrator.Api.Meta.{Json, str, arr, obj, nil, cons, end, field, Raw, json}
use score_orchestrator.Api.Claim.{ResourceClaim, ResourceClaimOutputs, bound}
use score_orchestrator.Api.Workload.{Workload, ContainerSpec}
use score_orchestrator.Projection.Placeholder.{has_unresolved_placeholders}
use score_orchestrator.Projection.Placeholder.Found.{
  Occurs, HasPlaceholder, has_unresolved_placeholders_iff,
}
use score_orchestrator.Projection.Merge.{
  leaf, tree, Entries, no_entry, entry, find, marshal, merge_pass,
}
use score_orchestrator.Projection.Merge.Laws.{value_at}
use score_orchestrator.Projection.Values.{defaults_map, resource_outputs, compose_values}
use score_orchestrator.Projection.Values.Composed.{compose_values-outputs}
use score_orchestrator.Projection.Resolver.{
  Reference, Available, resolve_value, resolve_all_placeholders, strip,
}
use score_orchestrator.Projection.Resolver.References.{
  references, IsAvailable, resolve_value-ok_iff,
}
use score_orchestrator.Projection.Resolver.Whole.{short, written, IsPlain, resolve_value-written}

abbrev document : Json
document = obj (field "env" (arr (cons (str "a ${b} c") nil)) end)

finds_placeholder : (has_unresolved_placeholders (json document)).found ≡ true
unfolding has_unresolved_placeholders
finds_placeholder = refl

-- Empty braces are no placeholder.
skips_empty : (has_unresolved_placeholders (json (str "${} $x {y}"))).found ≡ false
unfolding has_unresolved_placeholders
skips_empty = refl

has_unresolved_placeholders_iff_example :
    ((has_unresolved_placeholders (json document)).found ≡ true)
    ↔ ((s : String) × Occurs s document × HasPlaceholder (codes s))
has_unresolved_placeholders_iff_example = has_unresolved_placeholders_iff document

abbrev defaults : Entries
defaults =
    entry "db" (tree (entry "size" (leaf (str "1")) (entry "zone" (leaf (str "a")) no_entry)))
      no_entry

abbrev overrides : Entries
overrides = entry "db" (tree (entry "size" (leaf (str "2")) no_entry)) no_entry

merges_deep :
    merge_pass defaults overrides
    ≡ entry "db"
        (tree (entry "size" (leaf (str "2")) (entry "zone" (leaf (str "a")) no_entry)))
        no_entry
unfolding merge_pass
merges_deep = refl

abbrev outputs : ResourceClaimOutputs
outputs = record {
  secret_ref = none;
  config_map_ref = none;
  uri = some "postgres://db";
  image = none;
  cert = none;
}

abbrev claim : ResourceClaim
claim = record {
  metadata = record {
    name = "web-db";
    namespace = "shop";
    uid = "u2";
    generation = 1;
    labels = [];
    annotations = [];
    finalizers = [];
    owner_references = [];
    deletion_timestamp = none;
  };
  spec = record {
    workload_ref = record { name = "web"; namespace = "shop" };
    key = "db";
    type = "postgres";
    class = none;
    id = none;
    params = none;
    deprovision_policy = none;
  };
  status = record {
    phase = bound;
    reason = "";
    message = "";
    outputs = some outputs;
    outputs_available = true;
    observed_generation = 1;
    last_transition_time = none;
  };
}

abbrev container : ContainerSpec
container = record {
  image = "nginx";
  command = [];
  args = [];
  variables = some (("URL", "${resources.db.uri}") ∷ []);
  files = [];
  liveness_probe = none;
  readiness_probe = none;
  resources = none;
}

abbrev workload : Workload
workload = record {
  metadata = record {
    name = "web";
    namespace = "shop";
    uid = "u1";
    generation = 1;
    labels = [];
    annotations = [];
    finalizers = [];
    owner_references = [];
    deletion_timestamp = none;
  };
  spec = record {
    profile = none;
    containers = ("app", container) ∷ [];
    service = none;
    resources = [];
  };
  status = record { endpoint = none; conditions = []; claims = [] };
}

abbrev template : Raw
template = json (obj (field "replicas" (str "2") end))

compose_values-outputs_example :
    (composed : Entries) × (compose_values (λ s. s) (some template) workload (claim ∷ [])
      ≡ ok (json (marshal (tree composed))))
    × (value_at ("resources" ∷ "db" ∷ "outputs" ∷ "uri" ∷ []) (tree composed)
        ≡ some (leaf (str "postgres://db")))
unfolding defaults_map value_at resource_outputs find
compose_values-outputs_example =
    compose_values-outputs (λ s. s) (some template) workload [] claim [] ("uri" ∷ [])
      (inr (inr (field "replicas" (str "2") end, refl))) tt tt tt refl refl refl

-- The values of a plan: the container's variable is replaced.
resolves_env :
    resolve_all_placeholders (λ namespace name. none) workload (claim ∷ [])
    ≡ ok (
        json (
          obj (
            field "containers"
              (obj (
                field "app"
                  (obj (field "env" (obj (field "URL" (str "postgres://db") end)) end))
                  end))
              end)))
unfolding resolve_all_placeholders
resolves_env = refl

abbrev available : Available
available = ("db", ("host", "h1") ∷ []) ∷ []

abbrev mixed : String
mixed = "${resources.db.outputs.host}:${resources.db.port}"

-- Where a value has a reference in the long form, one in the short form stays.
leaves_short : resolve_value mixed available ≡ ok "h1:${resources.db.port}"
unfolding resolve_value
leaves_short = refl

resolve_value-ok_iff_example :
    ((result : String) × (resolve_value mixed available ≡ ok result))
    ↔ All (IsAvailable available) (references mixed)
resolve_value-ok_iff_example = resolve_value-ok_iff mixed available

abbrev reference : Reference
reference = record { resource = "db"; output = "host" }

reference-IsPlain : IsPlain reference
reference-IsPlain = record {
  some_resource = string_ne "db" "" refl;
  some_output = string_ne "host" "" refl;
  no_dot = ground arith;
  no_brace = ground arith;
  no_dollar = (ground arith, ground arith);
}

resolve_value-written_example : resolve_value (written short reference) available ≡ ok "h1"
unfolding lookup strip
resolve_value-written_example =
    resolve_value-written reference reference-IsPlain short available refl refl refl
