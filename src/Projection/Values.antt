-- ===== src/Projection/Values.antt =====
-- composeValues of internal/reconcile/values.go and the two functions that read the Workload and its
-- claims. A Go map that is built under distinct constant keys is the stores in the order of the
-- source.
pub mod Composed
use score_orchestrator.Base.{
  String, Bool, true, false, not, Option, none, some, List, [], ◌∷◌, is_empty, ◌==◌, if◌then◌else◌,
}
use mathlib.Core.Option
use score_orchestrator.Base.Int.{ℤ}
use score_orchestrator.Base.Dict.{entries_of, Dict}
use score_orchestrator.Base.Result.{Result, ok, err, ◌>>=◌}
use score_orchestrator.Api.Meta.{
  Json, null, bool, num, str, arr, obj, Items, nil, cons, Fields, end, field, Raw, empty, malformed,
  json,
}
use score_orchestrator.Api.Workload.{
  Workload, ContainerSpec, FileSpec, FileSourceSpec, ServicePort, ServiceSpec, ResourceSpec,
}
use score_orchestrator.Api.Claim.{
  ResourceClaim, ResourceClaimOutputs, LocalObjectReference, CertificateOutput,
}
use score_orchestrator.Projection.Merge.{
  Value, leaf, tree, Entries, no_entry, entry, unmarshal, unmarshal_fields, marshal, store,
  merge_maps,
}

-- A field with a pointer, or under a test: stored where there is a value.
unfoldable pub store_opt : String → Option Value → Entries → Entries
store_opt key none entries = entries
store_opt key (some value) entries = store key value entries

unfoldable pub mapped {ℓ} : {V : Type ℓ} → (V → Value) → Dict V → Entries
mapped f [] = no_entry
mapped f ((key, value) ∷ others) = entry key (f value) (mapped f others)

strings_json : List String → Items
strings_json [] = nil
strings_json (s ∷ others) = cons (str s) (strings_json others)

map_json : Dict String → Fields
map_json [] = end
map_json ((key, value) ∷ others) = field key (str value) (map_json others)

-- A list or a map that is left out when it is empty.
list_value : List String → Option Value
unfolding strings_json
list_value items = if is_empty items then none else some (leaf (arr (strings_json items)))

map_value : Dict String → Option Value
unfolding map_json
map_value entries = if is_empty entries then none else some (leaf (obj (map_json entries)))

text_value : Option String → Option Value
text_value none = none
text_value (some s) = some (leaf (str s))

field_opt : String → Option String → Fields → Fields
field_opt name none fields = fields
field_opt name (some s) fields = field name (str s) fields

source_json : Option FileSourceSpec → Fields → Fields
source_json none fields = fields
source_json (some source) fields = field "source" (obj (field "uri" (str source.uri) end)) fields

-- The JSON of a FileSpec, by the tags of its fields.
file_json : FileSpec → Json
unfolding field_opt source_json
file_json file = obj (
    field "target" (str file.target) (
      field_opt "mode" file.mode (
        source_json file.source
          (field_opt "content" file.content (field_opt "binaryContent" file.binary_content end)))))

files_json : List FileSpec → Items
unfolding file_json
files_json [] = nil
files_json (file ∷ others) = cons (file_json file) (files_json others)

files_value : List FileSpec → Option Value
unfolding files_json
files_value files = if is_empty files then none else some (leaf (arr (files_json files)))

unfoldable pub container_map : ContainerSpec → Entries
unfolding list_value map_value files_value store_opt store
container_map container = store_opt "files" (files_value container.files) (
    store_opt "env" (map_value (entries_of container.variables)) (
      store_opt "args" (list_value container.args) (
        store_opt "command" (list_value container.command)
          (store "image" (leaf (str container.image)) no_entry))))

target_port_json : Option ℤ → Fields
target_port_json none = end
target_port_json (some n) = field "targetPort" (num n) end

port_json : ServicePort → Json
unfolding target_port_json
port_json port =
    let target = target_port_json port.target_port in
    obj (
      field "port" (num port.port)
        (if port.protocol == "" then target else field "protocol" (str port.protocol) target))

ports_json : List ServicePort → Items
unfolding port_json
ports_json [] = nil
ports_json (port ∷ others) = cons (port_json port) (ports_json others)

service_map : ServiceSpec → Entries
unfolding ports_json store
service_map service =
    if is_empty service.ports
    then no_entry
    else store "ports" (leaf (arr (ports_json service.ports))) no_entry

service_value : Option ServiceSpec → Option Value
unfolding service_map
service_value none = none
service_value (some service) = some (tree (service_map service))

-- Params that are no JSON are left out.
params_value : Option Raw → Option Value
params_value none = none
params_value (some empty) = none
params_value (some malformed) = none
params_value (some (json document)) = some (unmarshal document)

resource_map : ResourceSpec → Entries
unfolding params_value text_value store_opt store
resource_map resource = store_opt "params" (params_value resource.params) (
    store_opt "class" (text_value resource.class)
      (store "type" (leaf (str resource.type)) no_entry))

containers_value : Dict ContainerSpec → Option Value
unfolding mapped container_map
containers_value containers =
    if is_empty containers
    then none
    else some (tree (mapped (λ container. tree (container_map container)) containers))

resources_value : Dict ResourceSpec → Option Value
unfolding mapped resource_map
resources_value resources =
    if is_empty resources
    then none
    else some (tree (mapped (λ resource. tree (resource_map resource)) resources))

unfoldable pub normalize_workload : Workload → Entries
unfolding containers_value service_value resources_value map_value store_opt store
normalize_workload workload = store_opt "annotations" (map_value workload.annotations) (
    store_opt "labels" (map_value workload.labels) (
      store "namespace" (leaf (str workload.namespace)) (
        store "name" (leaf (str workload.name)) (
          store_opt "resources" (resources_value workload.spec.resources) (
            store_opt "service" (service_value workload.spec.service)
              (store_opt "containers" (containers_value workload.spec.containers) no_entry))))))

reference_value : Option LocalObjectReference → Option Value
unfolding store
reference_value none = none
reference_value (some r) = some (tree (store "name" (leaf (str r.name)) no_entry))

is_no_entry : Entries → Bool
is_no_entry no_entry = true
is_no_entry (entry key value entries) = false

-- The body of the loop for a claim that has its outputs.
unfoldable pub add_outputs : String → Entries → Entries → Entries
unfolding store is_no_entry
add_outputs key outputs resources =
    if is_no_entry outputs
    then resources
    else store key (tree (entry "outputs" (tree outputs) no_entry)) resources

unfoldable pub with_resources : Entries → Entries
with_resources no_entry = no_entry
with_resources (entry key value entries) =
    entry "resources" (tree (entry key value entries)) no_entry

pub data Failure : Type 0 where
  malformed_defaults : Failure
  nil_outputs : Failure

-- json.Unmarshal of the defaults into a map. `none` is also an extension whose Raw is nil; `empty` is
-- a Raw of no bytes, which json.Unmarshal refuses.
unfoldable pub defaults_map : Option Raw → Result Failure Entries
defaults_map none = ok no_entry
defaults_map (some (json (obj fields))) = ok (unmarshal_fields fields)
defaults_map (some (json null)) = ok no_entry
defaults_map (some _) = err malformed_defaults

unfoldable pub with_outputs : Entries → Workload → Option Entries → Result Failure Raw
unfolding marshal merge_maps
with_outputs defaults workload none = err nil_outputs
with_outputs defaults workload (some outputs) =
    ok (json (marshal (tree (merge_maps (defaults ∷ normalize_workload workload ∷ outputs ∷ [])))))

-- The claims of which the outputs are read without a test for nil: `none` is the panic of a claim
-- that says its outputs are available and has none. `base64` is how json.Marshal writes a []byte.
module _ (base64 : String → String) where
  bytes_json : Dict String → Fields
  bytes_json [] = end
  bytes_json ((key, value) ∷ others) = field key (str (base64 value)) (bytes_json others)

  data_value : Option (Dict String) → Option Value
  unfolding bytes_json
  data_value none = none
  data_value (some contents) = some (leaf (obj (bytes_json contents)))

  cert_value : Option CertificateOutput → Option Value
  unfolding data_value text_value store_opt
  cert_value none = none
  cert_value (some cert) = some (
      tree (
        store_opt "data" (data_value cert.contents)
          (store_opt "secretName" (text_value cert.secret_name) no_entry)))

  unfoldable pub resource_outputs : ResourceClaimOutputs → Entries
  unfolding cert_value text_value reference_value store_opt
  resource_outputs outputs = store_opt "cert" (cert_value outputs.cert) (
      store_opt "image" (text_value outputs.image) (
        store_opt "uri" (text_value outputs.uri) (
          store_opt "configMapRef" (reference_value outputs.config_map_ref)
            (store_opt "secretRef" (reference_value outputs.secret_ref) no_entry))))

  -- The body of the loop; `none` is the panic.
  unfoldable pub read_outputs :
      Bool → String → Option ResourceClaimOutputs → Entries → Option Entries
  unfolding add_outputs resource_outputs
  read_outputs false key outputs resources = some resources
  read_outputs true key none resources = none
  read_outputs true key (some outputs) resources =
      some (add_outputs key (resource_outputs outputs) resources)

  unfoldable pub collect_outputs : List ResourceClaim → Entries → Option Entries
  unfolding read_outputs
  collect_outputs [] resources = some resources
  collect_outputs (claim ∷ claims) resources =
      elim (read_outputs claim.status.outputs_available claim.spec.key claim.status.outputs
        resources) [ none ↦ none | some next ↦ collect_outputs claims next ]

  unfoldable pub extract_outputs : List ResourceClaim → Option Entries
  unfolding collect_outputs with_resources
  extract_outputs claims = Option.map with_resources (collect_outputs claims no_entry)

  unfoldable pub compose_values : Option Raw → Workload → List ResourceClaim → Result Failure Raw
  unfolding defaults_map extract_outputs with_outputs
  compose_values defaults workload claims = do
    start ← defaults_map defaults
    with_outputs start workload (extract_outputs claims)
