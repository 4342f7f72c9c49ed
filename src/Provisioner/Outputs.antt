-- ===== src/Provisioner/Outputs.antt =====
-- internal/provisioner/outputs.go. An error is its text.
pub mod Merged
use score_orchestrator.Base.{
  String, Bool, true, false, not, ◌&&◌, ◌||◌, Option, none, some, List, [], ◌∷◌, ◌==◌, is_empty,
  is_some, if◌then◌else◌,
}
use score_orchestrator.Base.Dict.{Dict}
use score_orchestrator.Api.Claim.{
  ResourceClaim, ResourceClaimOutputs, ResourceClaimStatus, CertificateOutput, LocalObjectReference,
}

-- p != nil && p.Name != ""
abbrev pub has_name : Option LocalObjectReference → Bool
has_name none = false
has_name (some r) = not (r.name == "")

-- p != nil && *p != ""
abbrev pub has_text : Option String → Bool
has_text none = false
has_text (some s) = not (s == "")

abbrev pub has_contents : Option (Dict String) → Bool
has_contents none = false
has_contents (some d) = not (is_empty d)

abbrev pub has_cert : Option CertificateOutput → Bool
has_cert none = false
has_cert (some c) = is_some c.secret_name || has_contents c.contents

unfoldable pub validate_outputs : Option ResourceClaimOutputs → Option String
validate_outputs none = some "outputs cannot be nil"
validate_outputs (some o) =
    if not (has_name o.secret_ref)
      && not (has_name o.config_map_ref)
      && not (has_text o.uri)
      && not (has_text o.image)
      && not (has_cert o.cert)
    then some "at least one output field (secretRef, configMapRef, uri, image, or cert) must be set"
    else none

unfoldable pub set_outputs_available : ResourceClaim → ResourceClaim
set_outputs_available claim = record claim {
  status = record claim.status {
    outputs_available = elim (validate_outputs claim.status.outputs) [
      | none ↦ true
      | some e ↦ false
    ];
  };
}

abbrev pub no_outputs : ResourceClaimOutputs
no_outputs = record {
  secret_ref = none;
  config_map_ref = none;
  uri = none;
  image = none;
  cert = none;
}

abbrev pub create_secret_ref_output : String → ResourceClaimOutputs
create_secret_ref_output name = record no_outputs { secret_ref = some (record { name = name }) }

abbrev pub create_config_map_ref_output : String → ResourceClaimOutputs
create_config_map_ref_output name = record no_outputs {
  config_map_ref = some (record { name = name });
}

abbrev pub create_uri_output : String → ResourceClaimOutputs
create_uri_output uri = record no_outputs { uri = some uri }

abbrev pub create_image_output : String → ResourceClaimOutputs
create_image_output image = record no_outputs { image = some image }

-- `if output.F != nil && result.F == nil { result.F = output.F }`
abbrev pub kept_or {ℓ} : {A : Type ℓ} → Option A → Option A → Option A
kept_or (some a) o = some a
kept_or none o = o

-- One round of the loop of MergeOutputs.
unfoldable pub merge_output :
    ResourceClaimOutputs → Option ResourceClaimOutputs → ResourceClaimOutputs
merge_output result none = result
merge_output result (some output) = record {
  secret_ref = kept_or result.secret_ref output.secret_ref;
  config_map_ref = kept_or result.config_map_ref output.config_map_ref;
  uri = kept_or result.uri output.uri;
  image = kept_or result.image output.image;
  cert = kept_or result.cert output.cert;
}

unfoldable pub merge_from :
    ResourceClaimOutputs → List (Option ResourceClaimOutputs) → ResourceClaimOutputs
unfolding merge_output
merge_from result [] = result
merge_from result (o ∷ os) = merge_from (merge_output result o) os

unfoldable pub merge_outputs : List (Option ResourceClaimOutputs) → ResourceClaimOutputs
unfolding merge_from
merge_outputs outputs = merge_from no_outputs outputs
