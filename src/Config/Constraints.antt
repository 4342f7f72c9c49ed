-- ===== src/Config/Constraints.antt =====
-- The errors of the validation, and the checks of a template and of constraints.
use score_orchestrator.Base.{
  ℕ, String, Bool, true, false, not, ◌&&◌, ◌||◌, Option, none, some, List, [], ◌∷◌, ◌++◌, ◌==◌, any,
  all, leb, is_empty, if◌then◌else◌,
}
use score_orchestrator.Base.Text.{Codes, codes, split}
use score_orchestrator.Api.Config.{
  TemplateSpec, ConstraintsRef, absent, present, ResourceConstraints, required_resources,
}

-- field.Path
pub data Segment : Type 0 where
  child : String → Segment
  index : ℕ → Segment

abbrev pub FieldPath : Type 0
FieldPath = List Segment

-- field.Error by its constructor, without the rejected value and the list of supported ones.
pub data FieldError : Type 0 where
  invalid : FieldPath → String → FieldError
  required : FieldPath → String → FieldError
  duplicate : FieldPath → FieldError
  not_supported : FieldPath → FieldError
  not_found : FieldPath → FieldError

abbrev pub under : FieldPath → String → FieldPath
under path name = path ++ child name ∷ []

abbrev pub at : FieldPath → ℕ → FieldPath
at path i = path ++ index i ∷ []

-- `if test { allErrs = append(allErrs, e) }`
abbrev pub when : Bool → FieldError → List FieldError
when test e = if test then e ∷ [] else []

-- m[name]
abbrev pub member : String → List String → Bool
member name names = any (λ n. n == name) names

-- m[name] = true
abbrev pub with_name : String → List String → List String
with_name name names = name ∷ names

unfoldable pub validate_template : TemplateSpec → FieldPath → List FieldError
validate_template t path =
    (if t.kind == ""
      then required (under path "kind") "kind is required" ∷ []
      else when (not (member t.kind ("manifests" ∷ "helm" ∷ "kustomize" ∷ [])))
          (not_supported (under path "kind")))
    ++ when (t.ref == "") (required (under path "ref") "ref is required")

-- [a-zA-Z]*
letters : Codes → Bool
letters s = all (λ c. (leb b'a' c && leb c b'z') || (leb b'A' c && leb c b'Z')) s

-- [0-9]*[a-zA-Z]*
digits_then_letters : Codes → Bool
digits_then_letters [] = true
digits_then_letters (c ∷ s) =
    let rest = digits_then_letters s in if leb b'0' c && leb c b'9' then rest else letters (c ∷ s)

-- [0-9]+[a-zA-Z]*
is_quantity : Codes → Bool
is_quantity [] = false
is_quantity (c ∷ s) = leb b'0' c && leb c b'9' && digits_then_letters s

-- constraintPattern: a quantity, or two around a dash of which one may be missing. A quantity has no
-- dash, so the text is split at its dashes.
matches : List Codes → Bool
matches (q ∷ []) = is_quantity q
matches (lo ∷ hi ∷ []) =
    (is_quantity lo && is_quantity hi)
    || (is_empty lo && is_quantity hi)
    || (is_quantity lo && is_empty hi)
matches _ = false

unfoldable pub validate_resource : String → FieldPath → String → List FieldError
unfolding matches is_quantity digits_then_letters letters
validate_resource text path message =
    when (not (text == "") && not (matches (split (codes text) b'-'))) (invalid path message)

unfoldable pub validate_resource_limits : ResourceConstraints → FieldPath → List FieldError
validate_resource_limits r path =
    validate_resource r.cpu (under path "cpu") "invalid CPU constraint format"
    ++ validate_resource r.memory (under path "memory") "invalid memory constraint format"
    ++ validate_resource r.storage (under path "storage") "invalid storage constraint format"

resource_limits : Option ResourceConstraints → FieldPath → List FieldError
resource_limits none path = []
resource_limits (some r) path = validate_resource_limits r (under path "resources")

unfoldable pub validate_constraints : ConstraintsRef → FieldPath → List FieldError
unfolding resource_limits
validate_constraints absent path = []
validate_constraints (present c) path = resource_limits (required_resources c) path
