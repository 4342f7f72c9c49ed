-- ===== src/Projection/Placeholder.antt =====
-- internal/projection/placeholder.go: the search of a JSON document for "${...}".
pub mod Found
use score_orchestrator.Base.{
  ℕ, String, Bool, true, false, not, ◌&&◌, ◌||◌, Option, none, some, [], ◌∷◌, eqb,
}
use score_orchestrator.Base.Text.{Codes, codes}
use score_orchestrator.Api.Meta.{
  Json, null, bool, num, str, arr, obj, Items, nil, cons, Fields, end, field, Raw, empty, malformed,
  json,
}

-- `[^}]*\}`
unfoldable pub closes : Codes → Bool
closes [] = false
closes (c ∷ s) = eqb c b'}' || closes s

-- `[^}]+\}`
unfoldable pub has_body : Codes → Bool
unfolding closes
has_body [] = false
has_body (c ∷ s) = not (eqb c b'}') && closes s

-- `\{[^}]+\}`
unfoldable pub has_braces : Codes → Bool
unfolding has_body
has_braces [] = false
has_braces (c ∷ s) = eqb c b'{' && has_body s

-- placeholderRe.MatchString: a match of `\$\{[^}]+\}` at some place.
unfoldable pub match_string : Codes → Bool
unfolding has_braces
match_string [] = false
match_string (c ∷ s) = (eqb c b'$' && has_braces s) || match_string s

-- The keys of an object are not looked at.
unfoldable mutual
  unfolding match_string

  pub scan : Json → Bool
  scan (str s) = match_string (codes s)
  scan (arr items) = scan_items items
  scan (obj fields) = scan_fields fields
  scan null = false
  scan (bool b) = false
  scan (num n) = false

  pub scan_items : Items → Bool
  scan_items nil = false
  scan_items (cons item items) = scan item || scan_items items

  pub scan_fields : Fields → Bool
  scan_fields end = false
  scan_fields (field key value fields) = scan value || scan_fields fields

pub record Unresolved : Type 0 where
  pub found : Bool
  pub error : Option String

unfoldable pub has_unresolved_placeholders : Raw → Unresolved
unfolding scan
has_unresolved_placeholders empty = record { found = false; error = none }
has_unresolved_placeholders malformed = record { found = true; error = some "invalid JSON" }
has_unresolved_placeholders (json value) = record { found = scan value; error = none }
