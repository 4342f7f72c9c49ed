-- ===== src/Projection/Merge.antt =====
-- mergeMaps of internal/reconcile/values.go. A Go value of type interface{} is either a
-- map[string]interface{}, which the merge enters, or anything else, of which only the JSON that it
-- is marshalled to matters: a map[string]string, a slice or a struct is not entered.
pub mod Laws
use score_orchestrator.Base.{String, Option, none, some, List, [], ◌∷◌, ◌==◌, if◌then◌else◌}
use score_orchestrator.Api.Meta.{Json, null, bool, num, str, arr, obj, Fields, end, field}

mutual
  pub data Value : Type 0 where
    leaf : Json → Value
    tree : Entries → Value

  -- A map[string]interface{}, by its entries.
  pub data Entries : Type 0 where
    no_entry : Entries
    entry : String → Value → Entries → Entries

-- What json.Unmarshal stores into an interface{}: an object becomes a map[string]interface{}.
unfoldable mutual
  pub unmarshal : Json → Value
  unmarshal (obj fields) = tree (unmarshal_fields fields)
  unmarshal (str s) = leaf (str s)
  unmarshal (arr items) = leaf (arr items)
  unmarshal null = leaf null
  unmarshal (bool b) = leaf (bool b)
  unmarshal (num n) = leaf (num n)

  pub unmarshal_fields : Fields → Entries
  unmarshal_fields end = no_entry
  unmarshal_fields (field key value fields) = entry key (unmarshal value) (unmarshal_fields fields)

-- json.Marshal
unfoldable mutual
  pub marshal : Value → Json
  marshal (leaf document) = document
  marshal (tree entries) = obj (marshal_entries entries)

  pub marshal_entries : Entries → Fields
  marshal_entries no_entry = end
  marshal_entries (entry key value entries) = field key (marshal value) (marshal_entries entries)

-- value, exists := m[wanted]
unfoldable pub find : String → Entries → Option Value
find wanted no_entry = none
find wanted (entry key value entries) = if key == wanted then some value else find wanted entries

-- m[set] = new
unfoldable pub store : String → Value → Entries → Entries
store set new no_entry = entry set new no_entry
store set new (entry key value entries) =
    if key == set then entry set new entries else entry key value (store set new entries)

-- What the entry of the result under a key becomes where the next map has a value for that key, and
-- the loop over the entries of the next map. The inner call mergeMaps(existing, value) starts with
-- an empty map; its pass over `existing`, the keys of which are distinct, gives it the entries of
-- `existing` (find-merge_pass-no_entry of Merge/Laws.antt), so the call is one pass over `value`
-- onto it.
unfoldable mutual
  unfolding store find

  pub merged_value : Option Value → Value → Value
  merged_value (some (tree existing)) (tree next) = tree (merge_pass existing next)
  merged_value (some (leaf existing)) (tree next) = tree next
  merged_value none (tree next) = tree next
  merged_value _ (leaf next) = leaf next

  pub merge_pass : Entries → Entries → Entries
  merge_pass result no_entry = result
  merge_pass result (entry key value entries) =
      merge_pass (store key (merged_value (find key result) value) result) entries

-- mergeMaps(maps...)
unfoldable pub merge_passes : Entries → List Entries → Entries
unfolding merge_pass
merge_passes result [] = result
merge_passes result (next ∷ maps) = merge_passes (merge_pass result next) maps

unfoldable pub merge_maps : List Entries → Entries
unfolding merge_passes
merge_maps maps = merge_passes no_entry maps
