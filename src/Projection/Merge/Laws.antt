-- ===== src/Projection/Merge/Laws.antt =====
-- What a merge keeps, and what it takes from the map on the right.
use score_orchestrator.Base.{
  String, ◌≡◌, refl, sym, ap, subst, ◌∙◌, ◌≢◌, Option, none, some, List, [], ◌∷◌, Bool-cases, inl,
  inr, ◌⊎◌, arith, ◌==◌, eq_iff, if◌then◌else◌,
}
use score_orchestrator.Api.Meta.{Json, null, bool, num, str, arr, obj, Fields, end, field}
use score_orchestrator.Projection.Merge.{
  Value, leaf, tree, Entries, no_entry, entry, unmarshal, unmarshal_fields, marshal,
  marshal_entries, find, store, merged_value, merge_pass,
}

mutual
  unfolding marshal unmarshal

  marshal-unmarshal_lem : (document : Json) → marshal (unmarshal document) ≡ document
  marshal-unmarshal_lem (obj fields) = ap obj (marshal_entries-unmarshal_fields fields)
  marshal-unmarshal_lem (str s) = refl
  marshal-unmarshal_lem (arr items) = refl
  marshal-unmarshal_lem null = refl
  marshal-unmarshal_lem (bool b) = refl
  marshal-unmarshal_lem (num n) = refl

  marshal_entries-unmarshal_fields :
      (fields : Fields) → marshal_entries (unmarshal_fields fields) ≡ fields
  marshal_entries-unmarshal_fields end = refl
  marshal_entries-unmarshal_fields (field key value fields) =
      λ i. field key (marshal-unmarshal_lem value i) (marshal_entries-unmarshal_fields fields i)

-- A document that is read into a map and written again is the same document.
pub marshal-unmarshal : (document : Json) → marshal (unmarshal document) ≡ document
marshal-unmarshal document = marshal-unmarshal_lem document

-- No entry has the key.
abbrev pub Lacks : String → Entries → Type 0
Lacks k no_entry = Unit
Lacks k (entry key value entries) = (key ≢ k) × Lacks k entries

-- The keys of a map are distinct, and so are those of each map in it.
unfoldable mutual
  pub IsMap : Entries → Type 0
  IsMap no_entry = Unit
  IsMap (entry key value entries) = Lacks key entries × IsMapValue value × IsMap entries

  pub IsMapValue : Value → Type 0
  IsMapValue (leaf document) = Unit
  IsMapValue (tree entries) = IsMap entries

pub find-store :
    (set wanted : String) (new : Value) (entries : Entries)
    → find wanted (store set new entries)
      ≡ (if set == wanted then some new else find wanted entries)
unfolding find store
find-store set wanted new no_entry = refl
find-store set wanted new (entry key value entries) =
    ground (
      arith,
      find-store set wanted new entries,
      eq_iff set wanted,
      eq_iff key set,
      eq_iff key wanted,
    )

pub find-Lacks :
    (wanted : String) (entries : Entries) → Lacks wanted entries → find wanted entries ≡ none
unfolding find
find-Lacks wanted no_entry h = refl
find-Lacks wanted (entry key value entries) h =
    ground (arith, eq_iff key wanted, find-Lacks wanted entries h.1)

-- What a key has after a pass, by what it has in the result so far and in the next map.
abbrev pub overridden : Option Value → Option Value → Option Value
overridden before none = before
overridden before (some next) = some (merged_value before next)

-- One pass of the merge, seen at one key.
pub find-merge_pass :
    (wanted : String) (result next : Entries)
    → IsMap next
    → find wanted (merge_pass result next) ≡ overridden (find wanted result) (find wanted next)
unfolding merge_pass find IsMap
find-merge_pass wanted result no_entry h = refl
find-merge_pass wanted result (entry key value entries) h =
    find-merge_pass wanted (store key (merged_value (find key result) value) result) entries h.2
    ∙ elim (Bool-cases (key == wanted)) [
      | inl same ↦
          let e = (eq_iff key wanted).0 same in
          let absent = find-Lacks wanted entries (subst (λ k. Lacks k entries) e h.0) in
          rw (find-store key wanted (merged_value (find key result) value) result, same, absent)
            (ap (λ k. some (merged_value (find k result) value)) e)
      | inr other ↦ rw (find-store key wanted (merged_value (find key result) value) result, other)
    ]

-- The value at the end of a path of keys.
abbrev pub from_entry : (Value → Option Value) → Option Value → Option Value
from_entry rest none = none
from_entry rest (some value) = rest value

unfoldable pub value_at : List String → Value → Option Value
value_at [] value = some value
value_at (k ∷ path) (leaf document) = none
value_at (k ∷ path) (tree entries) = from_entry (value_at path) (find k entries)

-- The map says nothing about the path: it has maps on the way, and then no entry.
abbrev pub UnlessAbsent : (Value → Type 0) → Option Value → Type 0
UnlessAbsent rest none = Unit
UnlessAbsent rest (some value) = rest value

unfoldable pub Untouched : List String → Value → Type 0
Untouched [] value = ⊥
Untouched (k ∷ path) (leaf document) = ⊥
Untouched (k ∷ path) (tree entries) = UnlessAbsent (Untouched path) (find k entries)

find-IsMap :
    (k : String) (entries : Entries) → IsMap entries → UnlessAbsent IsMapValue (find k entries)
unfolding find IsMap
find-IsMap k no_entry h = tt
find-IsMap k (entry key held entries) h = elim (Bool-cases (key == k)) [
  | inl same ↦ rw same h.1
  | inr other ↦ rw other (find-IsMap k entries h.2)
]

value_at-Untouched :
    (path : List String) (value : Value) → Untouched path value → value_at path value ≡ none
unfolding value_at Untouched
value_at-Untouched [] value h = elim h [ ]
value_at-Untouched (k ∷ path) (leaf document) h = elim h [ ]
value_at-Untouched (k ∷ path) (tree entries) h =
    elim (find k entries)
        as (λ o. UnlessAbsent (Untouched path) o → from_entry (value_at path) o ≡ none) [
          | none ↦ λ u. refl
          | some value ↦ λ u. value_at-Untouched path value u
        ]
      h

-- A value of the map on the right that is no map is what the merge has there.
value_at-merged_value_right :
    (path : List String) (before : Option Value) (next : Value) {document : Json}
    → IsMapValue next
    → value_at path next ≡ some (leaf document)
    → value_at path (merged_value before next) ≡ some (leaf document)
unfolding value_at merged_value IsMap
value_at-merged_value_right path none (leaf d) m e = e
value_at-merged_value_right path (some (leaf b)) (leaf d) m e = e
value_at-merged_value_right path (some (tree b)) (leaf d) m e = e
value_at-merged_value_right path none (tree next) m e = e
value_at-merged_value_right path (some (leaf b)) (tree next) m e = e
value_at-merged_value_right [] (some (tree b)) (tree next) m e = cc
value_at-merged_value_right (k ∷ path) (some (tree b)) (tree next) {document} m e =
    let found = λ (o : Option Value). from_entry (value_at path) o ≡ some (leaf document) in
    rw (find-merge_pass k b next m) (
      elim (find k next)
          as (λ o. UnlessAbsent IsMapValue o → found o → found (overridden (find k b) o)) [
            | none ↦ λ w h. cc
            | some v ↦ λ w h. value_at-merged_value_right path (find k b) v w h
          ]
        (find-IsMap k next m) e)

-- Where the map on the right says nothing, the merge has what it had.
value_at-merged_value_left :
    (path : List String) (before : Option Value) (next : Value)
    → IsMapValue next
    → Untouched path next
    → value_at path (merged_value before next) ≡ from_entry (value_at path) before
unfolding value_at merged_value Untouched IsMap
value_at-merged_value_left [] before next m u = elim u [ ]
value_at-merged_value_left (k ∷ path) before (leaf d) m u = elim u [ ]
value_at-merged_value_left (k ∷ path) none (tree next) m u =
    value_at-Untouched (k ∷ path) (tree next) u
value_at-merged_value_left (k ∷ path) (some (leaf b)) (tree next) m u =
    value_at-Untouched (k ∷ path) (tree next) u
value_at-merged_value_left (k ∷ path) (some (tree b)) (tree next) m u =
    let at_key = λ (o : Option Value). from_entry (value_at path) o in
    rw (find-merge_pass k b next m) (
      elim (find k next)
          as (λ o.
            UnlessAbsent IsMapValue o
            → UnlessAbsent (Untouched path) o
            → at_key (overridden (find k b) o) ≡ at_key (find k b)) [
              | none ↦ λ w v. refl
              | some v ↦ λ w t. value_at-merged_value_left path (find k b) v w t
            ]
        (find-IsMap k next m) u)

-- At the path the map has a value that is no map.
abbrev pub HasLeaf : List String → Entries → Type 0
HasLeaf path entries = (document : Json) × (value_at path (tree entries) ≡ some (leaf document))

abbrev pub or_else : Option Value → Option Value → Option Value
or_else none other = other
or_else (some value) other = some value

-- The merge of two maps, the second on the right and its keys distinct: at a path where the second
-- has a value that is no map, or about which it says nothing, the result has the value of the
-- second, and if it has none there what the first had, be it a value or none.
pub merge_pass-precedence :
    (path : List String) (first second : Entries)
    → IsMap second
    → HasLeaf path second ⊎ Untouched path (tree second)
    → value_at path (tree (merge_pass first second))
      ≡ or_else (value_at path (tree second)) (value_at path (tree first))
unfolding merged_value IsMap
merge_pass-precedence path first second m (inl l) =
    value_at-merged_value_right path (some (tree first)) (tree second) m l.1
    ∙ ap (λ v. or_else v (value_at path (tree first))) (sym l.1)
merge_pass-precedence path first second m (inr u) =
    value_at-merged_value_left path (some (tree first)) (tree second) m u
    ∙ ap (λ v. or_else v (value_at path (tree first)))
        (sym (value_at-Untouched path (tree second) u))

-- A pass over a map onto the empty one gives a map with the same entries, so mergeMaps(existing,
-- value) is one pass over `value` onto `existing`.
pub find-merge_pass-no_entry :
    (wanted : String) (existing : Entries)
    → IsMap existing
    → find wanted (merge_pass no_entry existing) ≡ find wanted existing
unfolding find merged_value
find-merge_pass-no_entry wanted existing m =
    find-merge_pass wanted no_entry existing m
    ∙ (elim (find wanted existing) as (λ o. overridden none o ≡ o) [
      | none ↦ refl
      | some value ↦ ap some (merged_value-none value)
    ])
  where
    merged_value-none : (value : Value) → merged_value none value ≡ value
    merged_value-none (leaf d) = refl
    merged_value-none (tree e) = refl

Lacks-store :
    (k set : String) (new : Value) (entries : Entries)
    → set ≢ k
    → Lacks k entries
    → Lacks k (store set new entries)
unfolding store
Lacks-store k set new no_entry h l = (h, tt)
Lacks-store k set new (entry key value entries) h l = elim (Bool-cases (key == set)) [
  | inl same ↦ rw same (h, l.1)
  | inr other ↦ rw other (l.0, Lacks-store k set new entries h l.1)
]

-- m[set] = new keeps the keys distinct.
pub store-IsMap :
    (set : String) (new : Value) (entries : Entries)
    → IsMapValue new
    → IsMap entries
    → IsMap (store set new entries)
unfolding store IsMap
store-IsMap set new no_entry n m = (tt, n, tt)
store-IsMap set new (entry key value entries) n m = elim (Bool-cases (key == set)) [
  | inl same ↦ rw same (subst (λ k. Lacks k entries) ((eq_iff key set).0 same) m.0, n, m.2)
  | inr other ↦
      let apart : set ≢ key = ground (arith, eq_iff key set) in
      rw other (Lacks-store key set new entries apart m.0, m.1, store-IsMap set new entries n m.2)
]
