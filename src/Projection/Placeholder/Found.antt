-- ===== src/Projection/Placeholder/Found.antt =====
-- What the search for placeholders finds, against a description of it that names the parts of the
-- text.
use score_orchestrator.Base.{
  ℕ, String, ◌≡◌, refl, ap, ◌∙◌, ◌≢◌, ◌↔◌, inl, inr, true, ◌&&◌, Bool-cases, [], ◌∷◌, ◌++◌, arith,
  eqb,
}
use score_orchestrator.Base.Text.{Codes, codes}
use score_orchestrator.Api.Meta.{
  Json, null, bool, num, str, arr, obj, Items, nil, cons, Fields, end, field, json,
}
use score_orchestrator.Projection.Placeholder.{
  closes, has_braces, match_string, scan, scan_items, scan_fields, has_unresolved_placeholders,
}

-- A text with no closing brace in it.
abbrev pub IsOpen : Codes → Type 0
IsOpen [] = Unit
IsOpen (c ∷ s) = (c ≢ b'}') × IsOpen s

-- The text holds a dollar sign, an opening brace, something without a closing brace, and a closing
-- brace.
abbrev pub HasPlaceholder : Codes → Type 0
HasPlaceholder s =
    (before : Codes) × (c : ℕ) × (body : Codes) × (after : Codes) × (s
      ≡ before ++ (b'$' ∷ b'{' ∷ c ∷ (body ++ (b'}' ∷ after))))
    × IsOpen (c ∷ body)

closes-IsOpen : (body after : Codes) → closes (body ++ (b'}' ∷ after)) ≡ true
unfolding closes
closes-IsOpen [] after = refl
closes-IsOpen (c ∷ body) after = ground (arith, closes-IsOpen body after)

closed_at :
    (s : Codes)
    → closes s ≡ true
    → (body : Codes) × (after : Codes) × (s ≡ body ++ (b'}' ∷ after)) × IsOpen body
unfolding closes
closed_at [] h = cc
closed_at (c ∷ s) h = elim (Bool-cases (eqb c b'}')) [
  | inl yes' ↦ ([], s, ground arith, tt)
  | inr no' ↦
      let rest = closed_at s (ground arith) in
      (c ∷ rest.0, rest.1, ap (λ t. c ∷ t) rest.2, (ground arith, rest.3))
]

braced_at :
    (s : Codes)
    → has_braces s ≡ true
    → (c : ℕ) × (body : Codes) × (after : Codes) × (s ≡ b'{' ∷ c ∷ (body ++ (b'}' ∷ after)))
      × IsOpen (c ∷ body)
unfolding has_braces
braced_at [] h = cc
braced_at (b ∷ []) h = ground arith
braced_at (b ∷ c ∷ s) h =
    let rest = closed_at s (ground arith) in
    (c, rest.0, rest.1, ground arith, (ground arith, rest.3))

found_at : (s : Codes) → match_string s ≡ true → HasPlaceholder s
unfolding match_string
found_at [] h = cc
found_at (c ∷ s) h = elim (Bool-cases (eqb c b'$' && has_braces s)) [
  | inl here ↦
      let rest = braced_at s (ground arith) in ([], rest.0, rest.1, rest.2, ground arith, rest.4)
  | inr later ↦
      let rest = found_at s (ground arith) in
      (c ∷ rest.0, rest.1, rest.2, rest.3, ap (λ t. c ∷ t) rest.4, rest.5)
]

match_string-placed :
    (before : Codes) (c : ℕ) (body after : Codes)
    → c ≢ b'}'
    → match_string (before ++ (b'$' ∷ b'{' ∷ c ∷ (body ++ (b'}' ∷ after)))) ≡ true
unfolding match_string has_braces
match_string-placed [] c body after h = ground (arith, closes-IsOpen body after)
match_string-placed (b ∷ before) c body after h =
    ground (arith, match_string-placed before c body after h)

-- MatchString finds a match exactly in the texts that hold a placeholder.
pub match_string_iff : (s : Codes) → (match_string s ≡ true) ↔ HasPlaceholder s
match_string_iff s =
    (found_at s, λ p. ap match_string p.4 ∙ match_string-placed p.0 p.1 p.2 p.3 p.5.0)

-- The strings that are values in a document, at any depth.
mutual
  pub data Occurs : String → Json → Type 0 where
    here : (s : String) → Occurs s (str s)
    in_arr : {s : String} (items : Items) → OccursItem s items → Occurs s (arr items)
    in_obj : {s : String} (fields : Fields) → OccursField s fields → Occurs s (obj fields)

  pub data OccursItem : String → Items → Type 0 where
    head_item : {s : String} (j : Json) (items : Items) → Occurs s j → OccursItem s (cons j items)
    tail_item :
        {s : String} (j : Json) (items : Items) → OccursItem s items → OccursItem s (cons j items)

  pub data OccursField : String → Fields → Type 0 where
    head_field :
        {s : String} (key : String) (j : Json) (fields : Fields)
        → Occurs s j
        → OccursField s (field key j fields)
    tail_field :
        {s : String} (key : String) (j : Json) (fields : Fields)
        → OccursField s fields
        → OccursField s (field key j fields)

mutual
  unfolding scan

  scan-Occurs : {s : String} (j : Json) → Occurs s j → match_string (codes s) ≡ true → scan j ≡ true
  scan-Occurs _ (here s) h = h
  scan-Occurs _ (in_arr items o) h = scan_items-Occurs items o h
  scan-Occurs _ (in_obj fields o) h = scan_fields-Occurs fields o h

  scan_items-Occurs :
      {s : String} (items : Items)
      → OccursItem s items
      → match_string (codes s) ≡ true
      → scan_items items ≡ true
  scan_items-Occurs _ (head_item j items o) h = ground (arith, scan-Occurs j o h)
  scan_items-Occurs _ (tail_item j items o) h = ground (arith, scan_items-Occurs items o h)

  scan_fields-Occurs :
      {s : String} (fields : Fields)
      → OccursField s fields
      → match_string (codes s) ≡ true
      → scan_fields fields ≡ true
  scan_fields-Occurs _ (head_field key j fields o) h = ground (arith, scan-Occurs j o h)
  scan_fields-Occurs _ (tail_field key j fields o) h = ground (arith, scan_fields-Occurs fields o h)

mutual
  unfolding scan

  scan_found :
      (j : Json) → scan j ≡ true → (s : String) × Occurs s j × (match_string (codes s) ≡ true)
  scan_found (str s) h = (s, here s, h)
  scan_found (arr items) h = let o = scan_items_found items h in (o.0, in_arr items o.1, o.2)
  scan_found (obj fields) h = let o = scan_fields_found fields h in (o.0, in_obj fields o.1, o.2)
  scan_found null h = cc
  scan_found (bool b) h = cc
  scan_found (num n) h = cc

  scan_items_found :
      (items : Items)
      → scan_items items ≡ true
      → (s : String) × OccursItem s items × (match_string (codes s) ≡ true)
  scan_items_found nil h = cc
  scan_items_found (cons j items) h = elim (Bool-cases (scan j)) [
    | inl yes' ↦ let o = scan_found j yes' in (o.0, head_item j items o.1, o.2)
    | inr no' ↦ let o = scan_items_found items (ground arith) in (o.0, tail_item j items o.1, o.2)
  ]

  scan_fields_found :
      (fields : Fields)
      → scan_fields fields ≡ true
      → (s : String) × OccursField s fields × (match_string (codes s) ≡ true)
  scan_fields_found end h = cc
  scan_fields_found (field key j fields) h = elim (Bool-cases (scan j)) [
    | inl yes' ↦ let o = scan_found j yes' in (o.0, head_field key j fields o.1, o.2)
    | inr no' ↦
        let o = scan_fields_found fields (ground arith) in (o.0, tail_field key j fields o.1, o.2)
  ]

-- A document that can be parsed is reported to hold an unresolved placeholder exactly when one of
-- its strings, at any depth of arrays and objects, has a dollar sign and an opening brace, at least
-- one character that is no closing brace, and a closing brace after that; the names of the fields
-- are not searched.
pub has_unresolved_placeholders_iff :
    (document : Json)
    → ((has_unresolved_placeholders (json document)).found ≡ true)
      ↔ ((s : String) × Occurs s document × HasPlaceholder (codes s))
unfolding has_unresolved_placeholders
has_unresolved_placeholders_iff document = (
  λ h. let o = scan_found document h in (o.0, o.1, (match_string_iff (codes o.0)).0 o.2),
  λ o. scan-Occurs document o.1 ((match_string_iff (codes o.0)).1 o.2),
)
