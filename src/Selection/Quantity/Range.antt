-- ===== src/Selection/Quantity/Range.antt =====
-- What a constraint admits: a range, and the quantity that is written without a dash.
use score_orchestrator.Base.{
  ℕ, ◌+◌, ◌%◌, ◌<◌, ◌≤◌, ◌≡◌, ◌↔◌, ◌∙◌, refl, true, false, some, [], ◌∷◌, ◌++◌, arith, Bool-cases,
  Option-cases, inl, inr, ◌⊎◌, subst, is_empty,
}
use score_orchestrator.Base.Text.{Codes, codes, same_text, same_text_iff}
use score_orchestrator.Base.Text.Split.{Lacks, split-Lacks, split_once}
use score_orchestrator.Selection.Quantity.{
  int64_mod, int64_half, parse_quantity, format_int, in_range, above_minimum, below_maximum,
  validate_quantity_constraint,
}
use score_orchestrator.Selection.Quantity.Decimal.{
  IsNumeral, format_int-IsNumeral, parse_quantity-format_int,
}

-- a ≤ b for the integers that two int64 stand for
abbrev pub SignedLe : ℕ → ℕ → Type 0
SignedLe a b = (a + int64_half) % int64_mod ≤ (b + int64_half) % int64_mod

-- A bound that is written is a quantity, and lies below (above) the total.
abbrev pub AtLeast : Codes → ℕ → Type 0
AtLeast [] n = Unit
AtLeast (c ∷ s) n = (a : ℕ) × (parse_quantity (c ∷ s) ≡ some a) × SignedLe a n

abbrev pub AtMost : Codes → ℕ → Type 0
AtMost [] n = Unit
AtMost (c ∷ s) n = (b : ℕ) × (parse_quantity (c ∷ s) ≡ some b) × SignedLe n b

above_minimum_iff : (n : ℕ) (s : Codes) → (above_minimum n s ≡ true) ↔ AtLeast s n
unfolding above_minimum
above_minimum_iff n [] = ((λ e. tt), (λ h. refl))
above_minimum_iff n (c ∷ s) = (
  λ e. elim (Option-cases (parse_quantity (c ∷ s))) [
    | inl missing ↦ absurd (ground arith)
    | inr (a, found) ↦ (a, found, ground arith)
  ],
  λ (a, found, le). ground arith,
)

below_maximum_iff : (n : ℕ) (s : Codes) → (below_maximum n s ≡ true) ↔ AtMost s n
unfolding below_maximum
below_maximum_iff n [] = ((λ e. tt), (λ h. refl))
below_maximum_iff n (c ∷ s) = (
  λ e. elim (Option-cases (parse_quantity (c ∷ s))) [
    | inl missing ↦ absurd (ground arith)
    | inr (a, found) ↦ (a, found, ground arith)
  ],
  λ (a, found, le). ground arith,
)

is_empty-append_cons : (s : Codes) (c : ℕ) (t : Codes) → is_empty (s ++ c ∷ t) ≡ false
is_empty-append_cons [] c t = refl
is_empty-append_cons (d ∷ s) c t = refl

match_range :
    (actual lo hi : Codes) (n : ℕ)
    → Lacks b'-' lo
    → Lacks b'-' hi
    → parse_quantity actual ≡ some n
    → validate_quantity_constraint actual (lo ++ b'-' ∷ hi) ≡ in_range (some n) lo hi
unfolding validate_quantity_constraint
match_range actual lo hi n h k e =
    rw (is_empty-append_cons lo b'-' hi, split_once b'-' lo hi h k, e)

range_of_parse :
    (actual lo hi : Codes) (n : ℕ)
    → Lacks b'-' lo
    → Lacks b'-' hi
    → parse_quantity actual ≡ some n
    → (validate_quantity_constraint actual (lo ++ b'-' ∷ hi) ≡ true) ↔ (AtLeast lo n × AtMost hi n)
unfolding in_range
range_of_parse actual lo hi n h k e =
    let m = match_range actual lo hi n h k e in
    let (least, least') = above_minimum_iff n lo in
    let (most, most') = below_maximum_iff n hi in
    (
      λ v. elim (Bool-cases (above_minimum n lo)) [
        | inl above ↦ (least above, most (ground arith))
        | inr below ↦ absurd (ground arith)
      ],
      λ (a, b). m ∙ rw (least' a) (most' b),
    )

-- A range "lo-hi", either end left out or not, admits a total of memory or storage, and a total of
-- CPU with its unit, exactly when each end that is written is a quantity and the total lies between
-- them, both ends included. A dash stands in neither end.
pub validate_range_iff :
    (lo hi : Codes) (n : ℕ)
    → Lacks b'-' lo
    → Lacks b'-' hi
    → n < int64_mod
    → ((validate_quantity_constraint (format_int n) (lo ++ b'-' ∷ hi) ≡ true)
        ↔ (AtLeast lo n × AtMost hi n))
      × ((validate_quantity_constraint (format_int n ++ codes "m") (lo ++ b'-' ∷ hi) ≡ true)
          ↔ (AtLeast lo n × AtMost hi n))
validate_range_iff lo hi n h k bound =
    let (plain, milli) = parse_quantity-format_int n bound in
    (
      range_of_parse (format_int n) lo hi n h k plain,
      range_of_parse (format_int n ++ codes "m") lo hi n h k milli,
    )

-- A constraint with no dash is compared as text.
validate_exact :
    (actual s : Codes)
    → Lacks b'-' s
    → is_empty s ≡ false
    → validate_quantity_constraint actual s ≡ same_text actual s
unfolding validate_quantity_constraint
validate_exact actual s h e = rw (e, split-Lacks b'-' s h)

not-IsNumeral : (s t : Codes) → ¬ IsNumeral t → ¬ IsNumeral (s ++ t)
not-IsNumeral [] t h k = h k
not-IsNumeral (c ∷ s) t h (k, ks) = not-IsNumeral s t h ks

unit-not_IsNumeral :
    (digits unit : Codes)
    → (unit ≡ codes "Mi") ⊎ (unit ≡ codes "Gi")
    → (is_empty (digits ++ unit) ≡ false) × (¬ IsNumeral unit)
unit-not_IsNumeral digits unit (inl e) =
    rw e (is_empty-append_cons digits b'M' (codes "i"), λ k. absurd (omega arith))
unit-not_IsNumeral digits unit (inr e) =
    rw e (is_empty-append_cons digits b'G' (codes "i"), λ k. absurd (omega arith))

-- An exact memory or storage constraint that is written with a unit, such as "512Mi" or "1Gi",
-- admits no workload: the total is printed without a unit, and the two texts are compared.
pub exact_unit_admits_none :
    (digits : Codes) (unit : Codes) (n : ℕ)
    → Lacks b'-' (digits ++ unit)
    → (unit ≡ codes "Mi") ⊎ (unit ≡ codes "Gi")
    → validate_quantity_constraint (format_int n) (digits ++ unit) ≡ false
exact_unit_admits_none digits unit n h k =
    let (filled, other) = unit-not_IsNumeral digits unit k in
    validate_exact (format_int n) (digits ++ unit) h filled
    ∙ elim (Bool-cases (same_text (format_int n) (digits ++ unit))) [
      | inl same ↦ absurd (
          not-IsNumeral digits unit other (
            subst IsNumeral ((same_text_iff (format_int n) (digits ++ unit)).0 same)
              (format_int-IsNumeral n)))
      | inr differ ↦ differ
    ]
