-- ===== src/Selection/Quantity/Decimal.antt =====
-- What %d prints, ParseInt reads back.
use score_orchestrator.Base.{
  ℕ, zero, suc, ◌+◌, ◌-◌, ◌*◌, ◌/◌, ◌%◌, ◌^◌, ◌<◌, ◌≤◌, ◌≡◌, refl, ◌∙◌, ap, subst, is_empty, false,
  Option-cases, none, some, [], ◌∷◌, ◌++◌, arith, All, ltb, Bool-cases, inl, inr,
}
use score_orchestrator.Base.Text.{Codes, codes, same_text, same_text_iff}
use score_orchestrator.Selection.Quantity.{
  int64_mod, int64_half, scan, parse_digits, parse_int, emit, format_int, strip_suffix,
  parse_quantity, positive, negative,
}
use native.Mathlib.Nat.{pow-suc}

below_tenth : (f n : ℕ) → n < 10 ^ suc f → n / 10 < 10 ^ f
below_tenth f n h = let e : 10 ^ suc f ≡ 10 ^ f * 10 = pow-suc 10 f in omega (arith, e)

scan_digit : (n d : ℕ) (out : Codes) → d < 10 → scan ((b'0' + d) ∷ out) n ≡ scan out (n * 10 + d)
unfolding scan
scan_digit n d out h = ground arith

scan-emit : (f n : ℕ) (out : Codes) → n < 10 ^ f → scan (emit f n out) 0 ≡ scan out n
unfolding emit
scan-emit zero n out h = let e : n ≡ 0 = omega arith in rw e
scan-emit (suc f) n out h = elim (Bool-cases (ltb n 10)) [
  | inl last ↦ rw last (
      scan_digit 0 (n % 10) out (omega arith)
      ∙ ap (scan out) (let b : n < 10 = ground arith in omega arith))
  | inr more ↦ rw more (
      scan-emit f (n / 10) ((b'0' + n % 10) ∷ out) (below_tenth f n h)
      ∙ scan_digit (n / 10) (n % 10) out (omega arith)
      ∙ ap (scan out) (omega arith))
]

-- A printed number starts with a digit.
abbrev StartsWithDigit : Codes → Type 0
StartsWithDigit [] = ⊥
StartsWithDigit (c ∷ s) = (b'0' ≤ c) × (c ≤ b'9')

emit-StartsWithDigit :
    (f n : ℕ) (out : Codes) → StartsWithDigit out → StartsWithDigit (emit f n out)
unfolding emit
emit-StartsWithDigit zero n out h = h
emit-StartsWithDigit (suc f) n out h = elim (Bool-cases (ltb n 10)) [
  | inl last ↦ rw last (omega arith)
  | inr more ↦ rw more (emit-StartsWithDigit f (n / 10) ((b'0' + n % 10) ∷ out) (omega arith))
]

emit_first : (f n : ℕ) → StartsWithDigit (emit (suc f) n [])
unfolding emit
emit_first f n = elim (Bool-cases (ltb n 10)) [
  | inl last ↦ rw last (omega arith)
  | inr more ↦ rw more (emit-StartsWithDigit f (n / 10) ((b'0' + n % 10) ∷ []) (omega arith))
]

parse_digits_of_start : (s : Codes) → StartsWithDigit s → parse_digits s ≡ scan s 0
unfolding parse_digits
parse_digits_of_start [] h = elim h [ ]
parse_digits_of_start (c ∷ s) h = refl

parse_digits-emit : (n : ℕ) → n < 10 ^ 20 → parse_digits (emit 20 n []) ≡ some n
parse_digits-emit n h =
    parse_digits_of_start (emit 20 n []) (emit_first 19 n) ∙ scan-emit 20 n [] h ∙ scan_nil n
  where
    scan_nil : (k : ℕ) → scan [] k ≡ some k
    scan_nil k = unfold scan in refl

parse_int_of_start : (s : Codes) → StartsWithDigit s → parse_int s ≡ positive (parse_digits s)
unfolding parse_int
parse_int_of_start [] h = elim h [ ]
parse_int_of_start (c ∷ s) h = ground arith

parse_int_dash : (s : Codes) → parse_int (b'-' ∷ s) ≡ negative (parse_digits s)
unfolding parse_int
parse_int_dash s = refl

-- Every int64 that %d prints, negative ones included, is read back by ParseInt.
pub parse_int-format_int : (n : ℕ) → n < int64_mod → parse_int (format_int n) ≡ some n
unfolding format_int
parse_int-format_int n h = elim (Bool-cases (ltb n int64_half)) [
  | inl small ↦ rw small (
      parse_int_of_start (emit 20 n []) (emit_first 19 n)
      ∙ ap positive (parse_digits-emit n (omega arith))
      ∙ ground arith)
  | inr large ↦
      let least : int64_half ≤ n = ground arith in
      rw large (
        parse_int_dash (emit 20 (int64_mod - n) [])
        ∙ ap negative (parse_digits-emit (int64_mod - n) (omega arith))
        ∙ ground arith)
]

-- All that %d prints is digits and dashes.
abbrev pub IsNumeral : Codes → Type 0
IsNumeral = All (λ c. c ≤ b'9')

emit-IsNumeral : (f n : ℕ) (out : Codes) → IsNumeral out → IsNumeral (emit f n out)
unfolding emit
emit-IsNumeral zero n out h = h
emit-IsNumeral (suc f) n out h = elim (Bool-cases (ltb n 10)) [
  | inl last ↦ rw last (omega arith, h)
  | inr more ↦ rw more (emit-IsNumeral f (n / 10) ((b'0' + n % 10) ∷ out) (omega arith, h))
]

pub format_int-IsNumeral : (n : ℕ) → IsNumeral (format_int n)
unfolding format_int
format_int-IsNumeral n = elim (Bool-cases (ltb n int64_half)) [
  | inl small ↦ rw small (emit-IsNumeral 20 n [] tt)
  | inr large ↦ rw large (omega arith, emit-IsNumeral 20 (int64_mod - n) [] tt)
]

strip_suffix-IsNumeral : (t s r : Codes) → IsNumeral s → strip_suffix t s ≡ some r → IsNumeral t
unfolding strip_suffix
strip_suffix-IsNumeral [] s r h e = tt
strip_suffix-IsNumeral (d ∷ t) [] r h e = absurd (ground arith)
strip_suffix-IsNumeral (d ∷ t) (c ∷ s) r h e = elim (Bool-cases (same_text (c ∷ s) (d ∷ t))) [
  | inl same ↦ subst IsNumeral ((same_text_iff (c ∷ s) (d ∷ t)).0 same) h
  | inr other ↦ elim (Option-cases (strip_suffix (d ∷ t) s)) [
    | inl missing ↦ absurd (ground arith)
    | inr (r', found) ↦ strip_suffix-IsNumeral (d ∷ t) s r' h.1 found
  ]
]

-- A unit that ends a numeral would be made of digits and dashes.
no_unit : (t s : Codes) → IsNumeral s → ¬ IsNumeral t → strip_suffix t s ≡ none
no_unit t s h k = elim (Option-cases (strip_suffix t s)) [
  | inl missing ↦ missing
  | inr (r, found) ↦ absurd (k (strip_suffix-IsNumeral t s r h found))
]

strip_milli : (s : Codes) → IsNumeral s → strip_suffix (codes "m") (s ++ codes "m") ≡ some s
unfolding strip_suffix
strip_milli [] h = refl
strip_milli (c ∷ s) (h, hs) = ground (arith, strip_milli s hs)

format_int-ne-nil : (n : ℕ) → is_empty (format_int n) ≡ false
unfolding format_int
format_int-ne-nil n = elim (Bool-cases (ltb n int64_half)) [
  | inl small ↦ rw small (not_empty (emit 20 n []) (emit_first 19 n))
  | inr large ↦ rw large
]
  where
    not_empty : (s : Codes) → StartsWithDigit s → is_empty s ≡ false
    not_empty [] h = elim h [ ]
    not_empty (c ∷ s) h = refl

parse_quantity_plain :
    (s : Codes) → IsNumeral s → is_empty s ≡ false → parse_quantity s ≡ parse_int s
unfolding parse_quantity
parse_quantity_plain s h e = ground (
  arith,
  no_unit (codes "m") s h (λ k. absurd (omega arith)),
  no_unit (codes "Mi") s h (λ k. absurd (omega arith)),
  no_unit (codes "Gi") s h (λ k. absurd (omega arith)),
)

parse_quantity_milli : (s : Codes) → IsNumeral s → parse_quantity (s ++ codes "m") ≡ parse_int s
unfolding parse_quantity
parse_quantity_milli [] h = refl
parse_quantity_milli (c ∷ s) h = let e = strip_milli (c ∷ s) h in rw e

-- parseQuantity reads a total of memory or storage, and a total of CPU with its unit, back as the
-- int64 that was printed.
pub parse_quantity-format_int :
    (n : ℕ)
    → n < int64_mod
    → (parse_quantity (format_int n) ≡ some n)
      × (parse_quantity (format_int n ++ codes "m") ≡ some n)
parse_quantity-format_int n h =
    let numeral = format_int-IsNumeral n in
    let read = parse_int-format_int n h in
    (
      parse_quantity_plain (format_int n) numeral (format_int-ne-nil n) ∙ read,
      parse_quantity_milli (format_int n) numeral ∙ read,
    )
