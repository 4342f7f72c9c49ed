-- ===== src/Base/Order.antt =====
-- Comparisons that return an Ordering, as total preorders: chained, reversed, and of texts.
use Prim.Native.Nat.{ℕ, compare, Ordering, lt, eq, gt}
use mathlib.Core.Path.{◌≡◌, refl}
use mathlib.Core.Logic.{◌≢◌}
use mathlib.Core.Bool.{Bool, true, false}
use mathlib.Core.List.{[], ◌∷◌}
use native.Mathlib.Omega.{arith}
use score_orchestrator.Base.Int.{ℤ, pos_part, neg_part}
use score_orchestrator.Base.Text.{Codes}
use Prim.Native.Nat.{◌+◌}

abbrev pub swap : Ordering → Ordering
swap lt = gt
swap eq = eq
swap gt = lt

-- The first comparison, and the second where the first is undecided.
abbrev pub then_by : Ordering → Ordering → Ordering
then_by lt o = lt
then_by eq o = o
then_by gt o = gt

abbrev pub is_lt : Ordering → Bool
is_lt lt = true
is_lt eq = false
is_lt gt = false

pub record IsPreorder {ℓ} {A : Type ℓ} (cmp : A → A → Ordering) : Type ℓ where
  pub swapped : (a b : A) → cmp b a ≡ swap (cmp a b)
  pub trans : (a b c : A) → cmp a b ≢ gt → cmp b c ≢ gt → cmp a c ≢ gt

module _ {ℓ} {A : Type ℓ} {cmp : A → A → Ordering} (p : IsPreorder cmp) where
  pub lt_le_trans : (a b c : A) → cmp a b ≡ lt → cmp b c ≢ gt → cmp a c ≡ lt
  lt_le_trans a b c h k = ground (arith, p.swapped a c, p.swapped a b, p.trans b c a)

  pub le_lt_trans : (a b c : A) → cmp a b ≢ gt → cmp b c ≡ lt → cmp a c ≡ lt
  le_lt_trans a b c h k = ground (arith, p.swapped a c, p.swapped b c, p.trans c a b)

module _ {ℓ} {A : Type ℓ} (first second : A → A → Ordering) (p : IsPreorder first)
    (q : IsPreorder second) where
  chain_trans :
      (a b c : A)
      → then_by (first a b) (second a b) ≢ gt
      → then_by (first b c) (second b c) ≢ gt
      → then_by (first a c) (second a c) ≢ gt
  chain_trans a b c h k =
      ground (arith, p.trans a b c, q.trans a b c, lt_le_trans p a b c, le_lt_trans p a b c)

  -- Two preorders, one after the other.
  pub chain-IsPreorder : IsPreorder (λ a b. then_by (first a b) (second a b))
  chain-IsPreorder = record {
    swapped = λ a b. ground (arith, p.swapped a b, q.swapped a b);
    trans = chain_trans;
  }

-- A preorder on keys is one on what has the keys.
pub on-IsPreorder {ℓ κ} :
    {A : Type ℓ} {B : Type κ} (key : A → B) (cmp : B → B → Ordering)
    → IsPreorder cmp
    → IsPreorder (λ a b. cmp (key a) (key b))
on-IsPreorder key cmp p = record {
  swapped = λ a b. p.swapped (key a) (key b);
  trans = λ a b c. p.trans (key a) (key b) (key c);
}

pub dual-IsPreorder {ℓ} :
    {A : Type ℓ} (cmp : A → A → Ordering) → IsPreorder cmp → IsPreorder (λ a b. cmp b a)
dual-IsPreorder cmp p = record {
  swapped = λ a b. p.swapped b a;
  trans = λ a b c h k. p.trans c b a k h;
}

abbrev pub compare_ℤ : ℤ → ℤ → Ordering
compare_ℤ a b = compare (pos_part a + neg_part b) (pos_part b + neg_part a)

pub compare_ℤ-IsPreorder : IsPreorder compare_ℤ
compare_ℤ-IsPreorder = record { swapped = λ a b. ground arith; trans = λ a b c h k. ground arith }

compare-swapped : (a b : ℕ) → compare b a ≡ swap (compare a b)
compare-swapped a b = ground arith

-- a < b on strings is `lt`: the order of UTF-8 bytes is that of the code points.
abbrev pub compare_text : Codes → Codes → Ordering
compare_text [] [] = eq
compare_text [] (b ∷ t) = lt
compare_text (a ∷ s) [] = gt
compare_text (a ∷ s) (b ∷ t) = then_by (compare a b) (compare_text s t)

compare_text-swapped : (s t : Codes) → compare_text t s ≡ swap (compare_text s t)
compare_text-swapped [] [] = refl
compare_text-swapped [] (b ∷ t) = refl
compare_text-swapped (a ∷ s) [] = refl
compare_text-swapped (a ∷ s) (b ∷ t) = ground (arith, compare_text-swapped s t, compare-swapped a b)

compare_text_trans :
    (s t u : Codes) → compare_text s t ≢ gt → compare_text t u ≢ gt → compare_text s u ≢ gt
compare_text_trans [] t [] h k = cc
compare_text_trans [] t (c ∷ u) h k = cc
compare_text_trans (a ∷ s) [] u h k = absurd (h refl)
compare_text_trans (a ∷ s) (b ∷ t) [] h k = absurd (k refl)
compare_text_trans (a ∷ s) (b ∷ t) (c ∷ u) h k = ground (arith, compare_text_trans s t u)

pub compare_text-IsPreorder : IsPreorder compare_text
compare_text-IsPreorder = record { swapped = compare_text-swapped; trans = compare_text_trans }

pub eq_of_compare_text : (s t : Codes) → compare_text s t ≡ eq → s ≡ t
eq_of_compare_text [] [] e = refl
eq_of_compare_text [] (b ∷ t) e = cc
eq_of_compare_text (a ∷ s) [] e = cc
eq_of_compare_text (a ∷ s) (b ∷ t) e = ground (arith, eq_of_compare_text s t)
