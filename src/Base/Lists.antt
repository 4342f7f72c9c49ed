-- ===== src/Base/Lists.antt =====
-- Lists measured by native numbers, the Boolean searches of a loop, and predicates by recursion.
use Prim.Native.Nat.{ℕ, suc, ◌+◌}
use mathlib.Core.Path.{◌≡◌, refl, ap, sym, subst, ◌∙◌}
use mathlib.Core.Logic.{◌⊎◌, ◌↔◌, inl, inr}
use mathlib.Core.Bool.{Bool, true, false, ◌&&◌, ◌||◌, false≢true}
use mathlib.Core.Option.{Option, none, some}
use mathlib.Core.List.{List, [], ◌∷◌, ◌++◌}
use native.Mathlib.Omega.{arith}
use score_orchestrator.Base.Tests.{if◌then◌else◌, Bool-cases}

module _ {ℓ} {A : Type ℓ} where
  abbrev pub length : List A → ℕ
  length [] = 0
  length (x ∷ xs) = suc (length xs)

  -- `len(xs) == 0`
  abbrev pub is_empty : List A → Bool
  is_empty [] = true
  is_empty (x ∷ xs) = false

  abbrev pub any : (A → Bool) → List A → Bool
  any p [] = false
  any p (x ∷ xs) = p x || any p xs

  abbrev pub all : (A → Bool) → List A → Bool
  all p [] = true
  all p (x ∷ xs) = p x && all p xs

  -- The elements that a loop appends under a test.
  abbrev pub keep : (A → Bool) → List A → List A
  keep p [] = []
  keep p (x ∷ xs) = let rest = keep p xs in if p x then x ∷ rest else rest

  -- The first element that passes a test.
  abbrev pub find : (A → Bool) → List A → Option A
  find p [] = none
  find p (x ∷ xs) = let rest = find p xs in if p x then some x else rest

  pub length-append : (xs ys : List A) → length (xs ++ ys) ≡ length xs + length ys
  length-append [] ys = omega arith
  length-append (x ∷ xs) ys = omega (arith, length-append xs ys)

-- Membership with its position kept.
abbrev pub In : {A : Type 0} → A → List A → Type 0
In a [] = ⊥
In a (x ∷ xs) = (a ≡ x) ⊎ In a xs

module _ {ℓ κ} {A : Type ℓ} where
  abbrev pub All : (A → Type κ) → List A → Type κ
  All P [] = Unit
  All P (x ∷ xs) = P x × All P xs

module _ {κ} {A : Type 0} (P : A → Type κ) where
  pub All-In : {z : A} (ys : List A) → All P ys → In z ys → P z
  All-In [] h m = elim m [ ]
  All-In (y ∷ ys) (h, hs) (inl e) = subst P (sym e) h
  All-In (y ∷ ys) (h, hs) (inr m) = All-In ys hs m

  pub All-of : (ys : List A) → ((z : A) → In z ys → P z) → All P ys
  All-of [] f = tt
  All-of (y ∷ ys) f = (f y (inl refl), All-of ys (λ z m. f z (inr m)))

module _ {A : Type 0} (p : A → Bool) where
  pub In-keep : (a : A) (xs : List A) → In a (keep p xs) ↔ (In a xs × (p a ≡ true))
  In-keep a [] = ground arith
  In-keep a (x ∷ xs) = elim (Bool-cases (p x)) [
    | inl kept ↦ rw kept (with_head kept (In-keep a xs))
    | inr dropped ↦ rw dropped (without_head dropped (In-keep a xs))
  ]
    where
      with_head :
          p x ≡ true
          → In a (keep p xs) ↔ (In a xs × (p a ≡ true))
          → ((a ≡ x) ⊎ In a (keep p xs)) ↔ (((a ≡ x) ⊎ In a xs) × (p a ≡ true))
      with_head k ih = (
        elim [ inl e ↦ (inl e, ap p e ∙ k) | inr m ↦ (inr (ih.0 m).0, (ih.0 m).1) ],
        λ (m, t). elim m [ inl e ↦ inl e | inr n ↦ inr (ih.1 (n, t)) ],
      )

      without_head :
          p x ≡ false
          → In a (keep p xs) ↔ (In a xs × (p a ≡ true))
          → In a (keep p xs) ↔ (((a ≡ x) ⊎ In a xs) × (p a ≡ true))
      without_head k ih = (
        λ m. (inr (ih.0 m).0, (ih.0 m).1),
        λ (m, t). elim m [
          | inl e ↦ absurd (false≢true (sym k ∙ (sym (ap p e) ∙ t)))
          | inr n ↦ ih.1 (n, t)
        ],
      )

  -- What a loop with `break` finds passes the test, and is in the list.
  pub find-some : (xs : List A) {x : A} → find p xs ≡ some x → In x xs × (p x ≡ true)
  find-some [] e = cc
  find-some (y ∷ xs) {x} e = elim (Bool-cases (p y)) [
    | inl here ↦ let same : y ≡ x = ground arith in (inl (sym same), sym (ap p same) ∙ here)
    | inr other ↦ let (m, t) = find-some xs {x = x} (ground arith) in (inr m, t)
  ]

  pub find-none : (xs : List A) → find p xs ≡ none → All (λ x. p x ≡ false) xs
  find-none [] e = tt
  find-none (y ∷ xs) e = elim (Bool-cases (p y)) [
    | inl here ↦ absurd (ground arith)
    | inr other ↦ (other, find-none xs (ground arith))
  ]

  pub any_iff : (xs : List A) → (any p xs ≡ true) ↔ ((x : A) × In x xs × (p x ≡ true))
  any_iff [] = ((λ e. cc), λ (x, m, h). elim m [ ])
  any_iff (y ∷ xs) = (
    λ e. elim (Bool-cases (p y)) [
      | inl here ↦ (y, inl refl, here)
      | inr other ↦ let (x, m, h) = (any_iff xs).0 (ground arith) in (x, inr m, h)
    ],
    λ (x, m, h). back ((any_iff xs).1) x m h,
  )
    where
      back :
          ((x : A) × In x xs × (p x ≡ true) → any p xs ≡ true)
          → (x : A) → In x (y ∷ xs)
          → p x ≡ true
          → any p (y ∷ xs) ≡ true
      back ih x (inl e) h = let here = sym (ap p e) ∙ h in rw here
      back ih x (inr m) h = let there = ih (x, m, h) in ground arith
