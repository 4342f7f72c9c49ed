-- ===== src/Selection/Ranking/Sort.antt =====
-- sort.Slice puts first an element that no other ranks before.
use Prim.Native.Nat.{Ordering, gt}
use score_orchestrator.Base.{
  Bool, ◌≡◌, ◌≢◌, ◌↔◌, ◌∙◌, refl, sym, subst, List, [], ◌∷◌, ◌++◌, arith, inl, inr, ◌⊎◌, In, All,
  All-In, All-of, Bool-cases,
}
use mathlib.Core.List.{reverse, reverse-cons}
use score_orchestrator.Base.Order.{IsPreorder, is_lt}
use score_orchestrator.Selection.Ranking.{move_left, sort_from, sort_slice}

-- Sorting by any function that comes from a preorder leaves no element before one that it is not
-- less than; the list is held from the last element to the first.
module _ {A : Type 0} (less_than : A → A → Bool) (cmp : A → A → Ordering) (p : IsPreorder cmp)
    (same : (a b : A) → less_than a b ≡ is_lt (cmp a b)) where
  abbrev IsSorted : List A → Type 0
  IsSorted [] = Unit
  IsSorted (y ∷ ys) = All (λ z. cmp z y ≢ gt) ys × IsSorted ys

  move_left-All :
      (P : A → Type 0) (x : A) (ys : List A) → P x → All P ys → All P (move_left less_than x ys)
  unfolding move_left
  move_left-All P x [] h k = (h, tt)
  move_left-All P x (y ∷ ys) h (k, ks) = elim (Bool-cases (less_than x y)) [
    | inl less ↦ rw less (k, move_left-All P x ys h ks)
    | inr other ↦ rw other (h, (k, ks))
  ]

  move_left-IsSorted : (x : A) (ys : List A) → IsSorted ys → IsSorted (move_left less_than x ys)
  unfolding move_left
  move_left-IsSorted x [] h = (tt, tt)
  move_left-IsSorted x (y ∷ ys) (h, hs) = elim (Bool-cases (less_than x y)) [
    | inl less ↦ rw less (
      move_left-All (λ z. cmp z y ≢ gt) x ys (ground (arith, same x y)) h,
      move_left-IsSorted x ys hs,
    )
    | inr other ↦
        let after : cmp y x ≢ gt = ground (arith, same x y, p.swapped x y) in
        rw other (
          (
            after,
            All-of (λ z. cmp z x ≢ gt) ys
                (λ z m. p.trans z y x (All-In (λ w. cmp w y ≢ gt) ys h m) after),
          ),
          (h, hs),
        )
  ]

  sort_from-IsSorted : (ys xs : List A) → IsSorted ys → IsSorted (sort_from less_than ys xs)
  unfolding sort_from
  sort_from-IsSorted ys [] h = h
  sort_from-IsSorted ys (x ∷ xs) h =
      sort_from-IsSorted (move_left less_than x ys) xs (move_left-IsSorted x ys h)

  In-move_left : (z x : A) (ys : List A) → In z (move_left less_than x ys) ↔ ((z ≡ x) ⊎ In z ys)
  unfolding move_left
  In-move_left z x [] = ground arith
  In-move_left z x (y ∷ ys) = ground (arith, In-move_left z x ys)

  In-sort_from : (z : A) (ys xs : List A) → In z (sort_from less_than ys xs) ↔ (In z ys ⊎ In z xs)
  unfolding sort_from
  In-sort_from z ys [] = ground arith
  In-sort_from z ys (x ∷ xs) =
      ground (arith, In-sort_from z (move_left less_than x ys) xs, In-move_left z x ys)

  le_self : (y z : A) → y ≡ z → cmp y z ≢ gt
  le_self y z e = ground (arith, p.swapped y y)

  concat-ne-nil : (l : List A) (a : A) → l ++ a ∷ [] ≢ []
  concat-ne-nil [] a = cc
  concat-ne-nil (x ∷ l) a = cc

  -- What is last in a sorted list is first in its reverse, and at or before all of the list.
  first_of_reverse :
      (l : List A) (b : A) (others : List A)
      → IsSorted l
      → reverse l ≡ b ∷ others
      → In b l × All (λ z. cmp b z ≢ gt) l
  first_of_reverse [] b others h e = cc
  first_of_reverse (y ∷ []) b others h e =
      let b_is_y : b ≡ y = cc in (inl b_is_y, (le_self b y b_is_y, tt))
  first_of_reverse (y ∷ x ∷ ys) b others (h, hs) e =
      last (λ c cs. first_of_reverse (x ∷ ys) c cs hs) (reverse (x ∷ ys)) refl
        (sym (reverse-cons y (x ∷ ys)) ∙ e)
    where
      last :
          ((c : A) (cs : List A)
            → reverse (x ∷ ys) ≡ c ∷ cs
            → In c (x ∷ ys) × All (λ z. cmp c z ≢ gt) (x ∷ ys))
          → (r : List A) → reverse (x ∷ ys) ≡ r
          → r ++ y ∷ [] ≡ b ∷ others
          → In b (y ∷ x ∷ ys) × All (λ z. cmp b z ≢ gt) (y ∷ x ∷ ys)
      last ih [] f g = absurd (concat-ne-nil (reverse ys) x (sym (reverse-cons x ys) ∙ f))
      last ih (c ∷ cs) f g =
          let b_is_c : b ≡ c = cc in
          let (member, first) = ih c cs f in
          let inside = subst (λ d. In d (x ∷ ys)) (sym b_is_c) member in
          (
            inr inside,
            (
              All-In (λ z. cmp z y ≢ gt) (x ∷ ys) h inside,
              subst (λ d. All (λ z. cmp d z ≢ gt) (x ∷ ys)) (sym b_is_c) first,
            ),
          )

  first_of_reverse_list :
      (x : A) (l r : List A)
      → In x l
      → IsSorted l
      → reverse l ≡ r
      → (b : A) × (others : List A) × (r ≡ b ∷ others) × In b l × All (λ z. cmp b z ≢ gt) l
  first_of_reverse_list x [] r m h e = elim m [ ]
  first_of_reverse_list x (y ∷ ys) [] m h e =
      absurd (concat-ne-nil (reverse ys) y (sym (reverse-cons y ys) ∙ e))
  first_of_reverse_list x (y ∷ ys) (b ∷ others) m h e =
      let (member, first) = first_of_reverse (y ∷ ys) b others h e in
      (b, others, refl, member, first)

  -- What sort.Slice puts first is an element that no element ranks before.
  pub first_of_sort :
      (x : A) (xs : List A)
      → (b : A) × (others : List A) × (sort_slice less_than (x ∷ xs) ≡ b ∷ others)
        × In b (x ∷ xs)
        × All (λ z. cmp b z ≢ gt) (x ∷ xs)
  unfolding sort_slice
  first_of_sort x xs =
      let sorted = sort_from less_than [] (x ∷ xs) in
      let present = λ (z : A) (m : In z (x ∷ xs)). (In-sort_from z [] (x ∷ xs)).1 (inr m) in
      let (b, others, e, member, first) =
        first_of_reverse_list x sorted (reverse sorted) (present x (inl refl))
          (sort_from-IsSorted [] (x ∷ xs) tt) refl in
      (
        b,
        others,
        e,
        from_sorted ((In-sort_from b [] (x ∷ xs)).0 member),
        All-of (λ z. cmp b z ≢ gt) (x ∷ xs)
            (λ z m. All-In (λ w. cmp b w ≢ gt) sorted first (present z m)),
      )
    where
      from_sorted : {z : A} → In z [] ⊎ In z (x ∷ xs) → In z (x ∷ xs)
      from_sorted (inl m) = elim m [ ]
      from_sorted (inr m) = m
