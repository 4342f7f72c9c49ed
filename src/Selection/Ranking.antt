-- ===== src/Selection/Ranking.antt =====
-- selectBackend of internal/selection/selector.go: the order of the candidates, sort.Slice with it,
-- and the first of the sorted ones. The versions are read by the semver library, a parameter.
pub mod Sort
pub mod Best
use Prim.Native.Nat.{Ordering, lt, eq, gt}
use score_orchestrator.Base.{
  String, Bool, true, false, not, Option, none, some, List, [], ◌∷◌, if◌then◌else◌, ◌≡◌,
}
use mathlib.Core.List.{reverse, foldl}
use score_orchestrator.Base.Int.{ℤ, eqb_ℤ, ltb_ℤ}
use score_orchestrator.Base.Text.{codes}
use score_orchestrator.Base.Order.{IsPreorder, is_lt, compare_text}
use score_orchestrator.Api.Config.{BackendSpec}

-- github.com/Masterminds/semver: NewVersion, with `none` for its error, and Compare, which is
-- documented as the precedence order of versions.
pub record SemVer : Type 1 where
  pub Version : Type 0
  pub new_version : String → Option Version
  pub compare : Version → Version → Ordering
  pub precedence : IsPreorder compare

module _ (semver : SemVer) where
  open semver use {Version, new_version, compare}

  less_id : BackendSpec → BackendSpec → Bool
  less_id a b = is_lt (compare_text (codes a.backend_id) (codes b.backend_id))

  -- The comparison of two valid versions, and what decides where they are equal.
  less_compared : Ordering → Bool → Bool
  less_compared gt by_id = true
  less_compared lt by_id = false
  less_compared eq by_id = by_id

  less_version : Option Version → Option Version → Bool → Bool
  less_version (some v) (some w) by_id = less_compared (compare v w) by_id
  less_version (some v) none by_id = true
  less_version none (some w) by_id = false
  less_version none none by_id = by_id

  -- The function that is handed to sort.Slice.
  unfoldable pub less : BackendSpec → BackendSpec → Bool
  unfolding less_id less_compared less_version
  less a b =
      if not (eqb_ℤ a.priority b.priority)
      then ltb_ℤ b.priority a.priority
      else less_version (new_version a.version) (new_version b.version) (less_id a b)

-- sort.Slice as it sorts up to twelve elements: each element in turn moves to the left past those
-- that it is less than. The sorted part is held with its last element at the head.
module _ {A : Type 0} (less_than : A → A → Bool) where
  unfoldable pub move_left : A → List A → List A
  move_left x [] = x ∷ []
  move_left x (y ∷ ys) = if less_than x y then y ∷ move_left x ys else x ∷ y ∷ ys

  unfoldable pub sort_from : List A → List A → List A
  unfolding move_left
  sort_from sorted [] = sorted
  sort_from sorted (x ∷ xs) = sort_from (move_left x sorted) xs

  unfoldable pub sort_slice : List A → List A
  unfolding sort_from
  sort_slice xs = reverse (sort_from [] xs)

-- `candidates[0]`; the caller has made sure that there is a candidate.
abbrev first_candidate : List BackendSpec → Option BackendSpec
first_candidate [] = none
first_candidate (best ∷ others) = some best

unfoldable pub select_backend : SemVer → List BackendSpec → Option BackendSpec
unfolding less sort_slice
select_backend semver candidates = first_candidate (sort_slice (less semver) candidates)
