-- ===== src/Base/Text/Split.antt =====
-- What strings.Split returns for a text with one separator or none.
use Prim.Native.Nat.{ℕ}
use mathlib.Core.Path.{◌≡◌}
use mathlib.Core.Logic.{◌≢◌}
use mathlib.Core.Bool.{false}
use mathlib.Core.List.{[], ◌∷◌, ◌++◌, reverse, reverse-cons, append_assoc, append-nil}
use native.Mathlib.Omega.{arith}
use score_orchestrator.Base.Tests.{eqb}
use score_orchestrator.Base.Lists.{All}
use score_orchestrator.Base.Text.{Codes, split, split_from}

abbrev pub Lacks : ℕ → Codes → Type 0
Lacks sep = All (λ c. c ≢ sep)

module _ (sep : ℕ) where
  split_from-Lacks :
      (piece s : Codes) → Lacks sep s → split_from sep piece s ≡ (reverse piece ++ s) ∷ []
  unfolding split_from
  split_from-Lacks piece [] h = rw append-nil
  split_from-Lacks piece (c ∷ s) (h, hs) =
      let e : eqb c sep ≡ false = ground arith in
      rw (e, split_from-Lacks (c ∷ piece) s hs) (simp (reverse-cons, append_assoc))

  split_from_once :
      (piece s t : Codes)
      → Lacks sep s
      → Lacks sep t
      → split_from sep piece (s ++ sep ∷ t) ≡ (reverse piece ++ s) ∷ t ∷ []
  unfolding split_from
  split_from_once piece [] t h k =
      ground (arith, split_from-Lacks [] t k, append-nil (reverse piece))
  split_from_once piece (c ∷ s) t (h, hs) k =
      let e : eqb c sep ≡ false = ground arith in
      rw (e, split_from_once (c ∷ piece) s t hs k) (simp (reverse-cons, append_assoc))

  pub split-Lacks : (s : Codes) → Lacks sep s → split s sep ≡ s ∷ []
  unfolding split
  split-Lacks s h = split_from-Lacks [] s h

  pub split_once : (s t : Codes) → Lacks sep s → Lacks sep t → split (s ++ sep ∷ t) sep ≡ s ∷ t ∷ []
  unfolding split
  split_once s t h k = split_from_once [] s t h k
