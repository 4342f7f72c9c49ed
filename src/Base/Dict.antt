-- ===== src/Base/Dict.antt =====
-- A Go map with string keys, as an association list with one entry to a key. Go ranges over a map
-- in an order that it does not fix: the order of the entries stands for the order of one run.
use Prim.Native.String.{String}
use mathlib.Core.Path.{◌≡◌, refl}
use mathlib.Core.Logic.{◌≢◌}
use mathlib.Core.Option.{Option, none, some}
use mathlib.Core.List.{List, [], ◌∷◌}
use native.Mathlib.Omega.{arith}
use text.Mathlib.Text.{◌==◌}
use text.Mathlib.TextEquality.{eq_iff}
use score_orchestrator.Base.Tests.{if◌then◌else◌}
use score_orchestrator.Base.Lists.{All}

abbrev pub Dict {ℓ} : Type ℓ → Type ℓ
Dict V = List (String × V)

module _ {ℓ} {V : Type ℓ} where
  -- The entries of a map that may be nil.
  abbrev pub entries_of : Option (Dict V) → Dict V
  entries_of none = []
  entries_of (some entries) = entries

  -- v, exists := m[wanted]
  unfoldable pub lookup : String → Dict V → Option V
  lookup wanted [] = none
  lookup wanted ((key, value) ∷ others) = if key == wanted then some value else lookup wanted others

  -- m[set] = new
  unfoldable pub insert : String → V → Dict V → Dict V
  insert set new [] = (set, new) ∷ []
  insert set new ((key, value) ∷ others) =
      if key == set then (set, new) ∷ others else (key, value) ∷ insert set new others

  -- The keys of a map are distinct.
  abbrev pub HasDistinctKeys : Dict V → Type ℓ
  HasDistinctKeys [] = Unit
  HasDistinctKeys ((key, value) ∷ others) = All (λ e. e.0 ≢ key) others × HasDistinctKeys others

  -- The entry that was set is read back, and every other one is what it was.
  pub lookup-insert :
      (set wanted : String) (new : V) (entries : Dict V)
      → lookup wanted (insert set new entries)
        ≡ (if set == wanted then some new else lookup wanted entries)
  unfolding lookup insert
  lookup-insert set wanted new [] = refl
  lookup-insert set wanted new ((key, value) ∷ others) =
      let rest = lookup-insert set wanted new others in
      ground (arith, rest, eq_iff set wanted, eq_iff key set, eq_iff key wanted)
