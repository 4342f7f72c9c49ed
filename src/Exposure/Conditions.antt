-- ===== src/Exposure/Conditions.antt =====
-- What the loop of mirrorConditions (internal/controller/exposure_mirror_controller.go) leaves of the
-- conditions of a Workload.
use score_orchestrator.Base.{
  ℕ, String, Bool, true, false, ◌||◌, ◌==◌, eq_iff, ◌≡◌, refl, sym, ap, ◌∙◌, ◌⊎◌, inl, inr, Option,
  none, some, List, [], ◌∷◌, arith, if◌then◌else◌, Bool-cases,
}
use score_orchestrator.Api.Meta.{Condition}
use score_orchestrator.Conditions.Laws.{same_status_iff, shown}
use score_orchestrator.Exposure.{
  find_condition, set_status_condition, changes, mirror_condition, mirror_each,
}

-- The last condition of a type.
abbrev pub last_of : String → List Condition → Option Condition
last_of t [] = none
last_of t (c ∷ cs) = elim (last_of t cs) [
  | some d ↦ some d
  | none ↦ if c.type == t then some c else none
]

abbrev pub or_before : Option Condition → Option Condition → Option Condition
or_before none before = before
or_before (some c) before = some c

find-set :
    (now : ℕ) (new : Condition) (cs : List Condition) (t : String)
    → shown (find_condition (set_status_condition now new cs) t)
      ≡ (if new.type == t then shown (some new) else shown (find_condition cs t))
unfolding find_condition set_status_condition
find-set now new [] t = ground arith
find-set now new (c ∷ cs) t =
    let rest = find-set now new cs t in
    ground (arith, rest, eq_iff c.type new.type, eq_iff c.type t, eq_iff new.type t)

changes-shown :
    (before : Option Condition) (new : Condition)
    → changes before new ≡ false
    → shown before ≡ shown (some new)
unfolding changes
changes-shown none new h = cc
changes-shown (some c) new h =
    let s = same_status_iff c.status new.status in
    let r = eq_iff c.reason new.reason in
    let m = eq_iff c.message new.message in ground (arith, s, r, m)

find-mirror_condition :
    (now : ℕ) (new : Condition) (cs : List Condition) (t : String)
    → shown (find_condition (mirror_condition now new cs).0 t)
      ≡ (if new.type == t then shown (some new) else shown (find_condition cs t))
unfolding mirror_condition
find-mirror_condition now new cs t = elim (Bool-cases (changes (find_condition cs new.type) new)) [
  | inl h ↦ rw h (find-set now new cs t)
  | inr h ↦ rw h (same (Bool-cases (new.type == t)) (changes-shown _ new h))
]
  where
    same :
        ((new.type == t) ≡ true) ⊎ ((new.type == t) ≡ false)
        → shown (find_condition cs new.type) ≡ shown (some new)
        → shown (find_condition cs t)
          ≡ (if new.type == t then shown (some new) else shown (find_condition cs t))
    same (inl e) h =
        rw e (ap (λ k. shown (find_condition cs k)) (sym ((eq_iff new.type t).0 e)) ∙ h)
    same (inr e) h = rw e refl

-- Every type says what its last mirrored condition says, or what it said before.
pub find-mirror_each :
    (now : ℕ) (news cs : List Condition) (t : String)
    → shown (find_condition (mirror_each now news cs).0 t)
      ≡ shown (or_before (last_of t news) (find_condition cs t))
unfolding mirror_each
find-mirror_each now [] cs t = refl
find-mirror_each now (new ∷ news) cs t =
    let rest = find-mirror_each now news (mirror_condition now new cs).0 t in
    let here = find-mirror_condition now new cs t in ground (arith, rest, here)

pub or_false : (a b : Bool) → (a || b) ≡ false → (a ≡ false) × (b ≡ false)
or_false true b h = cc
or_false false b h = (refl, h)

mirror_condition-kept :
    (now : ℕ) (new : Condition) (cs : List Condition)
    → (mirror_condition now new cs).1 ≡ false
    → (mirror_condition now new cs).0 ≡ cs
unfolding mirror_condition
mirror_condition-kept now new cs h = ground arith

pub mirror_each-kept :
    (now : ℕ) (news cs : List Condition)
    → (mirror_each now news cs).1 ≡ false
    → (mirror_each now news cs).0 ≡ cs
unfolding mirror_each
mirror_each-kept now [] cs h = refl
mirror_each-kept now (new ∷ news) cs h =
    let (here, later) = or_false (mirror_condition now new cs).1 _ h in
    mirror_each-kept now news (mirror_condition now new cs).0 later
    ∙ mirror_condition-kept now new cs here
