-- ===== src/Config/Fresh.antt =====
-- No error of a name or an id means that it is new: names and ids are distinct.
use score_orchestrator.Base.{
  ℕ, suc, String, Bool, true, false, ◌≡◌, ◌≢◌, refl, sym, inl, inr, Option, List, [], ◌∷◌, ◌++◌,
  ◌==◌, arith, is_empty, All, Bool-cases, string_ne, if◌then◌else◌,
}
use score_orchestrator.Api.Config.{ProfileSpec, BackendSpec}
use score_orchestrator.Selection.Ranking.Best.{HasDistinctIds}
use score_orchestrator.Config.Constraints.{
  FieldPath, FieldError, under, at, when, member, with_name,
}
use score_orchestrator.Config.{
  backend_id_errors, validate_backend, validate_backends, validate_name, validate_profiles_from,
}

module _ {A : Type 0} where
  pub append-eq-nil : (xs ys : List A) → xs ++ ys ≡ [] → (xs ≡ []) × (ys ≡ [])
  append-eq-nil [] ys h = (refl, h)
  append-eq-nil (x ∷ xs) ys h = cc

pub when-eq-nil : (b : Bool) (e : FieldError) → when b e ≡ [] → b ≡ false
when-eq-nil b e h = ground arith

-- The errors of something that is required, and then tested.
pub required-eq-nil :
    (b : Bool) (e : FieldError) (rest : List FieldError)
    → (if b then e ∷ [] else rest) ≡ []
    → (b ≡ false) × (rest ≡ [])
required-eq-nil true e rest h = cc
required-eq-nil false e rest h = (refl, h)

-- An id that is there and was not seen.
abbrev pub IsNewId : List String → String → Type 0
IsNewId seen name = ((name == "") ≡ false) × (member name seen ≡ false)

backend_id-IsNewId :
    (b : BackendSpec) (path : FieldPath) (ids : List String)
    → backend_id_errors b path ids ≡ []
    → IsNewId ids b.backend_id
unfolding backend_id_errors
backend_id-IsNewId b path ids h =
    let (filled, fresh) = required-eq-nil (b.backend_id == "") _ _ h in
    (filled, when-eq-nil (member b.backend_id ids) _ fresh)

-- A name that is new after another was seen is not that one.
new_after :
    (seen : List String) (name other : String)
    → member other (with_name name seen) ≡ false
    → (other ≢ name) × (member other seen ≡ false)
new_after seen name other h = elim (Bool-cases (name == other)) [
  | inl same ↦ absurd (let f = h in ground arith)
  | inr differ ↦ ((λ e. string_ne name other differ (sym e)), ground arith)
]

module _ {A : Type 0} (key : A → String) where
  -- The keys are new, and all different.
  abbrev pub IsFresh : List String → List A → Type 0
  IsFresh seen [] = Unit
  IsFresh seen (x ∷ xs) = IsNewId seen (key x) × IsFresh (with_name (key x) seen) xs

  fresh_keys :
      (seen : List String) (xs : List A)
      → IsFresh seen xs
      → All (λ x. member (key x) seen ≡ false) xs
  fresh_keys seen [] h = tt
  fresh_keys seen (x ∷ xs) (h, hs) =
      (h.1, weaken (key x) seen xs (fresh_keys (with_name (key x) seen) xs hs))
    where
      weaken :
          (name : String) (names : List String) (ys : List A)
          → All (λ y. member (key y) (with_name name names) ≡ false) ys
          → All (λ y. member (key y) names ≡ false) ys
      weaken name names [] k = tt
      weaken name names (y ∷ ys) (k, ks) =
          ((new_after names name (key y) k).1, weaken name names ys ks)

  fresh_others :
      (seen : List String) (name : String) (xs : List A)
      → All (λ x. member (key x) (with_name name seen) ≡ false) xs
      → All (λ x. key x ≢ name) xs
  fresh_others seen name [] h = tt
  fresh_others seen name (x ∷ xs) (h, hs) =
      ((new_after seen name (key x) h).0, fresh_others seen name xs hs)

fresh-HasDistinctIds :
    (seen : List String) (bs : List BackendSpec)
    → IsFresh (λ b. b.backend_id) seen bs
    → HasDistinctIds bs
fresh-HasDistinctIds seen [] h = tt
fresh-HasDistinctIds seen (b ∷ bs) (h, hs) = (
  fresh_others (λ c. c.backend_id) seen b.backend_id bs
      (fresh_keys (λ c. c.backend_id) (with_name b.backend_id seen) bs hs),
  fresh-HasDistinctIds (with_name b.backend_id seen) bs hs,
)

backends-IsFresh :
    (j : ℕ) (bs : List BackendSpec) (path : FieldPath) (ids : List String)
    → (validate_backends j bs path ids).0 ≡ []
    → IsFresh (λ b. b.backend_id) ids bs
unfolding validate_backends validate_backend
backends-IsFresh j [] path ids h = tt
backends-IsFresh j (b ∷ bs) path ids h =
    let (own, rest) = append-eq-nil _ _ h in
    let new = backend_id-IsNewId b (at (under path "backends") j) ids (append-eq-nil _ _ own).0 in
    (
      new,
      backends-IsFresh (suc j) bs path (with_name b.backend_id ids)
          (next (b.backend_id == "") new.0 rest),
    )
  where
    next :
        (empty : Bool)
        → empty ≡ false
        → (validate_backends (suc j) bs path (if empty then ids else with_name b.backend_id ids)).0
          ≡ []
        → (validate_backends (suc j) bs path (with_name b.backend_id ids)).0 ≡ []
    next true e k = absurd cc
    next false e k = k

abbrev pub HasDistinctNames : List ProfileSpec → Type 0
HasDistinctNames [] = Unit
HasDistinctNames (p ∷ ps) = All (λ q. q.name ≢ p.name) ps × HasDistinctNames ps

pub fresh-HasDistinctNames :
    (seen : List String) (ps : List ProfileSpec)
    → IsFresh (λ p. p.name) seen ps
    → HasDistinctNames ps
fresh-HasDistinctNames seen [] h = tt
fresh-HasDistinctNames seen (p ∷ ps) (h, hs) = (
  fresh_others (λ q. q.name) seen p.name ps
      (fresh_keys (λ q. q.name) (with_name p.name seen) ps hs),
  fresh-HasDistinctNames (with_name p.name seen) ps hs,
)

module _ (dns_errors : String → Option String) where
  validate_name-IsNewId :
      (name : String) (path : FieldPath) (names : List String)
      → validate_name dns_errors name path names ≡ []
      → IsNewId names name
  unfolding validate_name
  validate_name-IsNewId name path names h =
      let (filled, rest) = required-eq-nil (name == "") _ _ h in
      let (label, fresh) = append-eq-nil _ _ rest in
      (filled, when-eq-nil (member name names) _ fresh)

  pub profiles-IsFresh :
      (i : ℕ) (ps : List ProfileSpec) (path : FieldPath) (names ids : List String)
      → validate_profiles_from dns_errors i ps path names ids ≡ []
      → IsFresh (λ p. p.name) names ps
        × All (λ p. (is_empty p.backends ≡ false) × HasDistinctIds p.backends) ps
  unfolding validate_profiles_from
  profiles-IsFresh i [] path names ids h = (tt, tt)
  profiles-IsFresh i (p ∷ ps) path names ids h =
      let (before, others) = append-eq-nil _ _ h in
      let (before', backends) = append-eq-nil _ _ before in
      let (name, empty) =
        append-eq-nil (validate_name dns_errors p.name (at path i) names) _ before' in
      let new = validate_name-IsNewId p.name (at path i) names name in
      let (fresh, distinct) =
        profiles-IsFresh (suc i) ps path (with_name p.name names) _
          (next (p.name == "") _ new.0 others) in
      (
        (new, fresh),
        (
          (
            when-eq-nil (is_empty p.backends) _ empty,
            fresh-HasDistinctIds ids p.backends (backends-IsFresh 0 p.backends _ ids backends),
          ),
          distinct,
        ),
      )
    where
      next :
          (empty : Bool) (seen : List String)
          → empty ≡ false
          → validate_profiles_from dns_errors
              (suc i)
              ps
              path
              (if empty then names else with_name p.name names)
              seen
            ≡ []
          → validate_profiles_from dns_errors (suc i) ps path (with_name p.name names) seen ≡ []
      next true seen e k = absurd cc
      next false seen e k = k
