-- ===== src/Selection/Ranking/Best.antt =====
-- The selected backend is the best candidate, and the order of the candidates does not matter.
use Prim.Native.Nat.{Ordering, lt, eq, gt}
use score_orchestrator.Base.{
  ◌↔◌, Bool, not, ◌≡◌, ◌≢◌, ◌∙◌, refl, sym, ap, Option, none, some, List, [], ◌∷◌, arith, inl, inr,
  In, All, All-In, if◌then◌else◌,
}
use score_orchestrator.Base.Int.{ℤ, pos, negsuc, eqb_ℤ, ltb_ℤ}
use score_orchestrator.Base.Text.{codes, codes-injective}
use score_orchestrator.Base.Order.{
  IsPreorder, swap, then_by, is_lt, compare_text, compare_text-IsPreorder, compare_ℤ,
  compare_ℤ-IsPreorder, chain-IsPreorder, on-IsPreorder, dual-IsPreorder, eq_of_compare_text,
}
use score_orchestrator.Api.Config.{BackendSpec}
use score_orchestrator.Selection.Ranking.Sort.{first_of_sort}
use score_orchestrator.Selection.Ranking.{
  SemVer, less_version, less, first_candidate, select_backend,
}

module _ (semver : SemVer) where
  open semver use {Version, new_version, compare, precedence}

  -- Valid versions come first, the newer before the older.
  abbrev compare_version : Option Version → Option Version → Ordering
  compare_version (some v) (some w) = compare w v
  compare_version (some v) none = lt
  compare_version none (some w) = gt
  compare_version none none = eq

  compare_version-IsPreorder : IsPreorder compare_version
  compare_version-IsPreorder = record { swapped = swapped; trans = trans }
    where
      swapped : (a b : Option Version) → compare_version b a ≡ swap (compare_version a b)
      swapped (some v) (some w) = precedence.swapped w v
      swapped (some v) none = refl
      swapped none (some w) = refl
      swapped none none = refl

      trans :
          (a b c : Option Version)
          → compare_version a b ≢ gt
          → compare_version b c ≢ gt
          → compare_version a c ≢ gt
      trans (some u) (some v) (some w) h k = precedence.trans w v u k h
      trans (some u) b none h k = cc
      trans (some u) none (some w) h k = absurd (k refl)
      trans none (some v) c h k = absurd (h refl)
      trans none none c h k = k

  -- Priority (higher first), then version, then id (smaller first).
  abbrev pub ranking : BackendSpec → BackendSpec → Ordering
  ranking a b = then_by (compare_ℤ b.priority a.priority) (
      then_by (compare_version (new_version a.version) (new_version b.version))
        (compare_text (codes a.backend_id) (codes b.backend_id)))

  ranking-IsPreorder : IsPreorder ranking
  ranking-IsPreorder =
      chain-IsPreorder _ _
        (on-IsPreorder (λ (b : BackendSpec). b.priority) _
          (dual-IsPreorder compare_ℤ compare_ℤ-IsPreorder))
        (chain-IsPreorder _ _
          (on-IsPreorder (λ (b : BackendSpec). new_version b.version) _ compare_version-IsPreorder)
          (on-IsPreorder (λ (b : BackendSpec). codes b.backend_id) _ compare_text-IsPreorder))

  less_version-eq :
      (o p : Option Version) (c : Ordering)
      → less_version semver o p (is_lt c) ≡ is_lt (then_by (compare_version o p) c)
  unfolding less
  less_version-eq (some v) (some w) c = ground (arith, precedence.swapped v w)
  less_version-eq (some v) none c = refl
  less_version-eq none (some w) c = refl
  less_version-eq none none c = refl

  -- The function that the code sorts by tells whether one backend ranks before another.
  less-eq-ranking : (a b : BackendSpec) → less semver a b ≡ is_lt (ranking a b)
  unfolding less
  less-eq-ranking a b = by_priority a.priority b.priority _ _ (
      less_version-eq (new_version a.version) (new_version b.version)
        (compare_text (codes a.backend_id) (codes b.backend_id)))
    where
      by_priority :
          (p q : ℤ) (x : Bool) (c : Ordering)
          → x ≡ is_lt c
          → (if not (eqb_ℤ p q) then ltb_ℤ q p else x) ≡ is_lt (then_by (compare_ℤ q p) c)
      by_priority (pos p) (pos q) x c h = ground arith
      by_priority (negsuc p) (negsuc q) x c h = ground arith
      by_priority (pos p) (negsuc q) x c h = ground arith
      by_priority (negsuc p) (pos q) x c h = ground arith

-- The backend ranks at or before each of the candidates.
abbrev pub Best : SemVer → BackendSpec → List BackendSpec → Type 0
Best semver b candidates = All (λ c. ranking semver b c ≢ gt) candidates

abbrev pub HasDistinctIds : List BackendSpec → Type 0
HasDistinctIds [] = Unit
HasDistinctIds (b ∷ bs) = All (λ c. c.backend_id ≢ b.backend_id) bs × HasDistinctIds bs

-- Where there are candidates a backend is selected: it is one of them, and it ranks at or before
-- each of them by priority, then version, then id.
pub select_backend_lem :
    (semver : SemVer) (c : BackendSpec) (candidates : List BackendSpec)
    → (b : BackendSpec) × (select_backend semver (c ∷ candidates) ≡ some b)
      × In b (c ∷ candidates)
      × Best semver b (c ∷ candidates)
unfolding select_backend
select_backend_lem semver c candidates =
    let (b, others, e, member, first) =
      first_of_sort (less semver) (ranking semver) (ranking-IsPreorder semver)
        (less-eq-ranking semver) c candidates in
    (b, ap first_candidate e, member, first)

same_id :
    (cs : List BackendSpec) {b d : BackendSpec}
    → HasDistinctIds cs
    → In b cs
    → In d cs
    → b.backend_id ≡ d.backend_id
    → b ≡ d
same_id [] h m n e = elim m [ ]
same_id (c ∷ cs) h (inl m) (inl n) e = m ∙ sym n
same_id (c ∷ cs) {b} {d} (h, hs) (inl m) (inr n) e =
    absurd (All-In _ cs h n (sym e ∙ ap (λ (x : BackendSpec). x.backend_id) m))
same_id (c ∷ cs) {b} {d} (h, hs) (inr m) (inl n) e =
    absurd (All-In _ cs h m (e ∙ ap (λ (x : BackendSpec). x.backend_id) n))
same_id (c ∷ cs) (h, hs) (inr m) (inr n) e = same_id cs hs m n e

then_by-eq : (o p : Ordering) → then_by o p ≡ eq → p ≡ eq
then_by-eq o p h = ground arith

-- Two backends that rank at or before each other have the same id.
tie_id :
    (semver : SemVer) (a b : BackendSpec)
    → ranking semver a b ≢ gt
    → ranking semver b a ≢ gt
    → a.backend_id ≡ b.backend_id
tie_id semver a b h k =
    let swapped = (ranking-IsPreorder semver).swapped a b in
    let tie : ranking semver a b ≡ eq = not_strict (ranking semver a b) _ swapped h k in
    codes-injective a.backend_id b.backend_id
      (eq_of_compare_text _ _ (then_by-eq _ _ (then_by-eq _ _ tie)))
  where
    not_strict : (o p : Ordering) → p ≡ swap o → o ≢ gt → p ≢ gt → o ≡ eq
    not_strict o p e h k = ground arith

-- The candidates' order does not matter: two lists that are not empty and have the same members,
-- those of the first with distinct ids, give the same backend.
pub select_backend_deterministic :
    (semver : SemVer) (c d : BackendSpec) (cs ds : List BackendSpec)
    → HasDistinctIds (c ∷ cs)
    → ((z : BackendSpec) → In z (c ∷ cs) ↔ In z (d ∷ ds))
    → select_backend semver (c ∷ cs) ≡ select_backend semver (d ∷ ds)
select_backend_deterministic semver c d cs ds h same =
    let (a, selected, member, first) = select_backend_lem semver c cs in
    let (b, selected', member', first') = select_backend_lem semver d ds in
    let b_member = (same b).1 member' in
    let a_first = All-In (λ z. ranking semver a z ≢ gt) (c ∷ cs) first b_member in
    let b_first = All-In (λ z. ranking semver b z ≢ gt) (d ∷ ds) first' ((same a).0 member) in
    let a_is_b = same_id (c ∷ cs) h member b_member (tie_id semver a b a_first b_first) in
    selected ∙ ap some a_is_b ∙ sym selected'
