-- ===== src/Selection/Pipeline/Selected.antt =====
-- What SelectBackend returns, and when it fails.
use score_orchestrator.Base.{
  String, true, false, ◌≡◌, ◌∙◌, refl, sym, ap, ◌⊎◌, inl, inr, Option, none, some, List, [], ◌∷◌,
  arith, eq_iff, is_empty, find, In, All, All-of, All-In, find-none, subst, find-some,
  if◌then◌else◌,
}
use mathlib.Core.Bool.{false≢true}
use score_orchestrator.Base.Result.{Result, ok, err, ◌>>=◌, >>=-eq-ok}
use score_orchestrator.Api.Workload.{Workload}
use score_orchestrator.Api.Config.{OrchestratorConfig, ProfileSpec, BackendSpec}
use score_orchestrator.Selection.Ranking
use score_orchestrator.Selection.Ranking.{SemVer}
use score_orchestrator.Selection.Ranking.Best.{Best, select_backend_lem}
use score_orchestrator.Selection.Pipeline.{
  LabelMatcher, SelectError, no_candidates, SelectedBackend, is_named, select_profile,
  filter_backends, selected, best_of, select_from, select_backend,
}
use score_orchestrator.Selection.Pipeline.Filter.{Admits, In-filter_backends}
use score_orchestrator.Selection.Pipeline.Profile.{
  HasProfile, RefersToProfiles, IsHandled, select_profile-IsHandled,
}

-- The backend of a configured profile that is selected for a workload.
pub record IsSelected (semver : SemVer) (matcher : LabelMatcher) (config : OrchestratorConfig)
    (w : Workload) (result : SelectedBackend) : Type 0 where
  pub profile : ProfileSpec
  pub configured : In profile config.spec.profiles
  pub named : select_profile config matcher w ≡ ok profile.name
  pub backend : BackendSpec
  pub listed : In backend profile.backends
  pub admits : Admits matcher w backend.constraints
  pub best : Best semver backend (filter_backends matcher w profile.backends)
  pub returned : result ≡ selected backend

module _ (semver : SemVer) (matcher : LabelMatcher) (w : Workload) where
  chosen_from :
      (name : String) (candidates : List BackendSpec) (result : SelectedBackend)
      → (if is_empty candidates
          then err (no_candidates name)
          else best_of name (Ranking.select_backend semver candidates))
        ≡ ok result
      → (b : BackendSpec) × In b candidates × Best semver b candidates × (result ≡ selected b)
  unfolding best_of
  chosen_from name [] result e = cc
  chosen_from name (c ∷ cs) result e =
      let (b, found, member, first) = select_backend_lem semver c cs in
      (b, member, first, ground (arith, found))

  select_from-eq-ok :
      (config : OrchestratorConfig) (name : String) (o : Option ProfileSpec)
      (result : SelectedBackend)
      → select_profile config matcher w ≡ ok name
      → find (is_named name) config.spec.profiles ≡ o
      → select_from semver matcher w name o ≡ ok result
      → IsSelected semver matcher config w result
  unfolding select_from
  select_from-eq-ok config name none result s f e = cc
  select_from-eq-ok config name (some p) result s f e =
      let (member, named) = find-some (is_named name) config.spec.profiles f in
      let (b, candidate, first, returned) =
        chosen_from name (filter_backends matcher w p.backends) result e in
      let (listed, admits) = (In-filter_backends matcher w p.backends b).0 candidate in
      record {
        profile = p;
        configured = member;
        named = s ∙ ap ok (sym ((eq_iff p.name name).0 named));
        backend = b;
        listed = listed;
        admits = admits;
        best = first;
        returned = returned;
      }

  -- A backend that is returned is listed in the configured profile that the profile selection
  -- names, admits the workload, and ranks at or before each backend of the profile that does.
  pub select_backend-IsSelected :
      (config : OrchestratorConfig) (result : SelectedBackend)
      → select_backend semver matcher config w ≡ ok result
      → IsSelected semver matcher config w result
  unfolding select_backend
  select_backend-IsSelected config result e =
      let (name, s, f) = >>=-eq-ok (select_profile config matcher w) _ e in
      select_from-eq-ok config name _ result s refl f

  -- Why a selection may fail where the defaults of the configuration refer to its profiles.
  abbrev pub IsExplained : OrchestratorConfig → Result SelectError SelectedBackend → Type 0
  IsExplained config (ok result) = IsSelected semver matcher config w result
  IsExplained config (err e) =
      (select_profile config matcher w ≡ err e)
      ⊎ ((p : ProfileSpec) × In p config.spec.profiles
          × (select_profile config matcher w ≡ ok p.name)
          × (e ≡ no_candidates p.name)
          × All (λ b. ¬ Admits matcher w b.constraints) p.backends)

  empty-All_not :
      (backends : List BackendSpec)
      → is_empty (filter_backends matcher w backends) ≡ true
      → All (λ b. ¬ Admits matcher w b.constraints) backends
  empty-All_not backends e =
      All-of (λ b. ¬ Admits matcher w b.constraints) backends
        (λ b m h.
          no_member b (filter_backends matcher w backends) e
            ((In-filter_backends matcher w backends b).1 (m, h)))
    where
      no_member : (b : BackendSpec) (bs : List BackendSpec) → is_empty bs ≡ true → ¬ In b bs
      no_member b [] e m = elim m [ ]
      no_member b (c ∷ cs) e m = cc

  -- The failure of the last steps, for a profile that was found.
  from_profile :
      (name : String) (candidates : List BackendSpec) (x : SelectError)
      → (if is_empty candidates
          then err (no_candidates name)
          else best_of name (Ranking.select_backend semver candidates))
        ≡ err x
      → (is_empty candidates ≡ true) × (x ≡ no_candidates name)
  unfolding best_of
  from_profile name [] x e = (refl, cc)
  from_profile name (c ∷ cs) x e =
      let (b, found, member, first) = select_backend_lem semver c cs in
      absurd (ground (arith, found))

  module _ (config : OrchestratorConfig) where
    failed_from :
        (name : String) (o : Option ProfileSpec) (x : SelectError)
        → HasProfile config.spec.profiles name
        → select_profile config matcher w ≡ ok name
        → find (is_named name) config.spec.profiles ≡ o
        → select_from semver matcher w name o ≡ err x
        → IsExplained config (err x)
    unfolding select_from
    failed_from name none x (p, m, n) s f e = absurd (
        false≢true (
          sym (
            All-In (λ q. is_named name q ≡ false) config.spec.profiles
              (find-none (is_named name) config.spec.profiles f) m)
          ∙ (eq_iff p.name name).1 n))
    failed_from name (some p) x h s f e =
        let (member, named) = find-some (is_named name) config.spec.profiles f in
        let same = (eq_iff p.name name).0 named in
        let (none_left, is_x) = from_profile name (filter_backends matcher w p.backends) x e in
        inr (
          p,
          member,
          s ∙ ap ok (sym same),
          is_x ∙ ap no_candidates (sym same),
          empty-All_not p.backends none_left,
        )

    failed :
        (o : Result SelectError String) (x : SelectError)
        → RefersToProfiles config.spec
        → select_profile config matcher w ≡ o
        → (do
          name ← o
          select_from semver matcher w name (find (is_named name) config.spec.profiles))
          ≡ err x
        → IsExplained config (err x)
    failed (err y) x r s e = inl (s ∙ e')
      where
        e' : ◌≡◌ {A = Result SelectError String} (err y) (err x)
        e' = cc
    failed (ok name) x r s e =
        failed_from name _ x
          (subst (IsHandled config matcher w) s (select_profile-IsHandled config matcher w r)) s
          refl e

    -- Where the defaults refer to configured profiles, the selection fails only if the profile
    -- selection does, or if no backend of the selected profile admits the workload.
    pub select_backend-IsExplained :
        RefersToProfiles config.spec → IsExplained config (select_backend semver matcher config w)
    select_backend-IsExplained r = by_result (select_backend semver matcher config w) refl
      where
        by_result :
            (o : Result SelectError SelectedBackend)
            → select_backend semver matcher config w ≡ o
            → IsExplained config o
        by_result (ok result) e = select_backend-IsSelected config result e
        by_result (err x) e =
            failed (select_profile config matcher w) x r refl (unfold select_backend in e)
