-- ===== src/Exposure/Endpoint.antt =====
-- Which URL mirrorEndpoint of internal/controller/exposure_mirror_controller.go takes.
use score_orchestrator.Base.{
  String, Bool, true, false, not, ◌&&◌, ◌||◌, ◌==◌, eq_iff, string_ne, ◌≡◌, ◌≢◌, refl, sym, ap, ◌∙◌,
  ◌↔◌, ◌⊎◌, inl, inr, Option, none, some, List, [], ◌∷◌, arith, Bool-cases,
}
use mathlib.Core.Bool.{false≢true}
use score_orchestrator.Exposure.{ExposureEntry, is_valid_url, new_endpoint}

-- The test of what url.Parse gives.
abbrev passes : Option (String × String) → Bool
passes none = false
passes (some (scheme, host)) = (scheme == "http" || scheme == "https") && not (host == "")

passes_iff :
    (scheme host : String)
    → (passes (some (scheme, host)) ≡ true)
      ↔ (((scheme ≡ "http") ⊎ (scheme ≡ "https")) × (host ≢ ""))
passes_iff scheme host = ground (arith, eq_iff scheme "http", eq_iff scheme "https", eq_iff host "")

module _ (parse_url : String → Option (String × String)) where
  -- A URL that is not empty and parses, with the scheme http or https and with a host.
  abbrev pub IsHttpUrl : String → Type 0
  IsHttpUrl url =
      (url ≢ "")
      × ((scheme : String) × (host : String) × (parse_url url ≡ some (scheme, host))
          × ((scheme ≡ "http") ⊎ (scheme ≡ "https"))
          × (host ≢ ""))

  -- The endpoint of exposures: the URL of the first one, if it is valid, and none otherwise.
  abbrev pub Shows : List ExposureEntry → Option String → Type 0
  Shows [] endpoint = endpoint ≡ none
  Shows (top ∷ others) endpoint =
      (IsHttpUrl top.url × (endpoint ≡ some top.url)) ⊎ ((¬ IsHttpUrl top.url) × (endpoint ≡ none))

  parsed_lem :
      (url : String) (parsed : Option (String × String))
      → parse_url url ≡ parsed
      → url ≢ ""
      → (passes parsed ≡ true) ↔ IsHttpUrl url
  parsed_lem url none e filled = (
    (λ h. cc),
    λ (f, (scheme, host, q, a, b)). ap passes (sym e ∙ q) ∙ (passes_iff scheme host).1 (a, b),
  )
  parsed_lem url (some (scheme, host)) e filled = (
    λ h. let (a, b) = (passes_iff scheme host).0 h in (filled, (scheme, host, e, a, b)),
    λ (f, (scheme', host', q, a, b)). ap passes (sym e ∙ q) ∙ (passes_iff scheme' host').1 (a, b),
  )

  is_valid_url_iff : (url : String) → (is_valid_url parse_url url ≡ true) ↔ IsHttpUrl url
  unfolding is_valid_url
  is_valid_url_iff url = elim (Bool-cases (url == "")) [
    | inl e ↦ rw e ((λ h. cc), λ h. absurd (h.0 ((eq_iff url "").0 e)))
    | inr e ↦ rw e (parsed_lem url (parse_url url) refl (string_ne url "" e))
  ]

  pub new_endpoint-Shows :
      (exposures : List ExposureEntry) → Shows exposures (new_endpoint parse_url exposures)
  unfolding new_endpoint
  new_endpoint-Shows [] = refl
  new_endpoint-Shows (top ∷ others) = elim (Bool-cases (is_valid_url parse_url top.url)) [
    | inl e ↦ rw e (inl ((is_valid_url_iff top.url).0 e, refl))
    | inr e ↦ rw e (inr (λ h. false≢true (sym e ∙ (is_valid_url_iff top.url).1 h), refl))
  ]
