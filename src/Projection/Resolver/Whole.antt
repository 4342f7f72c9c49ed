-- ===== src/Projection/Resolver/Whole.antt =====
-- A value that is one reference and nothing else.

use Prim.Native.String.append
use Prim.Native.Char.{Char, code}
use text.Mathlib.TextLemmas.{append-nil}
use score_orchestrator.Base.{
  ℕ, suc, ◌-◌, String, ◌≡◌, refl, sym, ap, ◌∙◌, ◌≢◌, Option, none, some, [], ◌∷◌, arith, eq_iff,
}
use score_orchestrator.Base.Dict.{Dict, lookup}
use score_orchestrator.Base.Text.{joined}
use score_orchestrator.Base.Result.{ok}
use score_orchestrator.Projection.Resolver.{
  text_length, strip, cut, Reference, short_match, long_match, short_text, long_text,
  match_resource, match_output, strip_outputs, matches_behind, find_all, replace_behind,
  replace_all, Available, find_output, substitute, substitute_found, resolve_value,
}

-- No character of the text is the given one.
abbrev pub Without : ℕ → String → Type 0
Without n String.[] = Unit
Without n (String.◌∷◌ c s) = (code c ≢ n) × Without n s

Without-joined : (n : ℕ) (s t : String) → Without n s → Without n t → Without n (joined s t)
Without-joined n String.[] t h k = rw (append.nil t) k
Without-joined n (String.◌∷◌ c s) t h k = rw (append.cons c s t) (h.0, Without-joined n s t h.1 k)

strip-joined : (p s : String) → strip p (joined p s) ≡ some s
unfolding strip
strip-joined String.[] s = rw (append.nil s)
strip-joined (String.◌∷◌ c p) s = rw (append.cons c p s) (ground (arith, strip-joined p s))

cut-joined :
    (stop : Char) (k s : String)
    → Without (code stop) k
    → cut (code stop) (joined k (String.◌∷◌ stop s)) ≡ some (record { before = k; after = s })
unfolding cut
cut-joined stop String.[] s h = rw (append.nil (String.◌∷◌ stop s)) (ground arith)
cut-joined stop (String.◌∷◌ c k) s h =
    rw (append.cons c k (String.◌∷◌ stop s)) (ground (arith, cut-joined stop k s h.1))

matches_behind-past :
    (match : String → Option Reference) (text : Reference → String) (s : String)
    → matches_behind match text (text_length s) s ≡ []
unfolding matches_behind
matches_behind-past match text String.[] = refl
matches_behind-past match text (String.◌∷◌ c s) = matches_behind-past match text s

replace_behind-past : (old new s : String) → replace_behind old new (text_length s) s ≡ ""
unfolding replace_behind
replace_behind-past old new String.[] = refl
replace_behind-past old new (String.◌∷◌ c s) = replace_behind-past old new s

-- A text that is one match as a whole has no other.
matches_behind-whole :
    (match : String → Option Reference) (text : Reference → String) (r : Reference) (c : Char)
    (s : String)
    → match (String.◌∷◌ c s) ≡ some r
    → text r ≡ String.◌∷◌ c s
    → matches_behind match text 0 (String.◌∷◌ c s) ≡ r ∷ []
unfolding text_length matches_behind
matches_behind-whole match text r c s m e =
    let past : text_length (text r) - 1 ≡ text_length s = rw e (omega arith) in
    rw (m, matches_behind)
      (ap (λ l. r ∷ l)
        (ap (λ n. matches_behind match text n s) past ∙ matches_behind-past match text s))

replace_all-whole :
    (c : Char) (s new : String) → replace_all (String.◌∷◌ c s) (String.◌∷◌ c s) new ≡ new
unfolding replace_all text_length
replace_all-whole c s new =
    let whole = String.◌∷◌ c s in
    let found : strip whole whole ≡ some "" =
      ap (strip whole) (sym (append-nil whole)) ∙ strip-joined whole "" in
    let past : suc (text_length s) - 1 ≡ text_length s = omega arith in
    rw (found, replace_behind) (rw past (rw (replace_behind-past whole new s) (append-nil new)))

-- No match is found in a text without a dollar sign.
long_match-Without : (c : Char) (s : String) → code c ≢ b'$' → long_match (String.◌∷◌ c s) ≡ none
unfolding long_match
long_match-Without c s h = ground arith

matches_behind-Without :
    (s : String) → Without b'$' s → matches_behind long_match long_text 0 s ≡ []
unfolding matches_behind
matches_behind-Without String.[] h = refl
matches_behind-Without (String.◌∷◌ c s) h =
    rw (long_match-Without c s h.0, matches_behind) (matches_behind-Without s h.1)

pub data Form : Type 0 where
  long short : Form

-- The reference as it is written in a value.
abbrev pub written : Form → Reference → String
written long r = long_text r
written short r = short_text r

-- A short reference is no long one: its output does not begin with "outputs.".
abbrev pub IsForm : Form → Reference → Type 0
IsForm long r = Unit
IsForm short r = strip "outputs." (joined r.output "}") ≡ none

-- The parts of the reference are not empty and hold no character that ends them, and no dollar sign.
pub record IsPlain (r : Reference) : Type 0 where
  pub some_resource : r.resource ≢ ""
  pub some_output : r.output ≢ ""
  pub no_dot : Without b'.' r.resource
  pub no_brace : Without b'}' r.output
  pub no_dollar : Without b'$' r.resource × Without b'$' r.output

module _ (r : Reference) (plain : IsPlain r) where
  open plain use {some_resource, some_output, no_dot, no_brace, no_dollar}

  resource_matched :
      (s : String)
      → match_resource
          (strip "${resources." (joined "${resources." (joined r.resource (joined "." s))))
        ≡ some (record { before = r.resource; after = s })
  unfolding match_resource
  resource_matched s =
      let found : cut b'.' (joined r.resource (joined "." s))
          ≡ some (record { before = r.resource; after = s }) =
        rw (append.cons "." "" s, append.nil s) (cut-joined "." r.resource s no_dot) in
      rw (strip-joined "${resources." (joined r.resource (joined "." s)), match_resource)
        (rw (found) (ground (arith, eq_iff r.resource "")))

  output_matched :
      match_output (some (record { before = r.resource; after = joined r.output "}" })) ≡ some r
  unfolding match_output
  output_matched =
      let found : cut b'}' (joined r.output "}") ≡ some (record { before = r.output; after = "" }) =
        cut-joined "}" r.output "" no_brace in
      rw (found) (ground (arith, eq_iff r.output ""))

  short_match_lem : short_match (short_text r) ≡ some r
  unfolding short_match short_text
  short_match_lem = rw (resource_matched (joined r.output "}")) output_matched

  long_text_split :
      long_text r
      ≡ joined "${resources."
          (joined r.resource (joined "." (joined "outputs." (joined r.output "}"))))
  unfolding long_text
  long_text_split =
      let rest = joined r.output "}" in
      let dot : joined ".outputs." rest ≡ joined "." (joined "outputs." rest) = rw (
        append.cons "." "outputs." rest,
        append.cons "." "" (joined "outputs." rest),
        append.nil (joined "outputs." rest),
      ) in
      ap (λ s. joined "${resources." (joined r.resource s)) dot

  long_match_lem : long_match (long_text r) ≡ some r
  unfolding long_match
  long_match_lem = rw long_text_split (
      rw (resource_matched (joined "outputs." (joined r.output "}")))
        (rw (strip-joined "outputs." (joined r.output "}"), strip_outputs) output_matched))

  long_match-short :
      strip "outputs." (joined r.output "}") ≡ none → long_match (short_text r) ≡ none
  unfolding long_match short_text
  long_match-short h = rw (resource_matched (joined r.output "}")) (rw (h, strip_outputs) refl)

  found_whole :
      (match : String → Option Reference) (text : Reference → String)
      → match (text r) ≡ some r
      → (s : String) → text r ≡ joined "${resources." s
      → find_all match text (text r) ≡ r ∷ []
  unfolding find_all
  found_whole match text m s e =
      let opened = e ∙ append.cons "$" "{resources." s in
      rw opened
        (matches_behind-whole match text r "$" (joined "{resources." s) (rw opened at m) opened)

  replaced_whole :
      (text : Reference → String) (s new : String)
      → text r ≡ joined "${resources." s
      → replace_all (text r) (text r) new ≡ new
  replaced_whole text s new e =
      rw (e ∙ append.cons "$" "{resources." s) (replace_all-whole "$" (joined "{resources." s) new)

  substitute_whole :
      (text : Reference → String) (available : Available) (s : String) {outputs : Dict String}
      {value : String}
      → text r ≡ joined "${resources." s
      → lookup r.resource available ≡ some outputs
      → lookup r.output outputs ≡ some value
      → substitute text available (r ∷ []) (text r) ≡ ok value
  unfolding substitute find_output
  substitute_whole text available s {value} e l o =
      rw (l, find_output, o) (ap ok (replaced_whole text s value e))

  short_text_lem :
      short_text r ≡ joined "${resources." (joined r.resource (joined "." (joined r.output "}")))
  unfolding short_text
  short_text_lem = refl

  no_long_in_short :
      strip "outputs." (joined r.output "}") ≡ none
      → find_all long_match long_text (short_text r) ≡ []
  unfolding find_all short_text
  no_long_in_short h =
      let rest = joined r.resource (joined "." (joined r.output "}")) in
      let behind = joined "{resources." rest in
      let opened : joined "${resources." rest ≡ String.◌∷◌ "$" behind =
        append.cons "$" "{resources." rest in
      let none_at : long_match (String.◌∷◌ "$" behind) ≡ none =
        ap long_match (sym opened) ∙ long_match-short h in
      let plain' : Without b'$' behind = Without-joined b'$' "{resources." rest (ground arith) (
        Without-joined b'$' r.resource _ no_dollar.0 (
          Without-joined b'$' "." _ (ground arith)
            (Without-joined b'$' r.output _ no_dollar.1 (ground arith)))) in
      rw opened (rw (none_at, matches_behind) (matches_behind-Without behind plain'))

  -- A value that is one reference, in either form, with parts that are not empty and hold none of the
  -- characters that end them and no dollar sign, is resolved to exactly the output that it names,
  -- where the resource has that output; a reference in the short form must not begin its output
  -- with "outputs.".
  pub resolve_value-written :
      (form : Form) (available : Available) {outputs : Dict String} {value : String}
      → IsForm form r
      → lookup r.resource available ≡ some outputs
      → lookup r.output outputs ≡ some value
      → resolve_value (written form r) available ≡ ok value
  unfolding resolve_value substitute_found
  resolve_value-written long available h l o =
      rw (found_whole long_match long_text long_match_lem _ long_text_split)
        (substitute_whole long_text available _ long_text_split l o)
  resolve_value-written short available h l o =
      let text = short_text_lem in
      rw (no_long_in_short h) (
        rw (found_whole short_match short_text short_match_lem _ text)
          (substitute_whole short_text available _ text l o))
