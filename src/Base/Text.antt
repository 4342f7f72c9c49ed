-- ===== src/Base/Text.antt =====
-- Go strings that the program walks, as the lists of their code points. All that the program looks
-- for is ASCII, so bytes and code points give the same answers.
pub mod Split
use Prim.Native.Char.{code}
use Prim.Native.String
use Prim.Native.String.append
use Prim.Native.String.{String}
use Prim.Native.Nat.{ℕ, ◌+◌, ◌-◌}
use mathlib.Core.Path.{◌≡◌, refl, sym, ◌∙◌}
use mathlib.Core.Logic.{◌≢◌, ◌↔◌}
use mathlib.Core.Bool.{Bool, true, false, ◌&&◌, ◌||◌}
use mathlib.Core.List.{List, [], ◌∷◌, reverse}
use native.Mathlib.Omega.{arith}
use text.Mathlib.TextEquality.{Char-path}
use score_orchestrator.Base.Tests.{leb, ltb, eqb, if◌then◌else◌}

abbrev pub Codes : Type 0
Codes = List ℕ

abbrev pub codes : String → Codes
codes String.[] = []
codes (String.◌∷◌ c s) = code c ∷ codes s

-- a == b on strings
abbrev pub same_text : Codes → Codes → Bool
same_text [] [] = true
same_text (a ∷ s) (b ∷ t) = eqb a b && same_text s t
same_text [] (b ∷ t) = false
same_text (a ∷ s) [] = false

pub same_text_iff : (s t : Codes) → (same_text s t ≡ true) ↔ (s ≡ t)
same_text_iff [] [] = ground arith
same_text_iff (a ∷ s) (b ∷ t) = ground (arith, same_text_iff s t)
same_text_iff [] (b ∷ t) = ground arith
same_text_iff (a ∷ s) [] = ground arith

-- strings.HasPrefix
abbrev pub has_prefix : Codes → Codes → Bool
has_prefix s [] = true
has_prefix [] (b ∷ t) = false
has_prefix (a ∷ s) (b ∷ t) = eqb a b && has_prefix s t

-- strings.Contains
abbrev pub contains : Codes → Codes → Bool
contains [] t = has_prefix [] t
contains (a ∷ s) t = has_prefix (a ∷ s) t || contains s t

-- strings.Split by one byte: there is always one piece at least.
pub split_from : ℕ → Codes → Codes → List Codes
split_from sep piece [] = reverse piece ∷ []
split_from sep piece (c ∷ s) =
    let closed = reverse piece ∷ split_from sep [] s in
    let longer = split_from sep (c ∷ piece) s in if eqb c sep then closed else longer

unfoldable pub split : Codes → ℕ → List Codes
unfolding split_from
split s sep = split_from sep [] s

-- unicode.IsSpace
is_space : ℕ → Bool
is_space c =
    (leb 9 c && leb c 13)
    || eqb c 32
    || eqb c 0x85
    || eqb c 0xa0
    || eqb c 0x1680
    || (leb 0x2000 c && leb c 0x200a)
    || eqb c 0x2028
    || eqb c 0x2029
    || eqb c 0x202f
    || eqb c 0x205f
    || eqb c 0x3000

trim_left : Codes → Codes
trim_left [] = []
trim_left (c ∷ s) = let rest = trim_left s in if is_space c then rest else c ∷ s

-- strings.TrimSpace
unfoldable pub trim_space : Codes → Codes
unfolding trim_left is_space
trim_space s = reverse (trim_left (reverse (trim_left s)))

-- strings.ToLower and strings.ToUpper, as far as the result is looked at for ASCII texts: the two
-- code points beyond ASCII whose lower (upper) case is ASCII are mapped, all others stay.
lower : ℕ → ℕ
lower c =
    if leb b'A' c && leb c b'Z'
    then c + 32
    else if eqb c 0x212a
    then b'k'
    else if eqb c 0x130
    then b'i'
    else c

upper : ℕ → ℕ
upper c =
    if leb b'a' c && leb c b'z'
    then c - 32
    else if eqb c 0x131
    then b'I'
    else if eqb c 0x17f
    then b'S'
    else c

unfoldable pub to_lower : Codes → Codes
unfolding lower
to_lower [] = []
to_lower (c ∷ s) = lower c ∷ to_lower s

unfoldable pub to_upper : Codes → Codes
unfolding upper
to_upper [] = []
to_upper (c ∷ s) = upper c ∷ to_upper s

pub codes-injective : (s t : String) → codes s ≡ codes t → s ≡ t
codes-injective String.[] String.[] e = refl
codes-injective (String.◌∷◌ c s) (String.◌∷◌ d t) e =
    let heads : code c ≡ code d = cc in
    let tails : codes s ≡ codes t = cc in
    let p = Char-path c d heads in let q = codes-injective s t tails in λ i. String.◌∷◌ (p i) (q i)
codes-injective String.[] (String.◌∷◌ d t) e = cc
codes-injective (String.◌∷◌ c s) String.[] e = cc

web_in_name : contains (to_lower (codes "My-Web-App")) (codes "web") ≡ true
unfolding to_lower
web_in_name = refl

split_at_commas : split (codes "a,,b") b',' ≡ codes "a" ∷ codes "" ∷ codes "b" ∷ []
unfolding split
split_at_commas = refl

trim_both_ends : trim_space (codes "  a b ") ≡ codes "a b"
unfolding trim_space
trim_both_ends = refl

-- s + t on Go strings
abbrev pub joined : String → String → String
joined s t = String.◌++◌ s t

pub joined_cancel : (p s t : String) → joined p s ≡ joined p t → s ≡ t
joined_cancel String.[] s t e = sym (append.nil s) ∙ e ∙ append.nil t
joined_cancel (String.◌∷◌ c p) s t e =
    let opened = sym (append.cons c p s) ∙ e ∙ append.cons c p t in joined_cancel p s t (cc opened)

pub joined-filled : (p s : String) → s ≢ "" → joined p s ≢ ""
joined-filled String.[] s h e = h (sym (append.nil s) ∙ e)
joined-filled (String.◌∷◌ c p) s h e = let q = sym (append.cons c p s) ∙ e in absurd (cc)
