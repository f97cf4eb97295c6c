-- ===== src/Text.antt =====
-- Go strings as lists of code points, with the functions of the packages `strings` and `unicode`
-- that the program calls. Letter case is modelled for ASCII: a rune outside ASCII has no case here.
pub mod Laws
pub mod Decimal
use Prim.Native.Char.{code}
use mock_oidc.Prelude.{
  ℕ, ◌+◌, String, Bool, true, false, ◌&&◌, ◌||◌, not, List, [], ◌∷◌, ◌++◌, map, reverse, leb,
  nat_eq, is_empty, any, Option, none, some, if◌then◌else◌,
}

abbrev pub Text : Type 0
Text = List ℕ

-- The code points of a literal.
unfoldable pub txt : String → Text
txt String.[] = []
txt (String.◌∷◌ c s) = code c ∷ txt s

infix 50 ◌==◌
unfoldable pub ◌==◌ : Text → Text → Bool
[] == [] = true
[] == (d ∷ t) = false
(c ∷ s) == [] = false
(c ∷ s) == (d ∷ t) = nat_eq c d && s == t

unfoldable pub lower_rune : ℕ → ℕ
lower_rune c = if leb b'A' c && leb c b'Z' then c + 32 else c

-- strings.ToLower
unfoldable pub lower : Text → Text
unfolding lower_rune
lower s = map lower_rune s

-- strings.EqualFold
unfoldable pub equal_fold : Text → Text → Bool
unfolding lower ◌==◌
equal_fold s t = lower s == lower t

-- unicode.IsSpace
unfoldable pub is_space : ℕ → Bool
is_space c =
    (leb 9 c && leb c 13)
    || nat_eq c 32
    || nat_eq c 0x85
    || nat_eq c 0xA0
    || nat_eq c 0x1680
    || (leb 0x2000 c && leb c 0x200A)
    || nat_eq c 0x2028
    || nat_eq c 0x2029
    || nat_eq c 0x202F
    || nat_eq c 0x205F
    || nat_eq c 0x3000

unfoldable pub trim_left : (ℕ → Bool) → Text → Text
trim_left p [] = []
trim_left p (c ∷ s) = if p c then trim_left p s else c ∷ s

unfoldable pub trim : (ℕ → Bool) → Text → Text
unfolding trim_left
trim p s = reverse (trim_left p (reverse (trim_left p s)))

-- strings.TrimSpace
unfoldable pub trim_space : Text → Text
unfolding trim is_space
trim_space s = trim is_space s

-- strings.Trim(s, "/")
unfoldable pub trim_slash : Text → Text
unfolding trim
trim_slash s = trim (λ c. nat_eq c b'/') s

-- strings.HasPrefix(s, p)
unfoldable pub has_prefix : Text → Text → Bool
has_prefix s [] = true
has_prefix [] (d ∷ p) = false
has_prefix (c ∷ s) (d ∷ p) = nat_eq c d && has_prefix s p

-- strings.HasSuffix(s, p)
unfoldable pub has_suffix : Text → Text → Bool
unfolding has_prefix
has_suffix s p = has_prefix (reverse s) (reverse p)

-- strings.Contains(s, p)
unfoldable pub contains : Text → Text → Bool
unfolding has_prefix
contains [] p = is_empty p
contains (c ∷ s) p = has_prefix (c ∷ s) p || contains s p

-- strings.CutPrefix(s, p)
unfoldable pub cut_prefix : Text → Text → Option Text
cut_prefix s [] = some s
cut_prefix [] (d ∷ p) = none
cut_prefix (c ∷ s) (d ∷ p) = if nat_eq c d then cut_prefix s p else none

fields_from : Text → Text → List Text
unfolding is_space
fields_from cur [] = if is_empty cur then [] else cur ∷ []
fields_from cur (c ∷ s) =
    let rest = fields_from [] s in
    let longer = fields_from (cur ++ c ∷ []) s in
    if is_space c then (if is_empty cur then rest else cur ∷ rest) else longer

-- strings.Fields
unfoldable pub fields : Text → List Text
unfolding fields_from
fields s = fields_from [] s

split_from : ℕ → Text → Text → List Text
split_from sep cur [] = cur ∷ []
split_from sep cur (c ∷ s) =
    let rest = split_from sep [] s in
    let longer = split_from sep (cur ++ c ∷ []) s in if nat_eq c sep then cur ∷ rest else longer

-- strings.Split at one ASCII separator
unfoldable pub split : Text → ℕ → List Text
unfolding split_from
split s sep = split_from sep [] s

-- strings.Join
unfoldable pub join : List Text → Text → Text
join [] sep = []
join (s ∷ []) sep = s
join (s ∷ t ∷ r) sep = s ++ (sep ++ join (t ∷ r) sep)

-- Membership in a `map[string]bool` or a list of strings.
unfoldable pub mem : Text → List Text → Bool
unfolding ◌==◌
mem s l = any (λ t. t == s) l
