-- ===== src/Entra/Rule/Negation.antt =====
-- The comparison operators of internal/entra/rule.go and their opposites.
use mock_oidc.Prelude.{Option, List, arith, not, ◌≡◌}
use mock_oidc.Text.{Text}
use mock_oidc.Entra.Types.{
  Op, eq, ne, starts_with, not_starts_with, not_contains, is_in, not_in, Config, Tenant, User, Attr,
  string_compare, not_rule,
}
use mock_oidc.Entra.Rule.{compare_string, matches}

-- -ne for -eq, -notStartsWith for -startsWith, and so on.
abbrev pub opposite : Op → Op
opposite eq = ne
opposite ne = eq
opposite starts_with = not_starts_with
opposite not_starts_with = starts_with
opposite Op.contains = not_contains
opposite not_contains = Op.contains
opposite is_in = not_in
opposite not_in = is_in

compare_string-opposite :
    (got : Text) (op : Op) (v : Option Text) (vs : List Text)
    → compare_string got (opposite op) v vs ≡ not (compare_string got op v vs)
unfolding compare_string
compare_string-opposite got eq v vs = ground arith
compare_string-opposite got ne v vs = ground arith
compare_string-opposite got starts_with v vs = ground arith
compare_string-opposite got not_starts_with v vs = ground arith
compare_string-opposite got Op.contains v vs = ground arith
compare_string-opposite got not_contains v vs = ground arith
compare_string-opposite got is_in v vs = ground arith
compare_string-opposite got not_in v vs = ground arith

-- A comparison with the opposite operator matches exactly the users that its `-not` matches, users
-- whose attribute is unset included, for every attribute, operand and list of operands.
pub matches-opposite :
    (c : Config) (t : Tenant) (u : User) (a : Attr) (op : Op) (v : Option Text) (vs : List Text)
    → matches c t u (string_compare a (opposite op) v vs)
      ≡ matches c t u (not_rule (string_compare a op v vs))
unfolding matches
matches-opposite c t u a op v vs = compare_string-opposite _ op v vs
