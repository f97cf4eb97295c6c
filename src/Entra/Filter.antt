-- ===== src/Entra/Filter.antt =====
-- internal/entra/filter.go: the $filter expressions and their evaluation on an entity. Letters without
-- case are ASCII letters.
pub mod Lexer
pub mod Terms
pub mod Parser
pub mod Progress
pub mod Comparisons
pub mod Fuel
pub mod Quoting
use mock_oidc.Prelude.{ℕ, ◌&&◌, if◌then◌else◌, false, ◌∷◌, [], Bool, List, not, true, any, ◌||◌}
use mock_oidc.Text.{Text, equal_fold, has_prefix, lower}
use mock_oidc.Json.{Json, Fields, null, string, object, strings, field, boolean, done}

pub data FilterOp : Type 0 where
  eq ne is_in starts_with : FilterOp

-- A literal is a string, a Boolean or null.
mutual
  pub data Filter : Type 0 where
    filter_or : Filters → Filter
    filter_and : Filters → Filter
    filter_not : Filter → Filter
    filter_cmp : List Text → FilterOp → List Json → Filter
    filter_any : List Text → Json → Filter

  pub data Filters : Type 0 where
    no_more : Filters
    also : Filter → Filters → Filters

abbrev same_bool : Bool → Bool → Bool
same_bool true b = b
same_bool false b = not b

-- literalEquals
unfoldable pub literal_equals : Json → Json → Bool
literal_equals null null = true
literal_equals (string s) (string l) = equal_fold s l
literal_equals (boolean b) (boolean l) = same_bool b l
literal_equals v lit = false

-- The first field with this name.
unfoldable pub field_named : Text → Fields → Json
field_named seg done = null
field_named seg (field n v f) = let rest = field_named seg f in if equal_fold n seg then v else rest

-- lookupPath
unfoldable pub lookup_path : Json → List Text → Json
lookup_path v [] = v
lookup_path (object f) (seg ∷ path) = lookup_path (field_named seg f) path
lookup_path null (seg ∷ path) = null
lookup_path (string s) (seg ∷ path) = null
lookup_path (boolean b) (seg ∷ path) = null
lookup_path (strings ss) (seg ∷ path) = null

abbrev starts : Json → Json → Bool
starts (string s) (string prefix) = has_prefix (lower s) (lower prefix)
starts v lit = false

abbrev first_literal : List Json → Json
first_literal [] = null
first_literal (l ∷ ls) = l

-- filterCmp.eval
unfoldable pub compare_literals : FilterOp → Json → List Json → Bool
compare_literals ne v lits = not (literal_equals v (first_literal lits))
compare_literals starts_with v lits = starts v (first_literal lits)
compare_literals eq v lits = any (literal_equals v) lits
compare_literals is_in v lits = any (literal_equals v) lits

abbrev elements : Json → List Text
elements (strings ss) = ss
elements null = []
elements (string s) = []
elements (boolean b) = []
elements (object f) = []

-- filterAny.eval
unfoldable pub any_element : Json → Json → Bool
any_element v lit = any (λ s. literal_equals (string s) lit) (elements v)

unfoldable mutual
  pub eval : Fields → Filter → Bool
  eval e (filter_or fs) = eval_any e fs
  eval e (filter_and fs) = eval_all e fs
  eval e (filter_not f) = not (eval e f)
  eval e (filter_cmp path op lits) = compare_literals op (lookup_path (object e) path) lits
  eval e (filter_any path lit) = any_element (lookup_path (object e) path) lit

  pub eval_any : Fields → Filters → Bool
  eval_any e no_more = false
  eval_any e (also f fs) = eval e f || eval_any e fs

  pub eval_all : Fields → Filters → Bool
  eval_all e no_more = true
  eval_all e (also f fs) = eval e f && eval_all e fs
