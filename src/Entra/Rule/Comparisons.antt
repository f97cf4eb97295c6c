-- ===== src/Entra/Rule/Comparisons.antt =====
-- The comparisons of internal/entra/rule.go. The parser's position is the list of the tokens that are
-- left.
use mock_oidc.Prelude.{
  ℕ, Bool, true, false, Option, none, some, List, [], ◌∷◌, nat_eq, if◌then◌else◌, Result, ok, err,
}
use mock_oidc.Text.{Text, txt, ◌==◌, lower, equal_fold, cut_prefix}
use mock_oidc.Entra.Types.{
  Attr, department, company_name, employee_id, job_title, office_location, display_name, mail,
  user_principal_name, extension_attribute1, extension_attribute2, extension_attribute3, Op, eq, ne,
  starts_with, not_starts_with, contains, not_contains, is_in, not_in, Rule, string_compare,
  bool_compare,
}
use mock_oidc.Entra.Rule.Lexer.{
  RuleError, expected_comma, expected_property, unsupported_property, expected_operator,
  unsupported_operator, only_eq_ne, true_or_false, needs_array, needs_strings, expected_value,
  needs_string, Token, word, quoted, punct,
}

abbrev pub token_text : Token → Text
token_text (word w) = w
token_text (quoted s) = s
token_text (punct c) = c ∷ []

-- ruleParser.keyword: the tokens after the keyword, if it comes next.
unfoldable pub keyword : Text → List Token → Option (List Token)
unfolding equal_fold
keyword w [] = none
keyword w (word v ∷ ts) = if equal_fold v w then some ts else none
keyword w (quoted s ∷ ts) = none
keyword w (punct c ∷ ts) = none

-- ruleParser.punct
unfoldable pub punctuation : ℕ → List Token → Option (List Token)
punctuation c [] = none
punctuation c (punct d ∷ ts) = if nat_eq d c then some ts else none
punctuation c (word w ∷ ts) = none
punctuation c (quoted s ∷ ts) = none

-- The keys of `userAttrs`.
unfoldable pub attr_of_name : Text → Option Attr
unfolding txt ◌==◌
attr_of_name n =
    if n == txt "department"
    then some department
    else if n == txt "companyname"
    then some company_name
    else if n == txt "employeeid"
    then some employee_id
    else if n == txt "jobtitle"
    then some job_title
    else if n == txt "officelocation"
    then some office_location
    else if n == txt "displayname"
    then some display_name
    else if n == txt "mail"
    then some mail
    else if n == txt "userprincipalname"
    then some user_principal_name
    else if n == txt "extensionattribute1"
    then some extension_attribute1
    else if n == txt "extensionattribute2"
    then some extension_attribute2
    else if n == txt "extensionattribute3"
    then some extension_attribute3
    else none

-- The keys of `ruleOps`.
unfoldable pub op_of_name : Text → Option Op
unfolding txt ◌==◌
op_of_name n =
    if n == txt "eq"
    then some eq
    else if n == txt "ne"
    then some ne
    else if n == txt "startswith"
    then some starts_with
    else if n == txt "notstartswith"
    then some not_starts_with
    else if n == txt "contains"
    then some contains
    else if n == txt "notcontains"
    then some not_contains
    else if n == txt "in"
    then some is_in
    else if n == txt "notin"
    then some not_in
    else none

pub data Property : Type 0 where
  text_property : Attr → Property
  account_enabled : Property

abbrev property_of_name : Option Text → Option Property
property_of_name none = none
property_of_name (some n) = elim (attr_of_name n) [
  | none ↦ if n == txt "accountenabled" then some account_enabled else none
  | some a ↦ some (text_property a)
]

-- `user.<name>`, in any case
unfoldable pub property : Text → Option Property
unfolding lower cut_prefix attr_of_name txt ◌==◌
property w = property_of_name (cut_prefix (lower w) (txt "user."))

abbrev is_eq_or_ne : Op → Bool
is_eq_or_ne eq = true
is_eq_or_ne ne = true
is_eq_or_ne _ = false

abbrev is_eq : Op → Bool
is_eq eq = true
is_eq _ = false

abbrev pub takes_array : Op → Bool
takes_array is_in = true
takes_array not_in = true
takes_array _ = false

abbrev pub Parsed : Type 0 → Type 0
Parsed A = Result RuleError (A × List Token)

abbrev pub prepend : Text → Parsed (List Text) → Parsed (List Text)
prepend v (ok (vs, ts)) = ok (v ∷ vs, ts)
prepend v (err e) = err e

-- The loop of ruleParser.array.
unfoldable pub array_items : Text → List Token → Parsed (List Text)
unfolding lower
array_items o (quoted s ∷ punct c ∷ ts) =
    let more = prepend (lower s) (array_items o ts) in
    if nat_eq c b']'
    then ok (lower s ∷ [], ts)
    else if nat_eq c b','
    then more
    else err expected_comma
array_items o (quoted s ∷ ts) = err expected_comma
array_items o ts = err (needs_strings o)

-- ruleParser.array
unfoldable pub array : Text → List Token → Parsed (List Text)
unfolding punctuation array_items
array o ts = elim (punctuation b'[' ts) [
  | none ↦ err (needs_array o)
  | some rest ↦ array_items o rest
]

unfoldable pub bool_value : Text → Bool → List Token → Parsed Rule
unfolding equal_fold txt
bool_value p e (word v ∷ ts) =
    if equal_fold v (txt "true")
    then ok (bool_compare e true, ts)
    else if equal_fold v (txt "false")
    then ok (bool_compare e false, ts)
    else err (true_or_false p)
bool_value p e ts = err (true_or_false p)

unfoldable pub string_value : Attr → Text → Op → List Token → Parsed Rule
unfolding equal_fold txt
string_value a o op (quoted s ∷ ts) = ok (string_compare a op (some s) [], ts)
string_value a o op (word w ∷ ts) =
    if equal_fold w (txt "null")
    then if is_eq_or_ne op then ok (string_compare a op none [], ts) else err (needs_string o)
    else err (expected_value o)
string_value a o op ts = err (expected_value o)

abbrev pub listed : Attr → Op → Parsed (List Text) → Parsed Rule
listed a op (ok (vs, ts)) = ok (string_compare a op none vs, ts)
listed a op (err e) = err e

unfoldable pub with_value : Text → Property → Text → Op → List Token → Parsed Rule
unfolding bool_value string_value array
with_value p account_enabled o op ts =
    if is_eq_or_ne op then bool_value p (is_eq op) ts else err (only_eq_ne p)
with_value p (text_property a) o op ts =
    if takes_array op then listed a op (array o ts) else string_value a o op ts

unfoldable pub with_operator : Text → Property → List Token → Parsed Rule
unfolding with_value cut_prefix op_of_name lower txt
with_operator p q (word o ∷ ts) = elim (cut_prefix o (txt "-")) [
  | none ↦ err (expected_operator p)
  | some n ↦ elim (op_of_name (lower n)) [
    | none ↦ err (unsupported_operator o)
    | some op ↦ with_value p q o op ts
  ]
]
with_operator p q ts = err (expected_operator p)

-- ruleParser.comparison
unfoldable pub comparison : List Token → Parsed Rule
unfolding with_operator property
comparison [] = err (expected_property [])
comparison (word p ∷ ts) = elim (property p) [
  | none ↦ err (unsupported_property p)
  | some q ↦ with_operator p q ts
]
comparison (t ∷ ts) = err (expected_property (token_text t))
