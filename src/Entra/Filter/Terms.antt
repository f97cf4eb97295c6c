-- ===== src/Entra/Filter/Terms.antt =====
-- internal/entra/filter.go: the comparisons of a $filter. A parse is what it gives and the tokens that
-- are left.
use mock_oidc.Prelude.{
  ℕ, suc, List, ltb, ◌&&◌, if◌then◌else◌, Bool, not, [], ◌>>=◌, some, zero, ok, Option, Result, ◌-◌,
  take, any, ◌||◌, drop, ◌∷◌, true, length, false, err, none,
}
use mock_oidc.Entra.Filter.Lexer.{
  FilterError, FilterTok, expected, unknown_property, no_fuel, complex_property, bad_operator,
}
use mock_oidc.Text.{Text, equal_fold, split, ◌==◌, has_prefix, txt, lower}
use mock_oidc.Json.{Json, Fields, field, object, string, strings, null, boolean, done}
use mock_oidc.Entra.Filter.{Filter, lookup_path, filter_cmp, filter_any, starts_with, eq, ne, is_in}
use mock_oidc.Entra.Filter.Lexer.{is_punct}

abbrev pub FilterParse : Type 0 → Type 0
FilterParse A = Result FilterError (A × List FilterTok)

-- filterParser.word: the tokens after the word
unfoldable pub word : Text → List FilterTok → Option (List FilterTok)
word w [] = none
word w (t ∷ ts) = if not t.str && equal_fold t.text w then some ts else none

abbrev pub required : Text → Option (List FilterTok) → FilterParse (Unit {0})
required w none = err (expected w)
required w (some ts) = ok (tt, ts)

-- filterParser.expect
unfoldable pub expect : Text → List FilterTok → FilterParse (Unit {0})
expect w ts = required w (word w ts)

-- The first field with this name that is no annotation.
unfoldable pub property_named : Text → Fields → Option Json
property_named seg done = none
property_named seg (field n v f) =
    let rest = property_named seg f in
    if equal_fold n seg && not (has_prefix n (b'@' ∷ [])) then some v else rest

-- The loop of resolve.
pub resolve_from : Option Json → List Text → Option Json
resolve_from v [] = v
resolve_from (some (object f)) (seg ∷ path) = resolve_from (property_named seg f) path
resolve_from none (seg ∷ path) = none
resolve_from (some null) (seg ∷ path) = none
resolve_from (some (string s)) (seg ∷ path) = none
resolve_from (some (boolean b)) (seg ∷ path) = none
resolve_from (some (strings ss)) (seg ∷ path) = none

abbrev pub leaf : Text → List Text → Option Json → Result FilterError (List Text)
leaf raw path none = err (unknown_property raw)
leaf raw path (some (object f)) = err (complex_property raw)
leaf raw path (some null) = ok path
leaf raw path (some (string s)) = ok path
leaf raw path (some (boolean b)) = ok path
leaf raw path (some (strings ss)) = ok path

-- filterParser.resolve, against the schema of the entity type
unfoldable pub resolve : Fields → Text → Result FilterError (List Text)
resolve schema raw =
    leaf raw (split raw b'/') (resolve_from (some (object schema)) (split raw b'/'))

abbrev pub with_rest {ℓ} :
    {A : Type ℓ} → List FilterTok → Result FilterError A → Result FilterError (A × List FilterTok)
with_rest ts (err e) = err e
with_rest ts (ok a) = ok (a, ts)

-- filterParser.path
unfoldable pub path : Fields → List FilterTok → FilterParse (List Text)
path schema [] = err (expected (txt "a property name"))
path schema (t ∷ ts) =
    if t.str || any is_punct t.text
    then err (expected (txt "a property name"))
    else with_rest ts (resolve schema t.text)

abbrev pub keyword_literal : Text → Option Json
keyword_literal s =
    if s == txt "null"
    then some null
    else if s == txt "true"
    then some (boolean true)
    else if s == txt "false"
    then some (boolean false)
    else none

abbrev pub literal_or : Text → List FilterTok → Option Json → FilterParse Json
literal_or s ts none = err (expected (txt "a literal"))
literal_or s ts (some v) = ok (v, ts)

-- filterParser.literal
unfoldable pub literal : List FilterTok → FilterParse Json
literal [] = err (expected (txt "a literal"))
literal (t ∷ ts) =
    if t.str then ok (string t.text, ts) else literal_or t.text ts (keyword_literal (lower t.text))

-- A string literal of startsWith.
abbrev pub string_token : List FilterTok → FilterParse Text
string_token [] = err (expected (txt "a string literal"))
string_token (t ∷ ts) = if t.str then ok (t.text, ts) else err (expected (txt "a string literal"))

-- filterParser.startsWith
unfoldable pub parse_starts_with : Fields → List FilterTok → FilterParse Filter
parse_starts_with schema ts = do
  (u, ts₁) ← expect (txt "(") ts
  (p, ts₂) ← path schema ts₁
  (u', ts₃) ← expect (txt ",") ts₂
  (s, ts₄) ← string_token ts₃
  (u'', ts₅) ← expect (txt ")") ts₄
  ok (filter_cmp p starts_with (string s ∷ []), ts₅)

-- The loop of `in`: a literal, then the end or a comma and the next.
unfoldable pub in_literals : ℕ → List FilterTok → FilterParse (List Json)
in_literals zero ts = err no_fuel
in_literals (suc n) ts = do
  (lit, ts₁) ← literal ts
  elim (word (txt ")") ts₁) [
    | some ts₂ ↦ ok (lit ∷ [], ts₂)
    | none ↦ do
      (u, ts₂) ← expect (txt ",") ts₁
      (lits, ts₃) ← in_literals n ts₂
      ok (lit ∷ lits, ts₃)
  ]

-- A word that names an operator or a variable.
abbrev pub plain_word : Text → List FilterTok → FilterParse Text
plain_word what [] = err (expected what)
plain_word what (t ∷ ts) = if t.str then err (expected what) else ok (t.text, ts)

unfoldable pub with_op : List Text → Text → List FilterTok → FilterParse Filter
with_op p op ts =
    if lower op == txt "eq"
    then (do (lit, ts₁) ← literal ts; ok (filter_cmp p eq (lit ∷ []), ts₁))
    else if lower op == txt "ne"
    then (do (lit, ts₁) ← literal ts; ok (filter_cmp p ne (lit ∷ []), ts₁))
    else if lower op == txt "in"
    then (do
      (u, ts₁) ← expect (txt "(") ts
      (lits, ts₂) ← in_literals (suc (length ts₁)) ts₁
      ok (filter_cmp p is_in lits, ts₂))
    else err (bad_operator op)

abbrev pub collection_only : List Text → Json → Result FilterError (List Text)
collection_only p (strings ss) = ok p
collection_only p null = err (expected (txt "a collection property"))
collection_only p (string s) = err (expected (txt "a collection property"))
collection_only p (boolean b) = err (expected (txt "a collection property"))
collection_only p (object f) = err (expected (txt "a collection property"))

-- filterParser.any, after the path token, whose text ends in "/any"
unfoldable pub parse_any : Fields → Text → List FilterTok → FilterParse Filter
parse_any schema text ts = do
  p ← resolve schema (take (length text - 4) text)
  q ← collection_only p (lookup_path (object schema) p)
  (u, ts₁) ← expect (txt "(") ts
  (v, ts₂) ← plain_word (txt "a lambda variable") ts₁
  (u₂, ts₃) ← expect (txt ":") ts₂
  (u₃, ts₄) ← expect v ts₃
  (u₄, ts₅) ← required (txt "eq") (word (txt "eq") ts₄)
  (lit, ts₆) ← literal ts₅
  (u₅, ts₇) ← expect (txt ")") ts₆
  ok (filter_any p lit, ts₇)

abbrev pub names_any : FilterTok → Bool
names_any t =
    not t.str && ltb 4 (length t.text) && equal_fold (drop (length t.text - 4) t.text) (txt "/any")

unfoldable pub compare_at : Fields → List FilterTok → FilterParse Filter
compare_at schema ts = do
  (p, ts₁) ← path schema ts
  (op, ts₂) ← plain_word (txt "an operator") ts₁
  with_op p op ts₂

-- filterParser.comparison
unfoldable pub parse_comparison : Fields → List FilterTok → FilterParse Filter
parse_comparison schema [] = compare_at schema []
parse_comparison schema (t ∷ ts) =
    if names_any t then parse_any schema t.text ts else compare_at schema (t ∷ ts)
