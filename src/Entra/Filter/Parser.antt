-- ===== src/Entra/Filter/Parser.antt =====
-- internal/entra/filter.go: the connectives of a $filter, on fuel.
use mock_oidc.Entra.Filter.Terms.{FilterParse}
use mock_oidc.Entra.Filter.Terms.{word, expect, parse_comparison, parse_starts_with}
use mock_oidc.Entra.Filter.Lexer.{FilterError, unexpected_token, no_fuel, FilterTok, lex_filter}
use mock_oidc.Prelude.{
  ℕ, ◌∷◌, suc, zero, ◌*◌, List, ◌>>=◌, length, err, Result, ok, [], ◌+◌, some, none,
}
use mock_oidc.Entra.Filter.{Filter, Filters, also, filter_or, filter_and, no_more, filter_not}
use mock_oidc.Json.{Fields}
use mock_oidc.Text.{Text, txt}

-- A list of one operand is that operand.
abbrev or_of : Filter → Filters → Filter
or_of f no_more = f
or_of f (also g fs) = filter_or (also f (also g fs))

abbrev and_of : Filter → Filters → Filter
and_of f no_more = f
and_of f (also g fs) = filter_and (also f (also g fs))

-- filterParser.or, and, unary; `or_rest` and `and_rest` are the loops of the first two.
unfoldable mutual
  unfolding word expect parse_comparison parse_starts_with txt

  pub parse_or : Fields → ℕ → List FilterTok → FilterParse Filter
  parse_or schema zero ts = err no_fuel
  parse_or schema (suc n) ts = do
    (first, ts₁) ← parse_and schema n ts
    (rest, ts₂) ← or_rest schema n ts₁
    ok (or_of first rest, ts₂)

  pub or_rest : Fields → ℕ → List FilterTok → FilterParse Filters
  or_rest schema zero ts = err no_fuel
  or_rest schema (suc n) ts = elim (word (txt "or") ts) [
    | none ↦ ok (no_more, ts)
    | some ts₁ ↦ do
      (next, ts₂) ← parse_and schema n ts₁
      (rest, ts₃) ← or_rest schema n ts₂
      ok (also next rest, ts₃)
  ]

  pub parse_and : Fields → ℕ → List FilterTok → FilterParse Filter
  parse_and schema zero ts = err no_fuel
  parse_and schema (suc n) ts = do
    (first, ts₁) ← parse_unary schema n ts
    (rest, ts₂) ← and_rest schema n ts₁
    ok (and_of first rest, ts₂)

  pub and_rest : Fields → ℕ → List FilterTok → FilterParse Filters
  and_rest schema zero ts = err no_fuel
  and_rest schema (suc n) ts = elim (word (txt "and") ts) [
    | none ↦ ok (no_more, ts)
    | some ts₁ ↦ do
      (next, ts₂) ← parse_unary schema n ts₁
      (rest, ts₃) ← and_rest schema n ts₂
      ok (also next rest, ts₃)
  ]

  pub parse_unary : Fields → ℕ → List FilterTok → FilterParse Filter
  parse_unary schema zero ts = err no_fuel
  parse_unary schema (suc n) ts = elim (word (txt "not") ts) [
    | some ts₁ ↦ do (inner, ts₂) ← parse_unary schema n ts₁; ok (filter_not inner, ts₂)
    | none ↦ elim (word (txt "(") ts) [
      | some ts₁ ↦ do
        (inner, ts₂) ← parse_or schema n ts₁
        (u, ts₃) ← expect (txt ")") ts₂
        ok (inner, ts₃)
      | none ↦ elim (word (txt "startsWith") ts) [
        | some ts₁ ↦ parse_starts_with schema ts₁
        | none ↦ parse_comparison schema ts
      ]
    ]
  ]

abbrev pub enough : List FilterTok → ℕ
enough ts = 4 * length ts + 3

abbrev pub finished : FilterParse Filter → Result FilterError Filter
finished (err e) = err e
finished (ok (f, [])) = ok f
finished (ok (f, t ∷ ts)) = err (unexpected_token t.text)

-- parseFilter, with the schema of the entity type
unfoldable pub parse_filter : Fields → Text → Result FilterError Filter
parse_filter schema src = lex_filter src >>= (λ ts. finished (parse_or schema (enough ts) ts))
