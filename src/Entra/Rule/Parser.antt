-- ===== src/Entra/Rule/Parser.antt =====
-- The recursive-descent parser of internal/entra/rule.go. The parser's position is the list of the
-- tokens that are left. The grammar recurs on fuel, which `Fuel` is about.
use mock_oidc.Prelude.{
  ℕ, zero, suc, ◌+◌, ◌*◌, Bool, ◌||◌, Option, none, some, List, [], ◌∷◌, nat_eq, if◌then◌else◌,
  length, is_empty, Result, ok, err, ◌>>=◌,
}
use mock_oidc.Text.{Text, txt, lower, equal_fold, trim_space}
use mock_oidc.Entra.Types.{Rule, or_rule, and_rule, not_rule, direct_reports, Rules, nil, cons}
use mock_oidc.Entra.Guid.{is_guid}
use mock_oidc.Entra.Rule.Lexer.{
  RuleError, empty_rule, expected_close, not_a_guid, unexpected, out_of_fuel, Token, lex_rule,
}
use mock_oidc.Entra.Rule.Comparisons.{Parsed, comparison, keyword, punctuation, token_text}

-- A list of one operand is that operand.
abbrev or_of : Rule → Rules → Rule
or_of r nil = r
or_of r (cons s rs) = or_rule (cons r (cons s rs))

abbrev and_of : Rule → Rules → Rule
and_of r nil = r
and_of r (cons s rs) = and_rule (cons r (cons s rs))

-- ruleParser.or, and, unary; `or_rest` and `and_rest` are the loops of the first two.
unfoldable mutual
  unfolding keyword punctuation comparison txt

  pub parse_or : ℕ → List Token → Parsed Rule
  parse_or zero ts = err out_of_fuel
  parse_or (suc n) ts = do
    (first, ts₁) ← parse_and n ts
    (rest, ts₂) ← or_rest n ts₁
    ok (or_of first rest, ts₂)

  pub or_rest : ℕ → List Token → Parsed Rules
  or_rest zero ts = err out_of_fuel
  or_rest (suc n) ts = elim (keyword (txt "-or") ts) [
    | none ↦ ok (nil, ts)
    | some ts₁ ↦ do
      (next, ts₂) ← parse_and n ts₁
      (rest, ts₃) ← or_rest n ts₂
      ok (cons next rest, ts₃)
  ]

  pub parse_and : ℕ → List Token → Parsed Rule
  parse_and zero ts = err out_of_fuel
  parse_and (suc n) ts = do
    (first, ts₁) ← parse_unary n ts
    (rest, ts₂) ← and_rest n ts₁
    ok (and_of first rest, ts₂)

  pub and_rest : ℕ → List Token → Parsed Rules
  and_rest zero ts = err out_of_fuel
  and_rest (suc n) ts = elim (keyword (txt "-and") ts) [
    | none ↦ ok (nil, ts)
    | some ts₁ ↦ do
      (next, ts₂) ← parse_unary n ts₁
      (rest, ts₃) ← and_rest n ts₂
      ok (cons next rest, ts₃)
  ]

  pub parse_unary : ℕ → List Token → Parsed Rule
  parse_unary zero ts = err out_of_fuel
  parse_unary (suc n) ts = elim (keyword (txt "-not") ts) [
    | some ts₁ ↦ do (inner, ts₂) ← parse_unary n ts₁; ok (not_rule inner, ts₂)
    | none ↦ elim (punctuation b'(' ts) [
      | none ↦ comparison ts
      | some ts₁ ↦ do
        (inner, ts₂) ← parse_or n ts₁
        elim (punctuation b')' ts₂) [ none ↦ err expected_close | some ts₃ ↦ ok (inner, ts₃) ]
    ]
  ]

-- \s of the regular expressions
abbrev re_space : ℕ → Bool
re_space c = nat_eq c 9 || nat_eq c 10 || nat_eq c 12 || nat_eq c 13 || nat_eq c 32

skip_spaces : Text → Text
skip_spaces [] = []
skip_spaces (c ∷ s) = if re_space c then skip_spaces s else c ∷ s

-- \s+
spaces : Text → Option Text
unfolding skip_spaces
spaces [] = none
spaces (c ∷ s) = if re_space c then some (skip_spaces s) else none

-- a literal word, in any case
literal : Text → Text → Option Text
unfolding equal_fold
literal [] s = some s
literal (d ∷ w) [] = none
literal (d ∷ w) (c ∷ s) = if equal_fold (d ∷ []) (c ∷ []) then literal w s else none

abbrev push : ℕ → Option Text → Option Text
push c none = none
push c (some b) = some (c ∷ b)

-- ([^"]*)"$
up_to_quote : Text → Option Text
up_to_quote [] = none
up_to_quote (c ∷ s) =
    if nat_eq c b'"' then (if is_empty s then some [] else none) else push c (up_to_quote s)

abbrev bind : Option Text → (Text → Option Text) → Option Text
bind none f = none
bind (some s) f = f s

abbrev open_quote : Text → Option Text
open_quote [] = none
open_quote (c ∷ s) = if nat_eq c b'"' then some s else none

-- directReportsRE.FindStringSubmatch
unfoldable pub direct_reports_for : Text → Option Text
unfolding spaces literal up_to_quote txt
direct_reports_for src = bind (literal (txt "direct") src) λ s. bind (spaces s) λ s.
    bind (literal (txt "reports") s) λ s.
      bind (spaces s)
        λ s. bind (literal (txt "for") s) λ s. bind (spaces s) λ s. bind (open_quote s) up_to_quote

abbrev pub enough : List Token → ℕ
enough ts = 4 * length ts + 3

abbrev pub finished : Parsed Rule → Result RuleError Rule
finished (err e) = err e
finished (ok (r, [])) = ok r
finished (ok (r, t ∷ ts)) = err (unexpected (token_text t))

abbrev pub direct : Text → Result RuleError Rule
direct m =
    let oid = lower (trim_space m) in
    if is_guid oid then ok (direct_reports oid) else err (not_a_guid m)

abbrev pub parse_tokens : Result RuleError (List Token) → Result RuleError Rule
parse_tokens (err e) = err e
parse_tokens (ok ts) = finished (parse_or (enough ts) ts)

-- parseRule
unfoldable pub parse_rule : Text → Result RuleError Rule
unfolding trim_space lower is_guid direct_reports_for lex_rule parse_or
parse_rule src =
    let src = trim_space src in
    if is_empty src
    then err empty_rule
    else elim (direct_reports_for src) [ some m ↦ direct m | none ↦ parse_tokens (lex_rule src) ]
