-- ===== src/Entra/Rule/Fuel.antt =====
-- The fuel of `parse_rule`, for the grammar of internal/entra/rule.go.
use mock_oidc.Prelude.{
  ℕ, zero, Bool-cases, List, arith, Option-cases, ◌≢◌, ◌∷◌, some, inr, nat_eq, length, [], err, inl,
  ok, ◌<◌, Result, ◌≤◌, ◌*◌, suc, none, ◌+◌, ◌++◌, is_empty,
}
use mock_oidc.Entra.Rule.Lexer.{
  out_of_fuel, Mode, between, in_string, in_word, Token, start, lex, RuleError, emit, quoted,
  expected_close, is_punct, ends_word, punct, word, lex_rule,
}
use mock_oidc.Entra.Types.{Rule}
use mock_oidc.Entra.Rule.Comparisons.{Parsed, punctuation, keyword}
use mock_oidc.Entra.Rule.Parser.{
  parse_or, parse_rule, or_rest, direct, parse_tokens, parse_and, finished, enough,
  direct_reports_for, and_rest, parse_unary,
}
use mock_oidc.Text.{Text, is_space, trim_space, txt}
use mock_oidc.Entra.Rule.Progress.{
  Leaves, punctuation-length, bind-Leaves, keyword-length, comparison-Leaves,
}

-- What `unary` does after the group's `or`.
abbrev closed : Rule → List Token → Parsed Rule
closed inner ts = elim (punctuation b')' ts) [
  | none ↦ err expected_close
  | some rest ↦ ok (inner, rest)
]

close-Leaves : (inner : Rule) (ts : List Token) (m : ℕ) → length ts ≤ m → Leaves m (closed inner ts)
close-Leaves inner ts m h = elim (Option-cases (punctuation b')' ts)) [
  | inl e ↦ rw (e, closed) (cc)
  | inr (rest, e) ↦ rw (e, closed) (omega (arith, punctuation-length b')' ts rest e))
]

-- `unary` leaves fewer tokens than it was given, `and` and `or` too; their loops leave no more.
mutual
  unfolding parse_or or_rest parse_and and_rest parse_unary

  parse_or-Leaves :
      (n : ℕ) (ts : List Token) → 4 * length ts + 2 < n → Leaves (length ts) (parse_or n ts)
  parse_or-Leaves zero ts h = absurd (omega arith)
  parse_or-Leaves (suc n) ts h =
      bind-Leaves (parse_and n ts) _ (length ts) (length ts) (parse_and-Leaves n ts (omega arith))
        λ first ts₁ l.
          bind-Leaves (or_rest n ts₁) _ (length ts₁) (length ts)
            (or_rest-Leaves n ts₁ (omega arith)) λ rest ts₂ l₂. omega arith

  or_rest-Leaves :
      (n : ℕ) (ts : List Token) → 4 * length ts + 1 < n → Leaves (length ts) (or_rest n ts)
  or_rest-Leaves zero ts h = absurd (omega arith)
  or_rest-Leaves (suc n) ts h = elim (Option-cases (keyword (txt "-or") ts)) [
    | inl e ↦ rw (e, or_rest) (omega arith)
    | inr (ts₁, e) ↦
        let shorter = keyword-length (txt "-or") ts ts₁ e in
        rw (e, or_rest)
          (bind-Leaves (parse_and n ts₁) _ (length ts₁) (length ts)
            (parse_and-Leaves n ts₁ (omega arith))
            λ next ts₂ l.
              bind-Leaves (or_rest n ts₂) _ (length ts₂) (length ts)
                (or_rest-Leaves n ts₂ (omega arith)) λ rest ts₃ l₃. omega arith)
  ]

  parse_and-Leaves :
      (n : ℕ) (ts : List Token) → 4 * length ts + 1 < n → Leaves (length ts) (parse_and n ts)
  parse_and-Leaves zero ts h = absurd (omega arith)
  parse_and-Leaves (suc n) ts h =
      bind-Leaves (parse_unary n ts) _ (length ts) (length ts)
        (parse_unary-Leaves n ts (omega arith))
        λ first ts₁ l.
          bind-Leaves (and_rest n ts₁) _ (length ts₁) (length ts)
            (and_rest-Leaves n ts₁ (omega arith)) λ rest ts₂ l₂. omega arith

  and_rest-Leaves :
      (n : ℕ) (ts : List Token) → 4 * length ts < n → Leaves (length ts) (and_rest n ts)
  and_rest-Leaves zero ts h = absurd (omega arith)
  and_rest-Leaves (suc n) ts h = elim (Option-cases (keyword (txt "-and") ts)) [
    | inl e ↦ rw (e, and_rest) (omega arith)
    | inr (ts₁, e) ↦
        let shorter = keyword-length (txt "-and") ts ts₁ e in
        rw (e, and_rest)
          (bind-Leaves (parse_unary n ts₁) _ (length ts₁) (length ts)
            (parse_unary-Leaves n ts₁ (omega arith))
            λ next ts₂ l.
              bind-Leaves (and_rest n ts₂) _ (length ts₂) (length ts)
                (and_rest-Leaves n ts₂ (omega arith)) λ rest ts₃ l₃. omega arith)
  ]

  parse_unary-Leaves :
      (n : ℕ) (ts : List Token) → 4 * length ts < n → Leaves (length ts) (parse_unary n ts)
  parse_unary-Leaves zero ts h = absurd (omega arith)
  parse_unary-Leaves (suc n) ts h = elim (Option-cases (keyword (txt "-not") ts)) [
    | inr (ts₁, e) ↦
        let shorter = keyword-length (txt "-not") ts ts₁ e in
        rw (e, parse_unary)
          (bind-Leaves (parse_unary n ts₁) _ (length ts₁) (length ts)
            (parse_unary-Leaves n ts₁ (omega arith)) λ inner ts₂ l. omega arith)
    | inl e ↦
        rw (e, parse_unary)
          (elim (Option-cases (punctuation b'(' ts)) [
            | inl g ↦ rw (g, parse_unary) (comparison-Leaves ts)
            | inr (ts₁, g) ↦
                let shorter = punctuation-length b'(' ts ts₁ g in
                rw (g, parse_unary)
                  (bind-Leaves (parse_or n ts₁) _ (length ts₁) (length ts)
                    (parse_or-Leaves n ts₁ (omega arith))
                    λ inner ts₂ l. close-Leaves inner ts₂ (length ts) (omega arith))
          ])
  ]

emit-ne :
    (t : Token) (r : Result RuleError (List Token))
    → r ≢ err out_of_fuel
    → emit t r ≢ err out_of_fuel
emit-ne t (ok ts) h e = cc
emit-ne t (err x) h e = h e

start-ne :
    (c : ℕ) (next : Mode → Result RuleError (List Token))
    → ((m : Mode) → next m ≢ err out_of_fuel)
    → start c next ≢ err out_of_fuel
unfolding start
start-ne c next h = elim (Bool-cases (is_space c)) [
  | inl e ↦ rw e (h between)
  | inr e ↦ rw e (elim (Bool-cases (is_punct c)) [
    | inl g ↦ rw g (emit-ne (punct c) (next between) (h between))
    | inr g ↦ rw g (elim (Bool-cases (nat_eq c b'"')) [
      | inl k ↦ rw k (h (in_string []))
      | inr k ↦ rw k (h (in_word (c ∷ [])))
    ])
  ])
]

lex-ne-out_of_fuel : (s : Text) (m : Mode) → lex s m ≢ err out_of_fuel
unfolding lex
lex-ne-out_of_fuel [] between = cc
lex-ne-out_of_fuel [] (in_string b) = cc
lex-ne-out_of_fuel [] (in_word w) = cc
lex-ne-out_of_fuel (c ∷ s) between = start-ne c (lex s) (lex-ne-out_of_fuel s)
lex-ne-out_of_fuel (c ∷ []) (in_string b) = elim (Bool-cases (nat_eq c b'"')) [
  | inl e ↦ rw e (cc)
  | inr e ↦ rw e (cc)
]
lex-ne-out_of_fuel (c ∷ d ∷ s) (in_string b) = elim (Bool-cases (nat_eq c b'\\')) [
  | inl e ↦ rw e (lex-ne-out_of_fuel s (in_string (b ++ d ∷ [])))
  | inr e ↦ rw e (elim (Bool-cases (nat_eq c b'"')) [
    | inl g ↦ rw g (emit-ne (quoted b) (lex (d ∷ s) between) (lex-ne-out_of_fuel (d ∷ s) between))
    | inr g ↦ rw g (lex-ne-out_of_fuel (d ∷ s) (in_string (b ++ c ∷ [])))
  ])
]
lex-ne-out_of_fuel (c ∷ s) (in_word w) = elim (Bool-cases (ends_word c)) [
  | inl e ↦ rw e (emit-ne (word w) (start c (lex s)) (start-ne c (lex s) (lex-ne-out_of_fuel s)))
  | inr e ↦ rw e (lex-ne-out_of_fuel s (in_word (w ++ c ∷ [])))
]

finished-ne : (m : ℕ) (r : Parsed Rule) → Leaves m r → finished r ≢ err out_of_fuel
finished-ne m (err e) h k = h (cc)
finished-ne m (ok (r, [])) h e = cc
finished-ne m (ok (r, t ∷ ts)) h e = cc

direct-ne : (m : Text) → direct m ≢ err out_of_fuel
direct-ne m = ground arith

parse_tokens-ne :
    (r : Result RuleError (List Token)) → r ≢ err out_of_fuel → parse_tokens r ≢ err out_of_fuel
parse_tokens-ne (err e) h k = h (cc)
parse_tokens-ne (ok ts) h e =
    finished-ne (length ts) (parse_or (enough ts) ts) (parse_or-Leaves (enough ts) ts (omega arith))
      e

-- Compiling a membership rule never runs out of fuel: whatever the source, the answer is a rule or an
-- error of the source.
pub parse_rule_total : (src : Text) → parse_rule src ≢ err out_of_fuel
unfolding parse_rule
parse_rule_total src = elim (Bool-cases (is_empty (trim_space src))) [
  | inl e ↦ rw e (cc)
  | inr e ↦ rw e (elim (Option-cases (direct_reports_for (trim_space src))) [
    | inl g ↦
        rw (g, parse_rule)
          (parse_tokens-ne (lex_rule (trim_space src))
            (lex-ne-out_of_fuel (trim_space src) between))
    | inr (m, g) ↦ rw (g, parse_rule) (direct-ne m)
  ])
]
