-- ===== src/Entra/Filter/Fuel.antt =====
-- The fuel of `parse_filter`, for the connectives of internal/entra/filter.go.
use mock_oidc.Prelude.{
  ℕ, ◌*◌, inr, ok, length, List, ◌∷◌, suc, ◌<◌, ◌+◌, Result, err, inl, [], ◌≢◌, arith, ◌>>=◌, zero,
  Option-cases, Bool-cases, nat_eq,
}
use mock_oidc.Entra.Filter.Terms.{FilterParse, word, expect, parse_starts_with}
use mock_oidc.Entra.Filter.Lexer.{
  FilterTok, FilterError, no_fuel, is_punct, emit, between, in_word, scan, some_tokens, lex_filter,
  Scan, in_quotes, after_quote, plain_tok, snoc, quoted_tok,
}
use mock_oidc.Entra.Filter.Parser.{
  parse_or, or_rest, parse_and, and_rest, parse_unary, enough, finished, parse_filter,
}
use mock_oidc.Entra.Filter.Progress.{
  Leaves, Leaves-le, bind-Leaves, word-length, step-Leaves, expect-Leaves,
}
use mock_oidc.Json.{Fields}
use mock_oidc.Entra.Filter.{Filter}
use mock_oidc.Text.{txt, Text, is_space}
use mock_oidc.Entra.Filter.Comparisons.{parse_starts_with-Leaves, parse_comparison-Leaves}

-- A connective needs four rounds for each token, and some more by its rank.
mutual
  unfolding parse_or or_rest parse_and and_rest parse_unary

  parse_or-Leaves :
      (schema : Fields) (n : ℕ) (ts : List FilterTok)
      → 4 * length ts + 2 < n
      → Leaves (length ts) (parse_or schema n ts)
  parse_or-Leaves schema zero ts h = absurd (omega arith)
  parse_or-Leaves schema (suc n) ts h =
      bind-Leaves (parse_and schema n ts) _ (length ts) (length ts)
        (parse_and-Leaves schema n ts (omega arith))
        λ first ts₁ l.
          bind-Leaves (or_rest schema n ts₁) _ (length ts₁) (length ts)
            (or_rest-Leaves schema n ts₁ (omega arith)) λ rest ts₂ l₂. omega arith

  or_rest-Leaves :
      (schema : Fields) (n : ℕ) (ts : List FilterTok)
      → 4 * length ts + 1 < n
      → Leaves (length ts) (or_rest schema n ts)
  or_rest-Leaves schema zero ts h = absurd (omega arith)
  or_rest-Leaves schema (suc n) ts h = elim (Option-cases (word (txt "or") ts)) [
    | inl e ↦ rw (e, or_rest) (omega arith)
    | inr (ts₁, e) ↦
        let shorter = word-length (txt "or") ts ts₁ e in
        rw (e, or_rest)
          (bind-Leaves (parse_and schema n ts₁) _ (length ts₁) (length ts)
            (parse_and-Leaves schema n ts₁ (omega arith))
            λ next ts₂ l.
              bind-Leaves (or_rest schema n ts₂) _ (length ts₂) (length ts)
                (or_rest-Leaves schema n ts₂ (omega arith)) λ rest ts₃ l₃. omega arith)
  ]

  parse_and-Leaves :
      (schema : Fields) (n : ℕ) (ts : List FilterTok)
      → 4 * length ts + 1 < n
      → Leaves (length ts) (parse_and schema n ts)
  parse_and-Leaves schema zero ts h = absurd (omega arith)
  parse_and-Leaves schema (suc n) ts h =
      bind-Leaves (parse_unary schema n ts) _ (length ts) (length ts)
        (parse_unary-Leaves schema n ts (omega arith))
        λ first ts₁ l.
          bind-Leaves (and_rest schema n ts₁) _ (length ts₁) (length ts)
            (and_rest-Leaves schema n ts₁ (omega arith)) λ rest ts₂ l₂. omega arith

  and_rest-Leaves :
      (schema : Fields) (n : ℕ) (ts : List FilterTok)
      → 4 * length ts < n
      → Leaves (length ts) (and_rest schema n ts)
  and_rest-Leaves schema zero ts h = absurd (omega arith)
  and_rest-Leaves schema (suc n) ts h = elim (Option-cases (word (txt "and") ts)) [
    | inl e ↦ rw (e, and_rest) (omega arith)
    | inr (ts₁, e) ↦
        let shorter = word-length (txt "and") ts ts₁ e in
        rw (e, and_rest)
          (bind-Leaves (parse_unary schema n ts₁) _ (length ts₁) (length ts)
            (parse_unary-Leaves schema n ts₁ (omega arith))
            λ next ts₂ l.
              bind-Leaves (and_rest schema n ts₂) _ (length ts₂) (length ts)
                (and_rest-Leaves schema n ts₂ (omega arith)) λ rest ts₃ l₃. omega arith)
  ]

  parse_unary-Leaves :
      (schema : Fields) (n : ℕ) (ts : List FilterTok)
      → 4 * length ts < n
      → Leaves (length ts) (parse_unary schema n ts)
  parse_unary-Leaves schema zero ts h = absurd (omega arith)
  parse_unary-Leaves schema (suc n) ts h = elim (Option-cases (word (txt "not") ts)) [
    | inr (ts₁, e) ↦
        let shorter = word-length (txt "not") ts ts₁ e in
        rw (e, parse_unary)
          (bind-Leaves (parse_unary schema n ts₁) _ (length ts₁) (length ts)
            (parse_unary-Leaves schema n ts₁ (omega arith)) λ inner ts₂ l. omega arith)
    | inl e ↦
        rw (e, parse_unary)
          (elim (Option-cases (word (txt "(") ts)) [
            | inr (ts₁, g) ↦
                let shorter = word-length (txt "(") ts ts₁ g in
                rw (g, parse_unary)
                  (bind-Leaves (parse_or schema n ts₁) _ (length ts₁) (length ts)
                    (parse_or-Leaves schema n ts₁ (omega arith))
                    λ inner ts₂ l.
                      step-Leaves (expect (txt ")")) (expect-Leaves (txt ")")) ts₂ _ (length ts)
                        (omega arith) λ u ts₃ l₃. l₃)
            | inl g ↦
                rw (g, parse_unary)
                  (elim (Option-cases (word (txt "startsWith") ts)) [
                    | inr (ts₁, k) ↦
                        rw (k, parse_unary)
                          (Leaves-le (parse_starts_with schema ts₁)
                            (omega (arith, word-length (txt "startsWith") ts ts₁ k))
                            (parse_starts_with-Leaves schema ts₁))
                    | inl k ↦ rw (k, parse_unary) (parse_comparison-Leaves schema ts)
                  ])
          ])
  ]

emit-ne :
    (t : FilterTok) (r : Result FilterError (List FilterTok))
    → r ≢ err no_fuel
    → emit t r ≢ err no_fuel
emit-ne t (ok ts) h e = cc
emit-ne t (err x) h e = h e

scan-ne : (s : Text) (m : Scan) → scan m s ≢ err no_fuel
unfolding scan
scan-ne [] between = cc
scan-ne [] (in_word w) = cc
scan-ne [] (in_quotes b) = cc
scan-ne [] (after_quote b) = cc
scan-ne (c ∷ s) between = elim (Bool-cases (is_space c)) [
  | inl e ↦ rw e (scan-ne s between)
  | inr e ↦ rw e (elim (Bool-cases (is_punct c)) [
    | inl g ↦ rw g (emit-ne (plain_tok (c ∷ [])) (scan between s) (scan-ne s between))
    | inr g ↦ rw g (elim (Bool-cases (nat_eq c b'\'')) [
      | inl k ↦ rw k (scan-ne s (in_quotes []))
      | inr k ↦ rw k (scan-ne s (in_word (c ∷ [])))
    ])
  ])
]
scan-ne (c ∷ s) (in_word w) = elim (Bool-cases (is_space c)) [
  | inl e ↦ rw e (emit-ne (plain_tok w) (scan between s) (scan-ne s between))
  | inr e ↦ rw e (elim (Bool-cases (is_punct c)) [
    | inl g ↦ rw g (
        emit-ne (plain_tok w) (emit (plain_tok (c ∷ [])) (scan between s))
          (emit-ne (plain_tok (c ∷ [])) (scan between s) (scan-ne s between)))
    | inr g ↦ rw g (elim (Bool-cases (nat_eq c b'\'')) [
      | inl k ↦ rw k (emit-ne (plain_tok w) (scan (in_quotes []) s) (scan-ne s (in_quotes [])))
      | inr k ↦ rw k (scan-ne s (in_word (snoc w c)))
    ])
  ])
]
scan-ne (c ∷ s) (in_quotes b) = elim (Bool-cases (nat_eq c b'\'')) [
  | inl k ↦ rw k (scan-ne s (after_quote b))
  | inr k ↦ rw k (scan-ne s (in_quotes (snoc b c)))
]
scan-ne (c ∷ s) (after_quote b) = elim (Bool-cases (nat_eq c b'\'')) [
  | inl k ↦ rw k (scan-ne s (in_quotes (snoc b b'\'')))
  | inr k ↦ rw k (elim (Bool-cases (is_space c)) [
    | inl e ↦ rw e (emit-ne (quoted_tok b) (scan between s) (scan-ne s between))
    | inr e ↦ rw e (elim (Bool-cases (is_punct c)) [
      | inl g ↦ rw g (
          emit-ne (quoted_tok b) (emit (plain_tok (c ∷ [])) (scan between s))
            (emit-ne (plain_tok (c ∷ [])) (scan between s) (scan-ne s between)))
      | inr g ↦
          rw g (emit-ne (quoted_tok b) (scan (in_word (c ∷ [])) s) (scan-ne s (in_word (c ∷ []))))
    ])
  ])
]

finished-ne : (m : ℕ) (r : FilterParse Filter) → Leaves m r → finished r ≢ err no_fuel
finished-ne m (err e) h k = h (cc)
finished-ne m (ok (f, [])) h e = cc
finished-ne m (ok (f, t ∷ ts)) h e = cc

some_tokens-ne :
    (schema : Fields) (r : Result FilterError (List FilterTok))
    → r ≢ err no_fuel
    → (r >>= some_tokens >>= (λ ts. finished (parse_or schema (enough ts) ts))) ≢ err no_fuel
some_tokens-ne schema (err e) h k = h (cc)
some_tokens-ne schema (ok []) h k = cc
some_tokens-ne schema (ok (t ∷ ts)) h k =
    finished-ne (length (t ∷ ts)) (parse_or schema (enough (t ∷ ts)) (t ∷ ts))
      (parse_or-Leaves schema (enough (t ∷ ts)) (t ∷ ts) (omega arith)) k

-- Reading a $filter never runs out of fuel: whatever the text and the schema of the entity type, the
-- answer is a filter or an error of the text.
pub parse_filter_total : (schema : Fields) (src : Text) → parse_filter schema src ≢ err no_fuel
unfolding parse_filter lex_filter
parse_filter_total schema src = some_tokens-ne schema (scan between src) (scan-ne src between)
