-- ===== src/Entra/Filter/Comparisons.antt =====
-- The tokens that a comparison of a $filter leaves.
use mock_oidc.Prelude.{
  ℕ, inl, arith, length, ◌∷◌, List, suc, [], ◌≤◌, take, inr, ◌>>=◌, ◌-◌, Bool-cases, ok,
}
use mock_oidc.Entra.Filter.Terms.{
  word, expect, path, literal, required, in_literals, parse_starts_with, with_op, parse_any,
  compare_at, parse_comparison, names_any, resolve, plain_word, string_token, collection_only,
}
use mock_oidc.Entra.Filter.Lexer.{FilterTok}
use mock_oidc.Entra.Filter.Progress.{
  Leaves, Leaves-le, bind-Leaves, step-Leaves, Sourced, bind-Sourced, literal-Leaves,
  in_literals-Leaves, path-Leaves, expect-Leaves, resolve-Sourced, plain_word-Leaves,
  string_token-Leaves, required-Leaves,
}
use mock_oidc.Entra.Filter.{eq, ne, FilterOp, filter_cmp, is_in, lookup_path}
use mock_oidc.Json.{string, Fields, Json, strings, boolean, object, null}
use mock_oidc.Text.{Text, lower, ◌==◌, txt}

pub parse_starts_with-Leaves :
    (schema : Fields) (ts : List FilterTok) → Leaves (length ts) (parse_starts_with schema ts)
unfolding parse_starts_with
parse_starts_with-Leaves schema ts =
    let n = length ts in
    step-Leaves (expect (txt "(")) (expect-Leaves (txt "(")) ts _ n (omega arith) λ u ts₁ l₁.
      step-Leaves (path schema) (path-Leaves schema) ts₁ _ n l₁ λ p ts₂ l₂.
        step-Leaves (expect (txt ",")) (expect-Leaves (txt ",")) ts₂ _ n l₂ λ u' ts₃ l₃.
          step-Leaves string_token string_token-Leaves ts₃ _ n l₃ λ s ts₄ l₄.
            step-Leaves (expect (txt ")")) (expect-Leaves (txt ")")) ts₄ _ n l₄ λ u'' ts₅ l₅. l₅

compared :
    (p : List Text) (o : FilterOp) (ts : List FilterTok) (n : ℕ)
    → length ts ≤ n
    → Leaves n (literal ts >>= (λ (lit, ts₁). ok (filter_cmp p o (lit ∷ []), ts₁)))
compared p o ts n h = step-Leaves literal literal-Leaves ts _ n h λ lit ts₁ l. l

listed :
    (p : List Text) (ts : List FilterTok) (n : ℕ)
    → length ts ≤ n
    → Leaves n
        (in_literals (suc (length ts)) ts >>= (λ (lits, ts₁). ok (filter_cmp p is_in lits, ts₁)))
listed p ts n h =
    bind-Leaves (in_literals (suc (length ts)) ts) _ (length ts) n
      (in_literals-Leaves (suc (length ts)) ts (omega arith)) λ lits ts₁ l. omega arith

with_op-Leaves :
    (p : List Text) (op : Text) (ts : List FilterTok) (n : ℕ)
    → length ts ≤ n
    → Leaves n (with_op p op ts)
unfolding with_op
with_op-Leaves p op ts n h = elim (Bool-cases (lower op == txt "eq")) [
  | inl e ↦ rw e (compared p eq ts n h)
  | inr e ↦ rw e (elim (Bool-cases (lower op == txt "ne")) [
    | inl g ↦ rw g (compared p ne ts n h)
    | inr g ↦ rw g (elim (Bool-cases (lower op == txt "in")) [
      | inl k ↦ rw k (
          step-Leaves (expect (txt "(")) (expect-Leaves (txt "(")) ts _ n h
            λ u ts₁ l. listed p ts₁ n l)
      | inr k ↦ rw k (cc)
    ])
  ])
]

collection_only-Sourced : (p : List Text) (v : Json) → Sourced (collection_only p v)
collection_only-Sourced p (strings ss) = tt
collection_only-Sourced p null = cc
collection_only-Sourced p (string s) = cc
collection_only-Sourced p (boolean b) = cc
collection_only-Sourced p (object f) = cc

parse_any-Leaves :
    (schema : Fields) (text : Text) (ts : List FilterTok)
    → Leaves (length ts) (parse_any schema text ts)
unfolding parse_any
parse_any-Leaves schema text ts =
    let n = length ts in
    bind-Sourced (resolve schema (take (length text - 4) text)) _ n
      (resolve-Sourced schema (take (length text - 4) text))
      λ p.
        bind-Sourced (collection_only p (lookup_path (object schema) p)) _ n
          (collection_only-Sourced p (lookup_path (object schema) p))
          λ q.
            step-Leaves (expect (txt "(")) (expect-Leaves (txt "(")) ts _ n (omega arith)
              λ u ts₁ l₁.
                step-Leaves (plain_word (txt "a lambda variable"))
                  (plain_word-Leaves (txt "a lambda variable")) ts₁ _ n l₁
                  λ v ts₂ l₂.
                    step-Leaves (expect (txt ":")) (expect-Leaves (txt ":")) ts₂ _ n l₂ λ u₂ ts₃ l₃.
                      step-Leaves (expect v) (expect-Leaves v) ts₃ _ n l₃ λ u₃ ts₄ l₄.
                        step-Leaves (λ ts. required (txt "eq") (word (txt "eq") ts))
                          (required-Leaves (txt "eq") (txt "eq")) ts₄ _ n l₄
                          λ u₄ ts₅ l₅. step-Leaves literal literal-Leaves ts₅ _ n l₅ λ lit ts₆ l₆.
                            step-Leaves (expect (txt ")")) (expect-Leaves (txt ")")) ts₆ _ n l₆
                              λ u₅ ts₇ l₇. l₇

compare_at-Leaves :
    (schema : Fields) (ts : List FilterTok) → Leaves (length ts) (compare_at schema ts)
unfolding compare_at
compare_at-Leaves schema ts =
    let n = length ts in
    step-Leaves (path schema) (path-Leaves schema) ts _ n (omega arith) λ p ts₁ l₁.
      step-Leaves (plain_word (txt "an operator")) (plain_word-Leaves (txt "an operator")) ts₁ _ n
        l₁ λ op ts₂ l₂. with_op-Leaves p op ts₂ n l₂

pub parse_comparison-Leaves :
    (schema : Fields) (ts : List FilterTok) → Leaves (length ts) (parse_comparison schema ts)
unfolding parse_comparison
parse_comparison-Leaves schema [] = compare_at-Leaves schema []
parse_comparison-Leaves schema (t ∷ ts) = elim (Bool-cases (names_any t)) [
  | inl e ↦
      rw e
        (Leaves-le (parse_any schema t.text ts) (omega arith) (parse_any-Leaves schema t.text ts))
  | inr e ↦ rw e (compare_at-Leaves schema (t ∷ ts))
]
