-- ===== src/Entra/Filter/Progress.antt =====
-- How many tokens each comparison of a $filter leaves.
use mock_oidc.Entra.Filter.Terms.{
  FilterParse, word, expect, path, literal, required, resolve, with_rest, keyword_literal,
  string_token, in_literals, plain_word, leaf, resolve_from,
}
use mock_oidc.Entra.Filter.Lexer.{FilterTok, FilterError, no_fuel}
use mock_oidc.Prelude.{
  ℕ, err, List, Result, ◌∷◌, Bool-cases, zero, ◌||◌, Option-cases, ◌≤◌, ◌≡◌, none, length, inr, ◌≢◌,
  [], ◌<◌, ok, ◌>>=◌, arith, Option, any, suc, ap, inl, not, ◌&&◌, some, some-eq,
}
use mock_oidc.Text.{Text, equal_fold, split, lower, txt}
use mock_oidc.Json.{Fields, Json, object, string, boolean, strings, null}
use mock_oidc.Entra.Filter.Lexer.{is_punct}

-- The result is a value that leaves at most `m` tokens, or an error of the source.
abbrev pub Leaves : {A : Type 0} → ℕ → FilterParse A → Type 0
Leaves m (ok (a, ts)) = length ts ≤ m
Leaves m (err e) = e ≢ no_fuel

-- An error of the source where there is none.
abbrev pub Sourced : {A : Type 0} → Result FilterError A → Type 0
Sourced (ok a) = Unit {0}
Sourced (err e) = e ≢ no_fuel

pub Leaves-le : {A : Type 0} (r : FilterParse A) {m n : ℕ} → m ≤ n → Leaves m r → Leaves n r
Leaves-le (ok (a, ts)) h l = omega arith
Leaves-le (err e) h l = l

module _ {A B : Type 0} where
  pub bind-Leaves :
      (m : FilterParse A) (f : A × List FilterTok → FilterParse B) (k n : ℕ)
      → Leaves k m
      → ((a : A) (ts : List FilterTok) → length ts ≤ k → Leaves n (f (a, ts)))
      → Leaves n (m >>= f)
  bind-Leaves (ok (a, ts)) f k n l h = h a ts l
  bind-Leaves (err e) f k n l h = l

  pub bind-Sourced :
      (m : Result FilterError A) (f : A → FilterParse B) (n : ℕ)
      → Sourced m
      → ((a : A) → Leaves n (f a))
      → Leaves n (m >>= f)
  bind-Sourced (ok a) f n s h = h a
  bind-Sourced (err e) f n s h = s

pub word-length :
    (w : Text) (ts rest : List FilterTok) → word w ts ≡ some rest → length ts ≡ suc (length rest)
unfolding word
word-length w [] rest h = cc
word-length w (t ∷ ts) rest h = elim (Bool-cases (not t.str && equal_fold t.text w)) [
  | inl e ↦
      ap (λ (m : ℕ). suc m) (ap (λ (x : List FilterTok). length x) (some-eq (rw (e, word) at h)))
  | inr e ↦ cc (rw (e, word) at h)
]

pub required-Leaves :
    (w v : Text) (ts : List FilterTok) → Leaves (length ts) (required w (word v ts))
required-Leaves w v ts = elim (Option-cases (word v ts)) [
  | inl e ↦ rw e (cc)
  | inr (rest, e) ↦ rw e (omega (arith, word-length v ts rest e))
]

pub expect-Leaves : (w : Text) (ts : List FilterTok) → Leaves (length ts) (expect w ts)
unfolding expect
expect-Leaves w ts = required-Leaves w w ts

leaf-Sourced : (raw : Text) (p : List Text) (o : Option Json) → Sourced (leaf raw p o)
leaf-Sourced raw p none = cc
leaf-Sourced raw p (some (object f)) = cc
leaf-Sourced raw p (some null) = tt
leaf-Sourced raw p (some (string s)) = tt
leaf-Sourced raw p (some (boolean b)) = tt
leaf-Sourced raw p (some (strings ss)) = tt

pub resolve-Sourced : (schema : Fields) (raw : Text) → Sourced (resolve schema raw)
unfolding resolve
resolve-Sourced schema raw =
    leaf-Sourced raw (split raw b'/') (resolve_from (some (object schema)) (split raw b'/'))

with_rest-Leaves :
    {A : Type 0} (ts : List FilterTok) (m : Result FilterError A)
    → Sourced m
    → Leaves (length ts) (with_rest ts m)
with_rest-Leaves ts (ok a) s = omega arith
with_rest-Leaves ts (err e) s = s

pub path-Leaves : (schema : Fields) (ts : List FilterTok) → Leaves (length ts) (path schema ts)
unfolding path
path-Leaves schema [] = cc
path-Leaves schema (t ∷ ts) = elim (Bool-cases (t.str || any is_punct t.text)) [
  | inl e ↦ rw e (cc)
  | inr e ↦ rw e (
      Leaves-le (with_rest ts (resolve schema t.text)) (omega arith)
        (with_rest-Leaves ts (resolve schema t.text) (resolve-Sourced schema t.text)))
]

-- A literal takes a token.
literal-shorter : (ts : List FilterTok) (m : ℕ) → length ts ≤ suc m → Leaves m (literal ts)
unfolding literal
literal-shorter [] m h = cc
literal-shorter (t ∷ ts) m h = elim (Bool-cases t.str) [
  | inl e ↦ rw e (omega arith)
  | inr e ↦ elim (Option-cases (keyword_literal (lower t.text))) [
    | inl g ↦ rw (e, g) (cc)
    | inr (v, g) ↦ rw (e, g) (omega arith)
  ]
]

pub literal-Leaves : (ts : List FilterTok) → Leaves (length ts) (literal ts)
literal-Leaves ts = literal-shorter ts (length ts) (omega arith)

pub string_token-Leaves : (ts : List FilterTok) → Leaves (length ts) (string_token ts)
string_token-Leaves [] = cc
string_token-Leaves (t ∷ ts) = elim (Bool-cases t.str) [
  | inl e ↦ rw e (omega arith)
  | inr e ↦ rw e (cc)
]

pub plain_word-Leaves : (w : Text) (ts : List FilterTok) → Leaves (length ts) (plain_word w ts)
plain_word-Leaves w [] = cc
plain_word-Leaves w (t ∷ ts) = elim (Bool-cases t.str) [
  | inl e ↦ rw e (cc)
  | inr e ↦ rw e (omega arith)
]

-- A part that leaves no more tokens than it was given, and what follows it.
module _ {A B : Type 0} (p : List FilterTok → FilterParse A)
    (law : (ts : List FilterTok) → Leaves (length ts) (p ts)) where
  pub step-Leaves :
      (ts : List FilterTok) (f : A × List FilterTok → FilterParse B) (n : ℕ)
      → length ts ≤ n
      → ((a : A) (ts₁ : List FilterTok) → length ts₁ ≤ n → Leaves n (f (a, ts₁)))
      → Leaves n (p ts >>= f)
  step-Leaves ts f n h k = bind-Leaves (p ts) f n n (Leaves-le (p ts) h (law ts)) k

pub in_literals-Leaves :
    (n : ℕ) (ts : List FilterTok) → length ts < n → Leaves (length ts) (in_literals n ts)
unfolding in_literals literal
in_literals-Leaves zero ts h = absurd (omega arith)
in_literals-Leaves (suc n) [] h = cc
in_literals-Leaves (suc n) (t ∷ ts) h =
    bind-Leaves (literal (t ∷ ts)) _ (length ts) (suc (length ts))
      (literal-shorter (t ∷ ts) (length ts) (omega arith))
      λ lit ts₁ l. elim (Option-cases (word (txt ")") ts₁)) [
        | inr (ts₂, e) ↦ rw e (omega (arith, word-length (txt ")") ts₁ ts₂ e))
        | inl e ↦ rw e (
            bind-Leaves (expect (txt ",") ts₁) _ (length ts₁) (suc (length ts))
              (expect-Leaves (txt ",") ts₁)
              λ u ts₂ l₂.
                bind-Leaves (in_literals n ts₂) _ (length ts₂) (suc (length ts))
                  (in_literals-Leaves n ts₂ (omega arith)) λ lits ts₃ l₃. omega arith)
      ]
