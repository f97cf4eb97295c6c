-- ===== src/Entra/Filter/Quoting.antt =====
-- String literals of a $filter: how a client quotes a text, and what the lexer reads back.
use mock_oidc.Entra.Filter.Lexer.{emit, between, scan, snoc, after_quote, in_quotes, quoted_tok}
use mock_oidc.Prelude.{
  ℕ, true, refl, ◌∙◌, inl, nat_eq, arith, [], if◌then◌else◌, Bool, ◌∷◌, Bool-cases, not, inr, ◌++◌,
  ap, ◌≡◌, sym,
}
use mock_oidc.Text.{Text, is_space}

-- OData's quoting: quotes around the text, and each quote in it doubled.
unfoldable pub doubled : Text → Text
doubled [] = []
doubled (c ∷ s) = let rest = doubled s in if nat_eq c b'\'' then b'\'' ∷ b'\'' ∷ rest else c ∷ rest

unfoldable pub quoted_text : Text → Text
quoted_text s = b'\'' ∷ doubled s ++ b'\'' ∷ []

-- The text does not go on with a quote.
abbrev pub unquoted : Text → Bool
unquoted [] = true
unquoted (c ∷ s) = not (nat_eq c b'\'')

snoc-append : (b : Text) (c : ℕ) (s : Text) → snoc b c ++ s ≡ b ++ c ∷ s
snoc-append [] c s = refl
snoc-append (d ∷ b) c s = ap (λ t. d ∷ t) (snoc-append b c s)

append_nil : (s : Text) → s ++ [] ≡ s
append_nil [] = refl
append_nil (c ∷ s) = ap (λ t. c ∷ t) (append_nil s)

closed :
    (b rest : Text)
    → unquoted rest ≡ true
    → scan (after_quote b) rest ≡ emit (quoted_tok b) (scan between rest)
unfolding scan
closed b [] h = refl
closed b (c ∷ s) h = elim (Bool-cases (nat_eq c b'\'')) [
  | inl e ↦ cc (rw e at h)
  | inr e ↦ rw e refl
]

inside :
    (b s rest : Text)
    → unquoted rest ≡ true
    → scan (in_quotes b) (doubled s ++ b'\'' ∷ rest)
      ≡ emit (quoted_tok (b ++ s)) (scan between rest)
unfolding scan doubled
inside b [] rest h =
    closed b rest h ∙ ap (λ t. emit (quoted_tok t) (scan between rest)) (sym (append_nil b))
inside b (c ∷ s) rest h = elim (Bool-cases (nat_eq c b'\'')) [
  | inl e ↦
      let same : c ≡ b'\'' = ground (arith, e) in
      rw e (
        inside (snoc b b'\'') s rest h
        ∙ ap (λ t. emit (quoted_tok t) (scan between rest))
            (snoc-append b b'\'' s ∙ ap (λ (d : ℕ). b ++ d ∷ s) (sym same)))
  | inr e ↦
      rw (e, e)
        (inside (snoc b c) s rest h
          ∙ ap (λ t. emit (quoted_tok t) (scan between rest)) (snoc-append b c s))
]

append_assoc : (s t u : Text) → (s ++ t) ++ u ≡ s ++ (t ++ u)
append_assoc [] t u = refl
append_assoc (c ∷ s) t u = ap (λ x. c ∷ x) (append_assoc s t u)

-- A quoted text is read back as one string token with that text, whatever the text holds, and the scan
-- goes on behind it as from a fresh start, where what follows does not begin with another quote.
pub scan-quoted_text :
    (s rest : Text)
    → unquoted rest ≡ true
    → scan between (quoted_text s ++ rest) ≡ emit (quoted_tok s) (scan between rest)
unfolding scan quoted_text is_space
scan-quoted_text s rest h =
    ap (λ t. scan (in_quotes []) t) (append_assoc (doubled s) (b'\'' ∷ []) rest)
    ∙ inside [] s rest h
