-- ===== src/Entra/Filter/Lexer.antt =====
-- internal/entra/filter.go, lexFilter: the tokens of a $filter expression.
use mock_oidc.Prelude.{
  ℕ, true, List, ◌++◌, Bool, [], false, if◌then◌else◌, Result, ok, ◌∷◌, err, nat_eq, ◌||◌, ◌>>=◌,
}
use mock_oidc.Text.{Text, is_space}

-- An expression that is not accepted; `no_fuel` is the model's own.
pub data FilterError : Type 0 where
  unterminated : FilterError
  empty_expression : FilterError
  unexpected_token : Text → FilterError
  expected : Text → FilterError
  complex_property : Text → FilterError
  unknown_property : Text → FilterError
  bad_operator : Text → FilterError
  no_fuel : FilterError

-- filterTok
pub record FilterTok : Type 0 where
  pub str : Bool
  pub text : Text

abbrev pub plain_tok : Text → FilterTok
plain_tok s = record { str = false; text = s }

abbrev pub quoted_tok : Text → FilterTok
quoted_tok s = record { str = true; text = s }

-- "(),:"
abbrev pub is_punct : ℕ → Bool
is_punct c = nat_eq c b'(' || nat_eq c b')' || nat_eq c b',' || nat_eq c b':'

-- Where the scan is: `after_quote` has read a quote that may be the first of two.
pub data Scan : Type 0 where
  between : Scan
  in_word : Text → Scan
  in_quotes : Text → Scan
  after_quote : Text → Scan

abbrev pub emit :
    FilterTok → Result FilterError (List FilterTok) → Result FilterError (List FilterTok)
emit t (err e) = err e
emit t (ok ts) = ok (t ∷ ts)

-- The text of a token is kept in order.
abbrev pub snoc : Text → ℕ → Text
snoc s c = s ++ c ∷ []

-- The loop of lexFilter.
unfoldable pub scan : Scan → Text → Result FilterError (List FilterTok)
scan between [] = ok []
scan (in_word w) [] = ok (plain_tok w ∷ [])
scan (in_quotes b) [] = err unterminated
scan (after_quote b) [] = ok (quoted_tok b ∷ [])
scan between (c ∷ s) =
    let skip = scan between s in
    let quote = scan (in_quotes []) s in
    let start = scan (in_word (c ∷ [])) s in
    if is_space c
    then skip
    else if is_punct c
    then emit (plain_tok (c ∷ [])) skip
    else if nat_eq c b'\''
    then quote
    else start
scan (in_word w) (c ∷ s) =
    let skip = scan between s in
    let quote = scan (in_quotes []) s in
    let more = scan (in_word (snoc w c)) s in
    if is_space c
    then emit (plain_tok w) skip
    else if is_punct c
    then emit (plain_tok w) (emit (plain_tok (c ∷ [])) skip)
    else if nat_eq c b'\''
    then emit (plain_tok w) quote
    else more
scan (in_quotes b) (c ∷ s) =
    let close = scan (after_quote b) s in
    let more = scan (in_quotes (snoc b c)) s in if nat_eq c b'\'' then close else more
scan (after_quote b) (c ∷ s) =
    let doubled = scan (in_quotes (snoc b b'\'')) s in
    let skip = scan between s in
    let start = scan (in_word (c ∷ [])) s in
    if nat_eq c b'\''
    then doubled
    else emit (quoted_tok b)
        (if is_space c then skip else if is_punct c then emit (plain_tok (c ∷ [])) skip else start)

abbrev pub some_tokens : List FilterTok → Result FilterError (List FilterTok)
some_tokens [] = err empty_expression
some_tokens (t ∷ ts) = ok (t ∷ ts)

-- lexFilter
unfoldable pub lex_filter : Text → Result FilterError (List FilterTok)
lex_filter s = scan between s >>= some_tokens
