-- ===== src/Entra/Rule/Lexer.antt =====
-- lexRule of internal/entra/rule.go. The nested loops over `rs[i:]` are one recursion on the rest of
-- the source, with the loop that is running as the mode.
use mock_oidc.Prelude.{ℕ, Bool, ◌||◌, List, [], ◌∷◌, ◌++◌, nat_eq, if◌then◌else◌, Result, ok, err}
use mock_oidc.Text.{Text, is_space}

pub data RuleError : Type 0 where
  empty_rule unterminated_string expected_close expected_comma : RuleError
  not_a_guid unexpected expected_property unsupported_property : Text → RuleError
  expected_operator unsupported_operator only_eq_ne true_or_false : Text → RuleError
  needs_array needs_strings expected_value needs_string : Text → RuleError
  out_of_fuel : RuleError

pub data Token : Type 0 where
  word : Text → Token
  quoted : Text → Token
  punct : ℕ → Token

pub data Mode : Type 0 where
  between : Mode
  in_string : Text → Mode
  in_word : Text → Mode

-- strings.ContainsRune("()[],", r)
abbrev pub is_punct : ℕ → Bool
is_punct c = nat_eq c b'(' || nat_eq c b')' || nat_eq c b'[' || nat_eq c b']' || nat_eq c b','

abbrev pub emit : Token → Result RuleError (List Token) → Result RuleError (List Token)
emit t (ok ts) = ok (t ∷ ts)
emit t (err e) = err e

-- One round of the outer loop at the rune `c`; `next` lexes what follows it.
unfoldable pub start : ℕ → (Mode → Result RuleError (List Token)) → Result RuleError (List Token)
unfolding is_space
start c next =
    if is_space c
    then next between
    else if is_punct c
    then emit (punct c) (next between)
    else if nat_eq c b'"'
    then next (in_string [])
    else next (in_word (c ∷ []))

abbrev pub ends_word : ℕ → Bool
ends_word c = is_space c || is_punct c || nat_eq c b'"'

unfoldable pub lex : Text → Mode → Result RuleError (List Token)
unfolding start is_space
lex [] between = ok []
lex [] (in_string b) = err unterminated_string
lex [] (in_word w) = ok (word w ∷ [])
lex (c ∷ s) between = start c (lex s)
lex (c ∷ []) (in_string b) =
    if nat_eq c b'"' then emit (quoted b) (lex [] between) else err unterminated_string
lex (c ∷ d ∷ s) (in_string b) =
    let escaped = lex s (in_string (b ++ d ∷ [])) in
    let closed = lex (d ∷ s) between in
    let longer = lex (d ∷ s) (in_string (b ++ c ∷ [])) in
    if nat_eq c b'\\' then escaped else if nat_eq c b'"' then emit (quoted b) closed else longer
lex (c ∷ s) (in_word w) =
    let ended = emit (word w) (start c (lex s)) in
    let longer = lex s (in_word (w ++ c ∷ [])) in if ends_word c then ended else longer

-- lexRule
unfoldable pub lex_rule : Text → Result RuleError (List Token)
unfolding lex
lex_rule src = lex src between
