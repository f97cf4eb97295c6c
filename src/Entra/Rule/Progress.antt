-- ===== src/Entra/Rule/Progress.antt =====
-- How many tokens each part of the rule grammar leaves: a comparison, an array, a keyword.
use mock_oidc.Prelude.{
  ℕ, suc, ◌≤◌, ◌≡◌, ◌≢◌, Bool, some, List, [], ◌∷◌, arith, length, ok, err, ◌>>=◌, Option-cases,
  true, false, Bool-cases, inl, nat_eq, inr,
}
use mock_oidc.Text.{Text, lower}
use mock_oidc.Entra.Rule.Lexer.{out_of_fuel, Token, word, quoted, punct}
use mock_oidc.Entra.Rule.Comparisons.{
  keyword, punctuation, bool_value, Parsed, string_value, array_items, array, with_value,
  with_operator, comparison, Property, prepend, listed, text_property, takes_array,
}
use mock_oidc.Entra.Types.{Attr, Op}

-- The result is a value that leaves at most `m` tokens, or an error of the source.
abbrev pub Leaves : {A : Type 0} → ℕ → Parsed A → Type 0
Leaves m (ok (a, ts)) = length ts ≤ m
Leaves m (err e) = e ≢ out_of_fuel

pub Leaves-le : {A : Type 0} (r : Parsed A) {m n : ℕ} → m ≤ n → Leaves m r → Leaves n r
Leaves-le (ok (a, ts)) h l = omega arith
Leaves-le (err e) h l = l

pub keyword-length :
    (w : Text) (ts rest : List Token) → keyword w ts ≡ some rest → length ts ≡ suc (length rest)
unfolding keyword
keyword-length w [] rest h = cc
keyword-length w (word v ∷ ts) rest h = ground arith
keyword-length w (quoted s ∷ ts) rest h = cc
keyword-length w (punct c ∷ ts) rest h = cc

pub punctuation-length :
    (c : ℕ) (ts rest : List Token) → punctuation c ts ≡ some rest → length ts ≡ suc (length rest)
unfolding punctuation
punctuation-length c [] rest h = cc
punctuation-length c (word v ∷ ts) rest h = cc
punctuation-length c (quoted s ∷ ts) rest h = cc
punctuation-length c (punct d ∷ ts) rest h = ground arith

pub bool_value-Leaves :
    (p : Text) (e : Bool) (ts : List Token) → Leaves (length ts) (bool_value p e ts)
unfolding bool_value
bool_value-Leaves p e [] = cc
bool_value-Leaves p e (word v ∷ ts) = ground arith
bool_value-Leaves p e (quoted v ∷ ts) = cc
bool_value-Leaves p e (punct v ∷ ts) = cc

pub string_value-Leaves :
    (a : Attr) (o : Text) (op : Op) (ts : List Token) → Leaves (length ts) (string_value a o op ts)
unfolding string_value
string_value-Leaves a o op [] = cc
string_value-Leaves a o op (quoted s ∷ ts) = omega arith
string_value-Leaves a o op (word w ∷ ts) = ground arith
string_value-Leaves a o op (punct c ∷ ts) = cc

pub prepend-Leaves :
    (v : Text) (m : Parsed (List Text)) (n : ℕ) → Leaves n m → Leaves n (prepend v m)
prepend-Leaves v (ok (vs, ts)) n h = h
prepend-Leaves v (err e) n h = h

pub listed-Leaves :
    (a : Attr) (op : Op) (m : Parsed (List Text)) (n : ℕ) → Leaves n m → Leaves n (listed a op m)
listed-Leaves a op (ok (vs, ts)) n h = h
listed-Leaves a op (err e) n h = h

pub array_items-Leaves : (o : Text) (ts : List Token) → Leaves (length ts) (array_items o ts)
unfolding array_items
array_items-Leaves o [] = cc
array_items-Leaves o (word w ∷ ts) = cc
array_items-Leaves o (punct c ∷ ts) = cc
array_items-Leaves o (quoted s ∷ []) = cc
array_items-Leaves o (quoted s ∷ word w ∷ ts) = cc
array_items-Leaves o (quoted s ∷ quoted w ∷ ts) = cc
array_items-Leaves o (quoted s ∷ punct c ∷ ts) = elim (Bool-cases (nat_eq c b']')) [
  | inl e ↦ rw e (omega arith)
  | inr e ↦ rw e (elim (Bool-cases (nat_eq c b',')) [
    | inl g ↦ rw g (
        prepend-Leaves (lower s) (array_items o ts) _
          (Leaves-le (array_items o ts) (omega arith) (array_items-Leaves o ts)))
    | inr g ↦ rw g (cc)
  ])
]

pub array-Leaves : (o : Text) (ts : List Token) → Leaves (length ts) (array o ts)
unfolding array
array-Leaves o ts = elim (Option-cases (punctuation b'[' ts)) [
  | inl e ↦ rw (e, array) (cc)
  | inr (rest, e) ↦
      rw (e, array)
        (Leaves-le (array_items o rest) (omega (arith, punctuation-length b'[' ts rest e))
          (array_items-Leaves o rest))
]

pub with_value-Leaves :
    (p : Text) (q : Property) (o : Text) (op : Op) (ts : List Token)
    → Leaves (length ts) (with_value p q o op ts)
unfolding with_value
with_value-Leaves p Property.account_enabled o op ts =
    ground (arith, bool_value-Leaves p true ts, bool_value-Leaves p false ts)
with_value-Leaves p (text_property a) o op ts = elim (Bool-cases (takes_array op)) [
  | inl e ↦ rw e (listed-Leaves a op (array o ts) _ (array-Leaves o ts))
  | inr e ↦ rw e (string_value-Leaves a o op ts)
]

pub with_operator-Leaves :
    (p : Text) (q : Property) (ts : List Token) → Leaves (length ts) (with_operator p q ts)
unfolding with_operator
with_operator-Leaves p q [] = cc
with_operator-Leaves p q (word o ∷ ts) = grind (arith, with_value-Leaves, Leaves-le)
with_operator-Leaves p q (quoted o ∷ ts) = cc
with_operator-Leaves p q (punct o ∷ ts) = cc

pub comparison-Leaves : (ts : List Token) → Leaves (length ts) (comparison ts)
unfolding comparison
comparison-Leaves [] = cc
comparison-Leaves (word o ∷ ts) = grind (arith, with_operator-Leaves)
comparison-Leaves (quoted o ∷ ts) = cc
comparison-Leaves (punct o ∷ ts) = cc

module _ {A B : Type 0} where
  pub bind-Leaves :
      (m : Parsed A) (f : A × List Token → Parsed B) (k n : ℕ)
      → Leaves k m
      → ((a : A) (ts : List Token) → length ts ≤ k → Leaves n (f (a, ts)))
      → Leaves n (m >>= f)
  bind-Leaves (ok (a, ts)) f k n l h = h a ts l
  bind-Leaves (err e) f k n l h = l
