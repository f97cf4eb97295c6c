-- ===== src/Text/Decimal.antt =====
-- strconv.Itoa and strconv.Atoi on the 64-bit range.
use mock_oidc.Prelude.{
  ℕ, ℤ, ◌≡◌, is_empty, inl, ◌∷◌, not, Bool-cases, if◌then◌else◌, false, nat_eq, ◌+◌, inr, suc, ◌-◌,
  pos, ap, true, ◌*◌, some, ◌/◌, [], ◌%◌, all, leb, Bool, zero, ◌&&◌, none, arith, ◌<◌, ltb, ◌∙◌,
  Option, sub_ℕ, refl, sym,
}
use mock_oidc.Text.{Text}

-- The digits of `n` before `acc`; fuel above `n` is enough.
unfoldable pub digits : ℕ → ℕ → Text → Text
digits zero n acc = acc
digits (suc fuel) n acc =
    let rest = digits fuel (n / 10) ((48 + n % 10) ∷ acc) in
    if ltb n 10 then (48 + n) ∷ acc else rest

-- strconv.Itoa of a number that is not negative
unfoldable pub itoa : ℕ → Text
unfolding digits
itoa n = digits (suc n) n []

abbrev pub is_digit : ℕ → Bool
is_digit c = leb b'0' c && leb c b'9'

-- The number that the digits write, after `acc`.
unfoldable pub value : ℕ → Text → ℕ
value acc [] = acc
value acc (c ∷ s) = value (acc * 10 + (c - 48)) s

-- The largest int is 2^63 - 1.
abbrev pub int_bound : ℕ
int_bound = 9223372036854775808

abbrev unsigned : Text → Option ℕ
unsigned s = if not (is_empty s) && all is_digit s then some (value 0 s) else none

abbrev positive : Option ℕ → Option ℤ
positive none = none
positive (some n) = if ltb n int_bound then some (pos n) else none

abbrev negative : Option ℕ → Option ℤ
negative none = none
negative (some n) = if leb n int_bound then some (sub_ℕ 0 n) else none

-- strconv.Atoi: an optional sign and decimal digits within the range of int; none is its error
unfoldable pub atoi : Text → Option ℤ
unfolding value
atoi [] = none
atoi (c ∷ s) =
    if nat_eq c b'-'
    then negative (unsigned s)
    else positive (unsigned (if nat_eq c b'+' then s else c ∷ s))

digits-value : (fuel n : ℕ) (acc : Text) → n < fuel → value 0 (digits fuel n acc) ≡ value n acc
unfolding digits value
digits-value zero n acc h = absurd (omega arith)
digits-value (suc fuel) n acc h = elim (Bool-cases (ltb n 10)) [
  | inl e ↦ rw e (ap (λ k. value k acc) (omega arith))
  | inr e ↦ rw e (
      digits-value fuel (n / 10) ((48 + n % 10) ∷ acc) (ground arith)
      ∙ ap (λ k. value k acc) (omega arith))
]

-- Every rune is a digit.
digits-all :
    (fuel n : ℕ) (acc : Text) → all is_digit acc ≡ true → all is_digit (digits fuel n acc) ≡ true
unfolding digits
digits-all zero n acc h = h
digits-all (suc fuel) n acc h = ground (arith, digits-all fuel (n / 10) ((48 + n % 10) ∷ acc))

abbrev starts_with_digit : Text → Bool
starts_with_digit [] = false
starts_with_digit (c ∷ s) = is_digit c

digits-start :
    (fuel n : ℕ) (acc : Text)
    → starts_with_digit acc ≡ true
    → starts_with_digit (digits fuel n acc) ≡ true
unfolding digits
digits-start zero n acc h = h
digits-start (suc fuel) n acc h = ground (arith, digits-start fuel (n / 10) ((48 + n % 10) ∷ acc))

atoi-digits :
    (s : Text)
    → starts_with_digit s ≡ true
    → all is_digit s ≡ true
    → atoi s ≡ positive (some (value 0 s))
unfolding atoi
atoi-digits [] h k = cc
atoi-digits (c ∷ s) h k = ground arith

itoa-start : (n : ℕ) → starts_with_digit (itoa n) ≡ true
unfolding itoa
itoa-start n = ground (arith, digits-start n (n / 10) ((48 + n % 10) ∷ []))

-- A printed number has digits only.
pub itoa-digits : (n : ℕ) → all is_digit (itoa n) ≡ true
unfolding itoa
itoa-digits n = digits-all (suc n) n [] refl

-- Reading a printed number that fits an int gives the number back.
pub atoi-itoa : (n : ℕ) → n < int_bound → atoi (itoa n) ≡ some (pos n)
unfolding itoa value
atoi-itoa n h =
    atoi-digits (itoa n) (itoa-start n) (digits-all (suc n) n [] refl)
    ∙ ap (λ (m : ℕ). positive (some m)) (digits-value (suc n) n [] (omega arith))
    ∙ ground arith

pub itoa_injective : (m n : ℕ) → itoa m ≡ itoa n → m ≡ n
unfolding itoa value
itoa_injective m n e =
    sym (digits-value (suc m) m [] (omega arith))
    ∙ ap (λ (s : Text). value 0 s) e
    ∙ digits-value (suc n) n [] (omega arith)
