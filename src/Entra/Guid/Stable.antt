-- ===== src/Entra/Guid/Stable.antt =====
-- Trimming a GUID and lowering its case.
use mathlib.Core.List.{reverse_aux, reverse-reverse}
use mock_oidc.Prelude.{
  ℕ, inr, false, ◌≡◌, subst, All, inl, some, Bool-cases, ◌∷◌, Option, zero, true, sym, arith, suc,
  none, [], ap, refl, ◌∙◌, nat_eq, reverse, some-eq,
}
use mock_oidc.Text.{Text, lower_rune, lower, is_space, trim_left, trim, trim_space}
use mock_oidc.Entra.Guid.{is_hex_digit, hex_run, dash, then_hex, at_end, is_guid}

-- A rune of a GUID.
abbrev pub IsPlain : ℕ → Type 0
IsPlain c = (lower_rune c ≡ c) × (is_space c ≡ false)

hex_digit-IsPlain : (c : ℕ) → is_hex_digit c ≡ true → IsPlain c
unfolding lower_rune is_space
hex_digit-IsPlain c h = (ground arith, ground arith)

hex_run-IsPlain : (n : ℕ) (s r : Text) → hex_run n s ≡ some r → All IsPlain r → All IsPlain s
unfolding hex_run
hex_run-IsPlain zero s r e h = subst (All IsPlain) (sym (some-eq e)) h
hex_run-IsPlain (suc n) [] r e h = cc
hex_run-IsPlain (suc n) (c ∷ s) r e h = elim (Bool-cases (is_hex_digit c)) [
  | inl k ↦ (hex_digit-IsPlain c k, hex_run-IsPlain n s r (rw (k, hex_run) at e) h)
  | inr k ↦ cc (rw (k, hex_run) at e)
]

dash-IsPlain :
    (o : Option Text) (r : Text)
    → dash o ≡ some r
    → All IsPlain r
    → (s : Text) × (o ≡ some s) × All IsPlain s
unfolding dash lower_rune is_space
dash-IsPlain none r e h = cc
dash-IsPlain (some []) r e h = cc
dash-IsPlain (some (c ∷ s)) r e h = elim (Bool-cases (nat_eq c b'-')) [
  | inl k ↦
      let rest = some-eq (rw (k, dash) at e) in
      (c ∷ s, refl, ((ground arith, ground arith), subst (All IsPlain) (sym rest) h))
  | inr k ↦ cc (rw (k, dash) at e)
]

then_hex-IsPlain :
    (n : ℕ) (o : Option Text) (r : Text)
    → then_hex n o ≡ some r
    → All IsPlain r
    → (s : Text) × (o ≡ some s) × All IsPlain s
then_hex-IsPlain n none r e h = cc
then_hex-IsPlain n (some s) r e h = (s, refl, hex_run-IsPlain n s r e h)

at_end-some : (o : Option Text) → at_end o ≡ true → o ≡ some []
at_end-some none h = cc
at_end-some (some []) h = refl
at_end-some (some (c ∷ s)) h = cc

is_guid-IsPlain : (s : Text) → is_guid s ≡ true → All IsPlain s
unfolding is_guid
is_guid-IsPlain s h =
    let (s₁, e₁, p₁) = then_hex-IsPlain 12 _ [] (at_end-some _ h) tt in
    let (s₂, e₂, p₂) = dash-IsPlain _ s₁ e₁ p₁ in
    let (s₃, e₃, p₃) = then_hex-IsPlain 4 _ s₂ e₂ p₂ in
    let (s₄, e₄, p₄) = dash-IsPlain _ s₃ e₃ p₃ in
    let (s₅, e₅, p₅) = then_hex-IsPlain 4 _ s₄ e₄ p₄ in
    let (s₆, e₆, p₆) = dash-IsPlain _ s₅ e₅ p₅ in
    let (s₇, e₇, p₇) = then_hex-IsPlain 4 _ s₆ e₆ p₆ in
    let (s₈, e₈, p₈) = dash-IsPlain _ s₇ e₇ p₇ in hex_run-IsPlain 8 s s₈ e₈ p₈

lower-plain : (s : Text) → All IsPlain s → lower s ≡ s
unfolding lower
lower-plain [] h = refl
lower-plain (c ∷ s) ((p, _), h) = cc (p, lower-plain s h)

trim_left-plain : (s : Text) → All IsPlain s → trim_left is_space s ≡ s
unfolding trim_left
trim_left-plain [] h = refl
trim_left-plain (c ∷ s) ((_, p), h) = rw p

reverse_aux-IsPlain : (s t : Text) → All IsPlain s → All IsPlain t → All IsPlain (reverse_aux s t)
reverse_aux-IsPlain [] t h k = k
reverse_aux-IsPlain (c ∷ s) t (p, h) k = reverse_aux-IsPlain s (c ∷ t) h (p, k)

pub trim_space-plain : (s : Text) → All IsPlain s → trim_space s ≡ s
unfolding trim_space trim
trim_space-plain s h =
    rw (trim_left-plain s h, trim_left-plain (reverse s) (reverse_aux-IsPlain s [] h tt))
      (reverse-reverse s)

-- Normalizing a GUID changes nothing.
pub is_guid-stable : (s : Text) → is_guid s ≡ true → lower (trim_space s) ≡ s
is_guid-stable s h =
    let p = is_guid-IsPlain s h in ap lower (trim_space-plain s p) ∙ lower-plain s p

pub is_guid-lower : (s : Text) → is_guid s ≡ true → lower s ≡ s
is_guid-lower s h = lower-plain s (is_guid-IsPlain s h)
