-- ===== src/Text/Laws.antt =====
-- Laws of the text operations.
use mock_oidc.Prelude.{
  ℕ, ◌≡◌, refl, ap, sym, ◌∙◌, ◌↔◌, true, ◌||◌, List, [], ◌∷◌, ◌++◌, arith, Bool-ext,
}
use mock_oidc.Text.{Text, ◌==◌, lower_rune, lower, mem}

==-sound : (s t : Text) → (s == t) ≡ true → s ≡ t
unfolding ◌==◌
==-sound [] [] h = refl
==-sound [] (d ∷ t) h = cc
==-sound (c ∷ s) [] h = cc
==-sound (c ∷ s) (d ∷ t) h = ground (arith, ==-sound s t)

pub ==-refl : (s : Text) → (s == s) ≡ true
unfolding ◌==◌
==-refl [] = refl
==-refl (c ∷ s) = ground (arith, ==-refl s)

pub eq_iff : (s t : Text) → ((s == t) ≡ true) ↔ (s ≡ t)
eq_iff s t = (==-sound s t, λ e. ap (λ x. s == x) (sym e) ∙ ==-refl s)

lower_rune_idem : (c : ℕ) → lower_rune (lower_rune c) ≡ lower_rune c
unfolding lower_rune
lower_rune_idem c = ground arith

pub lower_idem : (s : Text) → lower (lower s) ≡ lower s
unfolding lower
lower_idem [] = refl
lower_idem (c ∷ s) = cc (lower_rune_idem c, lower_idem s)

pub lower-append : (s t : Text) → lower (s ++ t) ≡ lower s ++ lower t
unfolding lower
lower-append [] t = refl
lower-append (c ∷ s) t = ap (λ r. lower_rune c ∷ r) (lower-append s t)

pub mem-cons : (s t : Text) (l : List Text) → mem s (t ∷ l) ≡ (t == s || mem s l)
unfolding mem
mem-cons s t l = refl

pub ==-sym : (s t : Text) → (s == t) ≡ (t == s)
==-sym s t =
    Bool-ext (s == t) (t == s) (λ e. (eq_iff t s).1 (sym ((eq_iff s t).0 e)))
      (λ e. (eq_iff s t).1 (sym ((eq_iff t s).0 e)))
