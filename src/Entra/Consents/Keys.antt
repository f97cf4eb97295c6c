-- ===== src/Entra/Consents/Keys.antt =====
-- The string keys of the consent store, for tenant ids with and without a bar.
use mock_oidc.Prelude.{
  ◌≡◌, nat_eq, All, false, ◌++◌, ◌&&◌, arith, refl, ℕ, [], All-append, ◌∷◌, append_assoc, reverse,
  ◌∙◌, ap, sym, subst, reverse-cons, reverse-reverse, reverse-append, Bool-ext,
}
use mock_oidc.Text.{Text, ◌==◌, has_prefix, has_suffix}
use mock_oidc.Text.Laws.{eq_iff}

-- No bar, as in a GUID.
abbrev pub NoBar : Text → Type 0
NoBar t = All (λ c. nat_eq c b'|' ≡ false) t

NoBar-append : (s : Text) (c : ℕ) → NoBar s → nat_eq c b'|' ≡ false → NoBar (s ++ c ∷ [])
NoBar-append s c h k = All-append (λ x. nat_eq x b'|' ≡ false) s (c ∷ []) h (k, tt)

-- A text without a bar is none that has one.
differs_from_joined : (t c u : Text) → NoBar t → (t == (c ++ b'|' ∷ u)) ≡ false
unfolding ◌==◌
differs_from_joined [] [] u h = refl
differs_from_joined [] (d ∷ c) u h = refl
differs_from_joined (x ∷ t) [] u (p, h) = rw p refl
differs_from_joined (x ∷ t) (d ∷ c) u (p, h) = rw (differs_from_joined t c u h) (ground arith)

joined_differs : (t c u : Text) → NoBar t → ((c ++ b'|' ∷ u) == t) ≡ false
unfolding ◌==◌
joined_differs [] [] u h = refl
joined_differs [] (d ∷ c) u h = refl
joined_differs (x ∷ t) [] u (p, h) = ground arith
joined_differs (x ∷ t) (d ∷ c) u (p, h) = rw (joined_differs t c u h) (ground arith)

-- Two pairs joined by a bar are equal when their parts are.
pub joined-eq :
    (c c' t t' : Text)
    → NoBar t
    → NoBar t'
    → ((c ++ b'|' ∷ t) == (c' ++ b'|' ∷ t')) ≡ (c == c' && t == t')
unfolding ◌==◌
joined-eq [] [] t t' h h' = refl
joined-eq [] (d ∷ c') t t' h h' = rw (differs_from_joined t c' t' h) (ground arith)
joined-eq (d ∷ c) [] t t' h h' = rw (joined_differs t' c t h') (ground arith)
joined-eq (d ∷ c) (d' ∷ c') t t' h h' = rw (joined-eq c c' t t' h h') (ground arith)

prefix-joined :
    (a b x : Text) → NoBar a → NoBar b → has_prefix (a ++ b'|' ∷ x) (b ++ b'|' ∷ []) ≡ (a == b)
unfolding has_prefix ◌==◌
prefix-joined [] [] x h k = refl
prefix-joined [] (d ∷ b) x h (p, k) = ground arith
prefix-joined (c ∷ a) [] x (p, h) k = ground arith
prefix-joined (c ∷ a) (d ∷ b) x (p, h) (q, k) = rw (prefix-joined a b x h k) refl

NoBar-reverse : (s : Text) → NoBar s → NoBar (reverse s)
NoBar-reverse [] h = tt
NoBar-reverse (c ∷ s) (p, h) =
    subst NoBar (sym (reverse-cons c s)) (NoBar-append (reverse s) c (NoBar-reverse s h) p)

same-reverse : (s t : Text) → (reverse s == reverse t) ≡ (s == t)
same-reverse s t =
    Bool-ext (reverse s == reverse t) (s == t)
      (λ e. (eq_iff s t).1 (
        sym (reverse-reverse s)
        ∙ ap (λ (x : Text). reverse x) ((eq_iff (reverse s) (reverse t)).0 e)
        ∙ reverse-reverse t))
      (λ e. (eq_iff (reverse s) (reverse t)).1 (ap (λ (x : Text). reverse x) ((eq_iff s t).0 e)))

reverse-joined : (c t : Text) → reverse (c ++ b'|' ∷ t) ≡ reverse t ++ b'|' ∷ reverse c
reverse-joined c t =
    reverse-append c (b'|' ∷ t)
    ∙ ap (λ (x : Text). x ++ reverse c) (reverse-cons b'|' t)
    ∙ append_assoc (reverse t) (b'|' ∷ []) (reverse c)

-- The keys that end in a bar and a tenant id are the keys of that tenant.
pub has_suffix-joined :
    (c t u : Text) → NoBar t → NoBar u → has_suffix (c ++ b'|' ∷ t) (b'|' ∷ u) ≡ (t == u)
unfolding has_suffix
has_suffix-joined c t u h k =
    ap (λ (x : Text). has_prefix x (reverse (b'|' ∷ u))) (reverse-joined c t)
    ∙ ap (λ (x : Text). has_prefix (reverse t ++ b'|' ∷ reverse c) x) (reverse-cons b'|' u)
    ∙ prefix-joined (reverse t) (reverse u) (reverse c) (NoBar-reverse t h) (NoBar-reverse u k)
    ∙ same-reverse t u
