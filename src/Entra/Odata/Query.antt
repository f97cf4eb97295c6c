-- ===== src/Entra/Odata/Query.antt =====
-- What the query of a next link keeps.
use mock_oidc.Prelude.{
  ℕ, List, if◌then◌else◌, and-true, ◌||◌, inl, All, sym, ◌∙◌, not, [], ◌∷◌, ◌≡◌, Bool, ap, arith,
  any, ◌<◌, filter, all, false, ◌++◌, inr, ◌&&◌, refl, Bool-cases, true,
}
use mock_oidc.Text.{Text, lower_rune, is_space, ◌==◌, txt}
use mock_oidc.Sorting.{less, insert_by, sort_by, any-sort_by}
use mock_oidc.Oauth2.Request.{get, Form}
use mock_oidc.Entra.Odata.{next_query, has_option, parse_skip}
use mock_oidc.Text.Decimal.{int_bound, is_digit, itoa, itoa-digits, atoi-itoa}
use mock_oidc.Text.Laws.{==-refl, eq_iff, ==-sym}
use mock_oidc.Entra.Guid.Stable.{IsPlain, trim_space-plain}

abbrev name_of : Text × Text → Text
name_of p = p.0

-- strings.Less is no order of a text before itself.
less_refl : (s : Text) → less s s ≡ false
unfolding less
less_refl [] = refl
less_refl (c ∷ s) = ground (arith, less_refl s)

get-insert_by :
    (k : Text) (p : Text × Text) (f : Form)
    → get k (insert_by name_of p f) ≡ (if p.0 == k then p.1 else get k f)
unfolding insert_by get
get-insert_by k (n, v) [] = refl
get-insert_by k (n, v) ((n', v') ∷ f) = elim (Bool-cases (less n' n)) [
  | inr e ↦ rw e refl
  | inl e ↦ elim (Bool-cases (n == k)) [
    | inr g ↦ rw (e, get-insert_by k (n, v) f, g) refl
    | inl g ↦ elim (Bool-cases (n' == k)) [
      | inr h ↦ rw (e, get-insert_by k (n, v) f, g, h) refl
      | inl h ↦
          let same : n' ≡ n = (eq_iff n' k).0 h ∙ sym ((eq_iff n k).0 g) in
          let never : true ≡ false = sym e ∙ ap (λ s. less s n) same ∙ less_refl n in cc never
    ]
  ]
]

get-sort_by : (k : Text) (f : Form) → get k (sort_by name_of f) ≡ get k f
unfolding sort_by get
get-sort_by k [] = refl
get-sort_by k ((n, v) ∷ f) =
    get-insert_by k (n, v) (sort_by name_of f) ∙ ap (λ w. if n == k then v else w) (get-sort_by k f)

get-append-other : (k t v : Text) (f : Form) → (t == k) ≡ false → get k (f ++ (t, v) ∷ []) ≡ get k f
unfolding get
get-append-other k t v [] h = rw h refl
get-append-other k t v ((n, w) ∷ f) h =
    ap (λ x. if n == k then w else x) (get-append-other k t v f h)

get-append-absent : (t v : Text) (f : Form) → has_option t f ≡ false → get t (f ++ (t, v) ∷ []) ≡ v
unfolding get has_option
get-append-absent t v [] h = rw (==-refl t) refl
get-append-absent t v ((n, w) ∷ f) h = elim (Bool-cases (n == t)) [
  | inl e ↦ cc (rw e at h)
  | inr e ↦ rw e (get-append-absent t v f (rw e at h))
]

module _ (t : Text) where
  abbrev others : Form → Form
  others f = filter (λ (p : Text × Text). not (p.0 == t)) f

  get-others : (k : Text) (f : Form) → (t == k) ≡ false → get k (others f) ≡ get k f
  unfolding get
  get-others k [] h = refl
  get-others k ((n, v) ∷ f) h = elim (Bool-cases (n == t)) [
    | inr e ↦ rw e (ap (λ x. if n == k then v else x) (get-others k f h))
    | inl e ↦ let same : n ≡ t = (eq_iff n t).0 e in rw (same, ==-refl t, h) (get-others k f h)
  ]

  has-others : (k : Text) (f : Form) → has_option k (others f) ≡ (not (t == k) && has_option k f)
  unfolding has_option
  has-others k [] = ground arith
  has-others k ((n, v) ∷ f) = elim (Bool-cases (n == t)) [
    | inr e ↦ elim (Bool-cases (n == k)) [
      | inr g ↦ rw (e, has-others k f, g) refl
      | inl g ↦
          let same : n ≡ k = (eq_iff n k).0 g in
          rw (e, g) (ground (arith, ==-sym t k, rw same at e))
    ]
    | inl e ↦
        let same : n ≡ t = (eq_iff n t).0 e in rw (same, ==-refl t, has-others k f) (ground arith)
  ]

any-append {ℓ} :
    {A : Type ℓ} (p : A → Bool) (xs ys : List A) → any p (xs ++ ys) ≡ (any p xs || any p ys)
any-append p [] ys = refl
any-append p (x ∷ xs) ys = rw (any-append p xs ys) (ground arith)

-- Every other parameter is kept.
pub next_query-get :
    (k : Text) (q : Form) (n : ℕ)
    → (txt "$skiptoken" == k) ≡ false
    → get k (next_query q n) ≡ get k q
unfolding next_query
next_query-get k q n h =
    get-append-other k (txt "$skiptoken") (itoa n) (sort_by name_of (others (txt "$skiptoken") q)) h
    ∙ get-sort_by k (others (txt "$skiptoken") q)
    ∙ get-others (txt "$skiptoken") k q h

sorted-has : (k : Text) (f : Form) → has_option k (sort_by name_of f) ≡ has_option k f
unfolding has_option
sorted-has k f = any-sort_by name_of (λ (p : Text × Text). p.0 == k) f

pub next_query-has :
    (k : Text) (q : Form) (n : ℕ)
    → (txt "$skiptoken" == k) ≡ false
    → has_option k (next_query q n) ≡ has_option k q
unfolding next_query has_option
next_query-has k q n h =
    any-append (λ (p : Text × Text). p.0 == k) (sort_by name_of (others (txt "$skiptoken") q))
      ((txt "$skiptoken", itoa n) ∷ [])
    ∙ ground
        (arith, h, sorted-has k (others (txt "$skiptoken") q), has-others (txt "$skiptoken") k q)

pub next_query-token : (q : Form) (n : ℕ) → get (txt "$skiptoken") (next_query q n) ≡ itoa n
unfolding next_query
next_query-token q n =
    get-append-absent (txt "$skiptoken") (itoa n) (sort_by name_of (others (txt "$skiptoken") q)) (
      sorted-has (txt "$skiptoken") (others (txt "$skiptoken") q)
      ∙ has-others (txt "$skiptoken") (txt "$skiptoken") q
      ∙ rw (==-refl (txt "$skiptoken")) refl)

digits-IsPlain : (s : Text) → all is_digit s ≡ true → All IsPlain s
unfolding lower_rune is_space
digits-IsPlain [] h = tt
digits-IsPlain (c ∷ s) h =
    let (p, q) = and-true (is_digit c) (all is_digit s) h in
    ((ground arith, ground arith), digits-IsPlain s q)

-- A skip token is read back as the offset.
pub parse_skip-itoa : (n : ℕ) → n < int_bound → parse_skip (itoa n) ≡ n
unfolding parse_skip
parse_skip-itoa n h =
    rw (trim_space-plain (itoa n) (digits-IsPlain (itoa n) (itoa-digits n)), atoi-itoa n h)
      (ground arith)
