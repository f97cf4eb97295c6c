-- ===== src/Assoc.antt =====
-- Go's `map[string]A` as an association list, with the laws of look-up after each update.
use mock_oidc.Prelude.{
  some, ◌∷◌, ◌≡◌, ap, Option, Bool-cases, false, ◌∙◌, refl, if◌then◌else◌, inl, inr, List, filter,
  Bool, [], not, none,
}
use mock_oidc.Text.{Text, ◌==◌}
use mock_oidc.Text.Laws.{==-refl, eq_iff, ==-sym}

abbrev pub Assoc {ℓ} : Type ℓ → Type ℓ
Assoc A = List (Text × A)

module _ {ℓ} {A : Type ℓ} where
  -- v, ok := m[k]
  abbrev pub lookup : Text → Assoc A → Option A
  lookup k [] = none
  lookup k ((k', v) ∷ m) = if k' == k then some v else lookup k m

  -- Deletes the keys that fail the test.
  abbrev pub keep : (Text → Bool) → Assoc A → Assoc A
  keep q m = filter (λ p. q p.0) m

  -- delete(m, k)
  abbrev pub delete : Text → Assoc A → Assoc A
  delete k m = keep (λ k'. not (k' == k)) m

  -- m[k] = v
  abbrev pub insert : Text → A → Assoc A → Assoc A
  insert k v m = (k, v) ∷ delete k m

  pub lookup-keep :
      (q : Text → Bool) (k : Text) (m : Assoc A)
      → lookup k (keep q m) ≡ (if q k then lookup k m else none)
  lookup-keep q k [] = elim (Bool-cases (q k)) [ inl e ↦ rw e refl | inr e ↦ rw e refl ]
  lookup-keep q k ((k', v) ∷ m) = elim (Bool-cases (k' == k)) [
    | inl e ↦
        let same : k' ≡ k = (eq_iff k' k).0 e in
        elim (Bool-cases (q k)) [
          | inl t ↦ rw (same, t, ==-refl k) refl
          | inr t ↦ rw (same, t) (lookup-keep q k m ∙ ap (λ b. if b then lookup k m else none) t)
        ]
    | inr e ↦ elim (Bool-cases (q k')) [
      | inl t ↦ rw (t, e) (lookup-keep q k m)
      | inr t ↦ rw (t, e) (lookup-keep q k m)
    ]
  ]

  pub lookup-delete-same : (k : Text) (m : Assoc A) → lookup k (delete k m) ≡ none
  lookup-delete-same k m = rw (lookup-keep (λ k'. not (k' == k)) k m, ==-refl k) refl

  pub lookup-delete-other :
      (k k' : Text) (m : Assoc A) → (k' == k) ≡ false → lookup k' (delete k m) ≡ lookup k' m
  lookup-delete-other k k' m e = rw (lookup-keep (λ x. not (x == k)) k' m, e) refl

  -- A filter adds no key.
  pub lookup-filter :
      (q : Text × A → Bool) (k : Text) (m : Assoc A)
      → lookup k m ≡ none
      → lookup k (filter q m) ≡ none
  lookup-filter q k [] h = refl
  lookup-filter q k ((k', v) ∷ m) h = elim (Bool-cases (k' == k)) [
    | inl e ↦ cc (rw e at h)
    | inr e ↦ elim (Bool-cases (q (k', v))) [
      | inl t ↦ rw (t, e) (lookup-filter q k m (rw e at h))
      | inr t ↦ rw t (lookup-filter q k m (rw e at h))
    ]
  ]

  pub lookup-insert-other :
      (k k' : Text) (v : A) (m : Assoc A)
      → (k == k') ≡ false
      → lookup k' (insert k v m) ≡ lookup k' m
  lookup-insert-other k k' v m e = rw e (lookup-delete-other k k' m (==-sym k' k ∙ e))

  pub lookup-insert-same : (k : Text) (v : A) (m : Assoc A) → lookup k (insert k v m) ≡ some v
  lookup-insert-same k v m = rw (==-refl k) refl
