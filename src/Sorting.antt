-- ===== src/Sorting.antt =====
-- Go's sort.Slice and sort.Strings by a text key. Elements with equal keys keep their order here; Go
-- promises no order for them.
use mock_oidc.Prelude.{
  any, [], ◌∷◌, ◌≡◌, ◌∙◌, ◌&&◌, Bool, if◌then◌else◌, nat_eq, inr, ap, true, ltb, Bool-cases, false,
  arith, ◌||◌, refl, List, inl,
}
use mock_oidc.Text.{Text}
use mathlib.Core.List.{Perm}
use mathlib.Core.List.Perm

-- Go's `<` on strings, for valid UTF-8 the order of the code points.
unfoldable pub less : Text → Text → Bool
less s [] = false
less [] (d ∷ t) = true
less (c ∷ s) (d ∷ t) = ltb c d || (nat_eq c d && less s t)

less_asym : (s t : Text) → less s t ≡ true → less t s ≡ false
unfolding less
less_asym s [] h = cc h
less_asym [] (d ∷ t) h = refl
less_asym (c ∷ s) (d ∷ t) h = elim (Bool-cases (less s t)) [
  | inl e ↦ ground (arith, less_asym s t e, h)
  | inr e ↦ let h' = rw e at h in ground (arith, h')
]

module _ {ℓ} {A : Type ℓ} (key : A → Text) where
  unfoldable pub insert_by : A → List A → List A
  insert_by x [] = x ∷ []
  insert_by x (y ∷ ys) =
      let rest = insert_by x ys in if less (key y) (key x) then y ∷ rest else x ∷ y ∷ ys

  unfoldable pub sort_by : List A → List A
  sort_by [] = []
  sort_by (x ∷ xs) = insert_by x (sort_by xs)

  any-insert_by : (p : A → Bool) (x : A) (ys : List A) → any p (insert_by x ys) ≡ (p x || any p ys)
  unfolding insert_by
  any-insert_by p x [] = refl
  any-insert_by p x (y ∷ ys) = elim (Bool-cases (less (key y) (key x))) [
    | inl e ↦ rw (e, any-insert_by p x ys) (ground arith)
    | inr e ↦ rw e refl
  ]

  pub any-sort_by : (p : A → Bool) (xs : List A) → any p (sort_by xs) ≡ any p xs
  unfolding sort_by
  any-sort_by p [] = refl
  any-sort_by p (x ∷ xs) = any-insert_by p x (sort_by xs) ∙ ap (λ b. p x || b) (any-sort_by p xs)

  insert_by-Perm : (x : A) (ys : List A) → Perm (insert_by x ys) (x ∷ ys)
  unfolding insert_by
  insert_by-Perm x [] = Perm.rfl
  insert_by-Perm x (y ∷ ys) = elim (Bool-cases (less (key y) (key x))) [
    | inl e ↦ rw e (Perm.trans (Perm.cons y (insert_by-Perm x ys)) (Perm.swap x y ys))
    | inr e ↦ rw e Perm.rfl
  ]

  pub sort_by-Perm : (xs : List A) → Perm (sort_by xs) xs
  unfolding sort_by
  sort_by-Perm [] = Perm.rfl
  sort_by-Perm (x ∷ xs) = Perm.trans (insert_by-Perm x (sort_by xs)) (Perm.cons x (sort_by-Perm xs))

  -- No element is less than the one before it.
  pub data IsSorted : List A → Type ℓ where
    nil : IsSorted []
    one : (x : A) → IsSorted (x ∷ [])
    more :
        {x y : A} {l : List A}
        → less (key y) (key x) ≡ false
        → IsSorted (y ∷ l)
        → IsSorted (x ∷ y ∷ l)

  IsSorted-tail : {x : A} {l : List A} → IsSorted (x ∷ l) → IsSorted l
  IsSorted-tail (one x) = nil
  IsSorted-tail (more h s) = s

  -- The first element of the result is the new one or the old first.
  more-insert_by :
      (x y : A) (l : List A)
      → less (key x) (key y) ≡ false
      → IsSorted (y ∷ l)
      → IsSorted (insert_by x l)
      → IsSorted (y ∷ insert_by x l)
  unfolding insert_by
  more-insert_by x y [] h s t = more h t
  more-insert_by x y (z ∷ l) h (more g s) t = elim (Bool-cases (less (key z) (key x))) [
    | inl e ↦ rw e (more g (rw e at t))
    | inr e ↦ rw e (more h (rw e at t))
  ]

  insert_by-IsSorted : (x : A) (ys : List A) → IsSorted ys → IsSorted (insert_by x ys)
  unfolding insert_by
  insert_by-IsSorted x [] s = one x
  insert_by-IsSorted x (y ∷ ys) s = elim (Bool-cases (less (key y) (key x))) [
    | inr e ↦ rw e (more e s)
    | inl e ↦ rw e (
        more-insert_by x y ys (less_asym (key y) (key x) e) s
          (insert_by-IsSorted x ys (IsSorted-tail s)))
  ]

  pub sort_by-IsSorted : (xs : List A) → IsSorted (sort_by xs)
  unfolding sort_by
  sort_by-IsSorted [] = nil
  sort_by-IsSorted (x ∷ xs) = insert_by-IsSorted x (sort_by xs) (sort_by-IsSorted xs)
