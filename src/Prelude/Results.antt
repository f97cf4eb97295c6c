-- ===== src/Prelude/Results.antt =====
-- Go's `(value, error)` returns: a value or an error, never both.
use mathlib.Core.Path.{◌≡◌, refl}
use mathlib.Core.Bool.{Bool, true, false}
use mathlib.Core.Logic.{◌⊎◌, inl, inr}

pub data Result {ℓ κ} (E : Type κ) (A : Type ℓ) : Type (ℓ ⊔ κ) where
  err : E → Result E A
  ok : A → Result E A

module _ {μ} {E : Type μ} where
  -- `if b { return failure }`
  abbrev pub refuse : Bool → E → Result E (Unit {0})
  refuse true failure = err failure
  refuse false failure = ok tt

  -- `if !b { return failure }`
  abbrev pub guard : Bool → E → Result E (Unit {0})
  guard false failure = err failure
  guard true failure = ok tt

infixl 5 ◌>>=◌ ◌>>◌
-- `v, err := m; if err != nil { return err }`, and what follows
abbrev pub ◌>>=◌ {μ ℓ κ} :
    {E : Type μ} {A : Type ℓ} {B : Type κ} → Result E A → (A → Result E B) → Result E B
err failure >>= next = err failure
ok v >>= next = next v

abbrev pub ◌>>◌ {μ κ} : {E : Type μ} {B : Type κ} → Result E (Unit {0}) → Result E B → Result E B
m >> next = m >>= (λ u. next)

module _ {ℓ μ} {E : Type μ} {A : Type ℓ} where
  pub ok-injective : {a a' : A} → ◌≡◌ {A = Result E A} (ok a) (ok a') → a ≡ a'
  ok-injective h = cc

  pub Result-cases : (m : Result E A) → ((failure : E) × (m ≡ err failure)) ⊎ ((a : A) × (m ≡ ok a))
  Result-cases (err failure) = inl (failure, refl)
  Result-cases (ok a) = inr (a, refl)

module _ {ℓ κ μ} {E : Type μ} {A : Type ℓ} {B : Type κ} where
  -- Inversion of a successful bind.
  pub >>=-eq-ok :
      (m : Result E A) (next : A → Result E B) {w : B}
      → (m >>= next) ≡ ok w
      → (v : A) × (m ≡ ok v) × (next v ≡ ok w)
  >>=-eq-ok (err failure) next h = cc
  >>=-eq-ok (ok v) next h = (v, refl, h)

pub guard-ok {μ} : {E : Type μ} (b : Bool) (e : E) {u : Unit {0}} → guard b e ≡ ok u → b ≡ true
guard-ok true e h = refl
guard-ok false e h = cc

pub refuse-ok {μ} : {E : Type μ} (b : Bool) (e : E) {u : Unit {0}} → refuse b e ≡ ok u → b ≡ false
refuse-ok true e h = cc
refuse-ok false e h = refl
