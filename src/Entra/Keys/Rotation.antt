-- ===== src/Entra/Keys/Rotation.antt =====
-- The key set after any number of rotations.
use mock_oidc.Prelude.{
  ℕ, [], arith, suc, ◌≡◌, ◌∷◌, ◌+◌, refl, false, List, ◌≢◌, Bool-cases, ◌∙◌, some, ap, sym, inr,
  inl, none, subst, some-eq,
}
use mock_oidc.Entra.Keys.{
  KeySet, rotate, SigningKey, newest_two, kid_of, new_key_set, rotations, active, by_kid,
}
use mock_oidc.Text.{txt, ◌==◌}
use mock_oidc.Text.Decimal.{itoa_injective}
use mock_oidc.Text.Laws.{eq_iff, ==-refl}

-- One or two keys, numbered in a row up to the latest.
pub data IsKeySet (k : KeySet) : Type 0 where
  one : (a : SigningKey) → a.kid ≡ kid_of k.seq → k.keys ≡ a ∷ [] → IsKeySet k
  two :
      (a b : SigningKey) (n : ℕ)
      → k.seq ≡ suc n
      → a.kid ≡ kid_of n
      → b.kid ≡ kid_of (suc n)
      → k.keys ≡ a ∷ b ∷ []
      → IsKeySet k

abbrev pub next_key : ℕ → KeySet → SigningKey
next_key secret k = record { kid = kid_of (suc k.seq); secret = secret }

seq-suc : (n : ℕ) → n + 1 ≡ suc n
seq-suc n = omega arith

-- One rotation keeps the newest key and drops an older one.
rotate-one :
    (secret : ℕ) (k : KeySet) (a : SigningKey)
    → k.keys ≡ a ∷ []
    → (rotate secret k).keys ≡ a ∷ next_key secret k ∷ []
unfolding rotate newest_two
rotate-one secret k a q = rw (q, seq-suc k.seq) refl

rotate-two :
    (secret : ℕ) (k : KeySet) (a b : SigningKey)
    → k.keys ≡ a ∷ b ∷ []
    → (rotate secret k).keys ≡ b ∷ next_key secret k ∷ []
unfolding rotate newest_two
rotate-two secret k a b q = rw (q, seq-suc k.seq) refl

rotate-seq : (secret : ℕ) (k : KeySet) → (rotate secret k).seq ≡ suc k.seq
unfolding rotate
rotate-seq secret k = seq-suc k.seq

pub rotate-IsKeySet : (secret : ℕ) (k : KeySet) → IsKeySet k → IsKeySet (rotate secret k)
rotate-IsKeySet secret k (one a p q) =
    two a (next_key secret k) k.seq (rotate-seq secret k) p refl (rotate-one secret k a q)
rotate-IsKeySet secret k (two a b n r p q s) =
    two b (next_key secret k) k.seq (rotate-seq secret k) (q ∙ ap kid_of (sym r)) refl
      (rotate-two secret k a b s)

pub new_key_set-IsKeySet : (secret : ℕ) → IsKeySet (new_key_set secret)
unfolding new_key_set rotate newest_two
new_key_set-IsKeySet secret = one (record { kid = kid_of 1; secret = secret }) refl refl

pub rotations-IsKeySet :
    (secrets : List ℕ) (k : KeySet) → IsKeySet k → IsKeySet (rotations secrets k)
unfolding rotations
rotations-IsKeySet [] k h = h
rotations-IsKeySet (secret ∷ secrets) k h =
    rotations-IsKeySet secrets (rotate secret k) (rotate-IsKeySet secret k h)

kid_of_injective : (m n : ℕ) → kid_of m ≡ kid_of n → m ≡ n
unfolding kid_of txt
kid_of_injective m n e = itoa_injective m n (cc)

kid_of-ne : (m n : ℕ) → m ≢ n → (kid_of m == kid_of n) ≡ false
kid_of-ne m n h = elim (Bool-cases (kid_of m == kid_of n)) [
  | inl e ↦ absurd (h (kid_of_injective m n ((eq_iff (kid_of m) (kid_of n)).0 e)))
  | inr e ↦ e
]

-- The key that signs.
pub signing_key :
    (k : KeySet) → IsKeySet k → (a : SigningKey) × (active k.keys ≡ some a) × (a.kid ≡ kid_of k.seq)
unfolding active
signing_key k (one a p q) = (a, rw q refl, p)
signing_key k (two a b n r p q s) = (b, rw s refl, q ∙ ap kid_of (sym r))

module _ (k : KeySet) (a b : SigningKey) (n : ℕ) where
  kids-differ : a.kid ≡ kid_of n → b.kid ≡ kid_of (suc n) → (a.kid == b.kid) ≡ false
  kids-differ p q = rw (p, q) (kid_of-ne n (suc n) (λ e. omega arith))

  by_kid-older : k.keys ≡ a ∷ b ∷ [] → by_kid a.kid k ≡ some a
  unfolding by_kid
  by_kid-older s = rw (s, ==-refl a.kid) refl

  by_kid-newer :
      a.kid ≡ kid_of n → b.kid ≡ kid_of (suc n) → k.keys ≡ a ∷ b ∷ [] → by_kid b.kid k ≡ some b
  unfolding by_kid
  by_kid-newer p q s = rw (s, kids-differ p q, ==-refl b.kid) refl

-- The key that signs is the one that its kid names.
pub active-published :
    (k : KeySet) (a : SigningKey) → IsKeySet k → active k.keys ≡ some a → by_kid a.kid k ≡ some a
unfolding active by_kid
active-published k a (one b p q) h =
    let same = some-eq (rw q at h) in
    subst (λ (x : SigningKey). by_kid x.kid k ≡ some x) same (rw (q, ==-refl b.kid) refl)
active-published k a (two b c n r p q s) h =
    let same = some-eq (rw s at h) in
    subst (λ (x : SigningKey). by_kid x.kid k ≡ some x) same (by_kid-newer k b c n p q s)

-- A key that signs is found after one more rotation, as the older of two.
rotated-keys :
    (k : KeySet) (a : SigningKey) (secret : ℕ)
    → IsKeySet k
    → active k.keys ≡ some a
    → ((rotate secret k).keys ≡ a ∷ next_key secret k ∷ []) × (a.kid ≡ kid_of k.seq)
unfolding active
rotated-keys k a secret (one b p q) h =
    let same = some-eq (rw q at h) in
    subst
      (λ (x : SigningKey).
        ((rotate secret k).keys ≡ x ∷ next_key secret k ∷ []) × (x.kid ≡ kid_of k.seq))
      same (rotate-one secret k b q, p)
rotated-keys k a secret (two b c n r p q s) h =
    let same = some-eq (rw s at h) in
    subst
      (λ (x : SigningKey).
        ((rotate secret k).keys ≡ x ∷ next_key secret k ∷ []) × (x.kid ≡ kid_of k.seq))
      same (rotate-two secret k b c s, q ∙ ap kid_of (sym r))

-- What two more rotations do to a key that signs.
pub record IsRetired (k : KeySet) (a : SigningKey) (s₁ s₂ : ℕ) : Type 0 where
  pub now : by_kid a.kid k ≡ some a
  pub after_one : by_kid a.kid (rotate s₁ k) ≡ some a
  pub replaced : active (rotate s₁ k).keys ≡ some (record { kid = kid_of (suc k.seq); secret = s₁ })
  pub after_two : by_kid a.kid (rotate s₂ (rotate s₁ k)) ≡ none

pub retired :
    (k : KeySet) (a : SigningKey) (s₁ s₂ : ℕ)
    → IsKeySet k
    → active k.keys ≡ some a
    → IsRetired k a s₁ s₂
unfolding by_kid active
retired k a s₁ s₂ v h =
    let (e, p) = rotated-keys k a s₁ v h in
    let f = rotate-two s₂ (rotate s₁ k) a (next_key s₁ k) e in
    record {
      now = active-published k a v h;
      after_one = by_kid-older (rotate s₁ k) a (next_key s₁ k) k.seq e;
      replaced = rw e refl;
      after_two =
          rw
            (
              f,
              rotate-seq s₁ k,
              p,
              kid_of-ne (suc k.seq) k.seq (λ x. omega arith),
              kid_of-ne (suc (suc k.seq)) k.seq (λ x. omega arith),
            )
            refl;
    }

-- However often a new key set has been rotated, it has a key that signs; its kid names it, and still
-- does after one more rotation, which makes a new key with the next number the one that signs; after
-- two more the kid names no published key.
pub rotations-IsRetired :
    (first : ℕ) (secrets : List ℕ) (s₁ s₂ : ℕ)
    → (a : SigningKey) × (active (rotations secrets (new_key_set first)).keys ≡ some a)
      × IsRetired (rotations secrets (new_key_set first)) a s₁ s₂
rotations-IsRetired first secrets s₁ s₂ =
    let k = rotations secrets (new_key_set first) in
    let v = rotations-IsKeySet secrets (new_key_set first) (new_key_set-IsKeySet first) in
    let (a, h, p) = signing_key k v in (a, h, retired k a s₁ s₂ v h)
