-- ===== src/Entra/Keys.antt =====
-- internal/entra/keys.go: the signing keys, oldest first. Generating an RSA key is the library's; a
-- private key is a number that the caller draws. The mutex makes each operation one step.
pub mod Rotation
use mock_oidc.Prelude.{
  ℕ, drop, ◌+◌, some, ◌∷◌, ◌-◌, find?, List, ltb, length, ◌++◌, map, if◌then◌else◌, [], none,
  Option,
}
use mock_oidc.Text.{Text, txt, ◌==◌}
use mock_oidc.Text.Decimal.{itoa}

-- token.SigningKey, as far as the key set reads it
pub record SigningKey : Type 0 where
  pub kid : Text
  pub secret : ℕ

pub record KeySet : Type 0 where
  pub keys : List SigningKey
  pub seq : ℕ

unfoldable pub kid_of : ℕ → Text
kid_of seq = txt "entra-" ++ itoa seq

-- k.keys[len(k.keys)-2:] where there are more than two
unfoldable pub newest_two : List SigningKey → List SigningKey
newest_two ks = if ltb 2 (length ks) then drop (length ks - 2) ks else ks

-- KeySet.Rotate
unfoldable pub rotate : ℕ → KeySet → KeySet
rotate secret k = record {
  keys = newest_two (k.keys ++ record { kid = kid_of (k.seq + 1); secret = secret } ∷ []);
  seq = k.seq + 1;
}

-- NewKeySet
unfoldable pub new_key_set : ℕ → KeySet
new_key_set secret = rotate secret (record { keys = []; seq = 0 })

-- The last key; reading it from an empty set would panic.
unfoldable pub active : List SigningKey → Option SigningKey
active [] = none
active (k ∷ []) = some k
active (k ∷ l ∷ ks) = active (l ∷ ks)

-- KeySet.PublishedKids
unfoldable pub published_kids : KeySet → List Text
published_kids k = map (λ (s : SigningKey). s.kid) k.keys

-- KeySet.byKid
unfoldable pub by_kid : Text → KeySet → Option SigningKey
by_kid kid k = find? (λ (s : SigningKey). s.kid == kid) k.keys

unfoldable pub rotations : List ℕ → KeySet → KeySet
rotations [] k = k
rotations (secret ∷ secrets) k = rotations secrets (rotate secret k)
