-- ===== src/Entra/Admin/Minting.antt =====
-- A token of the admin API on the Graph surface.
use mock_oidc.Entra.Lookup.{user, tenant}
use mock_oidc.Entra.Keys.Rotation.{IsKeySet}
use mock_oidc.Prelude.{ℕ, ◌≡◌, some}
use mock_oidc.Entra.Admin.{Emulator, MintInput, minting}
use mock_oidc.Text.{Text}
use mock_oidc.Entra.Types.{Tenant, User}
use mock_oidc.Entra.Keys.{SigningKey, active}
use mock_oidc.Entra.Verify.Reading.{IsCurrent}

-- The account that the request names, its tenant, and the key that signs.
pub record IsAccount (e : Emulator) (i : MintInput) (origin : Text) (now : ℕ) (t : Tenant)
    (u : User) (k : SigningKey) : Type 0 where
  pub named : user e.store.cur i.tid i.username ≡ some u
  pub home : tenant e.store.cur u.tid ≡ some t
  pub current : IsCurrent e.store.cur (minting e.store.cur origin now i t u)
  pub key_set : IsKeySet e.keys
  pub signing : active e.keys.keys ≡ some k
