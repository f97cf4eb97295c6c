-- ===== src/Entra/Admin.antt =====
-- internal/entra/admin.go: the running emulation and what the admin API does to it.
pub mod Deletion
pub mod Minting
use mock_oidc.Entra.Lookup.{user, tenant, enabled}
use mock_oidc.Entra.Graphconfig.{graph_base, overage_self_hosted}
use mock_oidc.Entra.Store.{execute, Store, new_store, Command, tenant_deleted}
use mock_oidc.Entra.Handler.{Handler, AuthCode}
use mock_oidc.Prelude.{
  ℕ, if◌then◌else◌, List, ok, some, is_empty, Result, ℤ, err, ◌∷◌, [], none, Option,
}
use mock_oidc.Entra.Keys.{KeySet, rotate, new_key_set, active, SigningKey}
use mock_oidc.Entra.Types.{Config, Tenant, User}
use mock_oidc.Entra.Errors.{ConfigError}
use mock_oidc.Entra.Guid.{Digest}
use mock_oidc.Text.{Text, txt, fields, join}
use mock_oidc.Entra.Consents.{ConsentStore, remove_tenant, remove, new_consent_store}
use mock_oidc.Oauth2.Request.{Library}
use mock_oidc.Assoc.{Assoc}
use mock_oidc.Entra.Verify.{Jws}
use mock_oidc.Entra.Claims.{TokenInput, mapped_claims, access_token_claims, id_token_claims}

-- Handler of handler.go, with the snapshot's store and the keys
pub record Emulator : Type 0 where
  pub store : Store
  pub keys : KeySet
  pub consents : ConsentStore
  pub codes : Assoc AuthCode

-- New: `secret` is the first signing key's
unfoldable pub new_emulator : Config → ℕ → Emulator
new_emulator cfg secret = record {
  store = new_store cfg;
  keys = new_key_set secret;
  consents = new_consent_store cfg.consents;
  codes = [];
}

-- What the sign-in endpoints see.
abbrev pub handler_of : Emulator → Handler
handler_of e = record { conf = e.store.cur; consents = e.consents; codes = e.codes }

abbrev pub with_handler : Emulator → Handler → Emulator
with_handler e h = record e { consents = h.consents; codes = h.codes }

abbrev pub with_store : Emulator → Option ConfigError × Store → Option ConfigError × Emulator
with_store e (res, s) = (res, record e { store = s })

-- AdminSetGraphEnabled, AdminCreateTenant, AdminUpdateTenant, AdminCreateUser, AdminUpdateUser and
-- AdminDeleteUser
unfoldable pub admin_edit : Digest → Command → Emulator → Option ConfigError × Emulator
admin_edit d cmd e = with_store e (execute d cmd e.store)

abbrev pub without_consents :
    Text → Emulator → Option ConfigError × Store → Option ConfigError × Emulator
without_consents tid e (some x, s) = (some x, record e { store = s })
without_consents tid e (none, s) =
    (none, record e { store = s; consents = remove_tenant tid e.consents })

-- Handler.AdminDeleteTenant
unfoldable pub admin_delete_tenant : Digest → Text → Emulator → Option ConfigError × Emulator
admin_delete_tenant d tid e = without_consents tid e (execute d (tenant_deleted tid) e.store)

-- Handler.AdminRevokeConsent
unfoldable pub admin_revoke_consent : Text → Text → Emulator → Emulator
admin_revoke_consent client_id tid e = record e { consents = remove client_id tid e.consents }

-- Handler.AdminResetToSeed
unfoldable pub admin_reset_to_seed : Emulator → Emulator
admin_reset_to_seed e = record e {
  store = record e.store { cur = e.store.seed };
  consents = mock_oidc.Entra.Consents.reset e.consents;
}

-- Handler.AdminRotateKeys
unfoldable pub admin_rotate_keys : ℕ → Emulator → Emulator
admin_rotate_keys secret e = record e { keys = rotate secret e.keys }

pub record MintInput : Type 0 where
  pub tid : Text
  pub username : Text
  pub client_id : Text
  pub scope : Text

pub record MintedToken : Type 0 where
  pub expires_in : ℤ
  pub scope : Text
  pub access_token : Text
  pub id_token : Text

-- `mint_panicked` reads a tenant or a key that is not there.
pub data MintError : Type 0 where
  unknown_account : MintError
  disabled_account : MintError
  mint_panicked : MintError

abbrev default_client : Text → Text
default_client s = if is_empty s then txt "mock" else s

abbrev default_scopes : List Text → List Text
default_scopes [] = txt "openid" ∷ txt "profile" ∷ txt "email" ∷ []
default_scopes (s ∷ ss) = s ∷ ss

-- The TokenInput of AdminMintToken.
unfoldable pub minting : Config → Text → ℕ → MintInput → Tenant → User → TokenInput
minting cfg origin now i t u = record {
  graph_base = graph_base cfg;
  overage_self_hosted = overage_self_hosted cfg;
  origin = origin;
  base_path = cfg.base_path;
  tenant = t;
  user = u;
  client_id = default_client i.client_id;
  nonce = [];
  scopes = default_scopes (fields i.scope);
  now = now;
  expiry = cfg.token_expiry;
  mapped_claims = mapped_claims cfg t (default_client i.client_id) u;
}

abbrev signed :
    Digest
    → Library
    → Jws
    → Text
    → Config
    → TokenInput
    → Option SigningKey
    → Result MintError MintedToken
signed d lib j uti cfg ti none = err mint_panicked
signed d lib j uti cfg ti (some k) = ok (record {
  expires_in = cfg.token_expiry;
  scope = join ti.scopes (b' ' ∷ []);
  access_token = j.sign k (access_token_claims d lib uti ti);
  id_token = j.sign k (id_token_claims d lib uti ti);
})

abbrev mint_in :
    Digest
    → Library
    → Jws
    → Text
    → Emulator
    → Text
    → ℕ
    → MintInput
    → User
    → Option Tenant
    → Result MintError MintedToken
mint_in d lib j uti e origin now i u none = err mint_panicked
mint_in d lib j uti e origin now i u (some t) =
    signed d lib j uti e.store.cur (minting e.store.cur origin now i t u) (active e.keys.keys)

abbrev mint_for :
    Digest
    → Library
    → Jws
    → Text
    → Emulator
    → Text
    → ℕ
    → MintInput
    → Option User
    → Result MintError MintedToken
mint_for d lib j uti e origin now i none = err unknown_account
mint_for d lib j uti e origin now i (some u) =
    if enabled u
    then mint_in d lib j uti e origin now i u (tenant e.store.cur u.tid)
    else err disabled_account

-- Handler.AdminMintToken
unfoldable pub admin_mint_token :
    Digest → Library → Jws → Text → Emulator → Text → ℕ → MintInput → Result MintError MintedToken
admin_mint_token d lib j uti e origin now i =
    mint_for d lib j uti e origin now i (user e.store.cur i.tid i.username)
