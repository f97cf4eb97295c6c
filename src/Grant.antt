-- ===== src/Grant.antt =====
-- internal/grant: the grants of the built-in issuer. A callback is what decides the claims of a token;
-- here it is a type of its own with the two operations of internal/token that the grants call.
pub mod Refresh
pub mod Authcode
mod Tests
use mock_oidc.Prelude.{ℕ}
use mock_oidc.Text.{Text}

-- Login of internal/login/login.go
pub record Login : Type 0 where
  pub username : Text
  pub claims : Text

-- token.Callback: IssuerID, and newLoginCallback over it
pub record Callbacks (C : Type 0) : Type 0 where
  pub issuer_id : C → Text
  pub with_login : Login → C → C

pub data GrantError : Type 0 where
  unsupported_flow : GrantError
  unknown_code : GrantError
  invalid_pkce : GrantError
  other_issuer : GrantError
  unknown_refresh_token : GrantError

-- What the token provider is asked to sign, and the refresh token of the answer.
pub record Granted (C : Type 0) : Type 0 where
  pub callback : C
  pub nonce : Text
  pub refresh_token : Text
