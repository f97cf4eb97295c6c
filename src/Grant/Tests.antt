-- ===== src/Grant/Tests.antt =====
-- The grants of the built-in issuer at concrete tokens, with issuer names for callbacks.
use mock_oidc.Prelude.{ok, refl, true, err, none, some, ◌∷◌, [], ◌≡◌}
use mock_oidc.Grant.{Callbacks, unknown_code}
use mock_oidc.Grant.Refresh.{refresh_grant, IsRotated, refresh_grant-IsRotated}
use mock_oidc.Grant.Authcode.{Codes, token_response, token_response-once}
use mock_oidc.Text.{Text, ◌==◌, txt}
use mock_oidc.Assoc.{Assoc, lookup}
use mock_oidc.Oauth2.Authrequest.{AuthRequest}
use mock_oidc.Oauth2.Tokenrequest.{TokenRequest, auth_none}
use mock_oidc.Oauth2.Request.{Library}

abbrev library : Library
library = record { query_unescape = λ s. some s; s256 = λ s. s; valid_url = λ s. true }

abbrev callbacks : Callbacks Text
callbacks = record { issuer_id = λ c. c; with_login = λ lg c. c }

abbrev issuer : Text
issuer = b'i' ∷ []

abbrev old : Text
old = b'o' ∷ []

abbrev tokens : Assoc Text
tokens = (old, issuer) ∷ []

known : lookup old tokens ≡ some issuer
unfolding ◌==◌
known = refl

own : (issuer == issuer) ≡ true
unfolding ◌==◌
own = refl

refresh_grant-IsRotated_example :
    ((refresh_grant (λ jti nonce. nonce) callbacks (b'n' ∷ []) true issuer none old tokens).0
      ≡ ok (record { callback = issuer; nonce = []; refresh_token = b'n' ∷ [] }))
    × IsRotated old
        (b'n' ∷ [])
        issuer
        tokens
        (refresh_grant (λ jti nonce. nonce) callbacks (b'n' ∷ []) true issuer none old tokens).1
refresh_grant-IsRotated_example =
    refresh_grant-IsRotated (λ jti nonce. nonce) callbacks (b'n' ∷ []) issuer old issuer tokens
      known own

abbrev asked : AuthRequest
asked = record {
  response_type = txt "code" ∷ [];
  client_id = txt "app";
  redirect_uri = [];
  scope = [];
  state = [];
  nonce = [];
  code_challenge = [];
  code_challenge_method = [];
  prompt = [];
  response_mode = [];
}

abbrev exchange : TokenRequest
exchange = record {
  grant_type = txt "authorization_code";
  client_id = txt "app";
  method = auth_none;
  form = [];
  scope = [];
  scope_list = [];
  code = txt "k";
  redirect_uri = [];
  code_verifier = [];
  refresh_token = [];
  username = [];
  password = [];
  assertion = [];
  subject_token = [];
  subject_token_type = [];
  audience = [];
}

abbrev pending : Codes Text
pending = record { code_to_auth = (txt "k", asked) ∷ []; code_to_login = []; refresh = [] }

token_response-once_example :
    token_response library
      (λ jti nonce. nonce)
      callbacks
      (b'n' ∷ [])
      exchange
      issuer
      (token_response library (λ jti nonce. nonce) callbacks old exchange issuer pending).1
    ≡ (
      err unknown_code,
      (token_response library (λ jti nonce. nonce) callbacks old exchange issuer pending).1,
    )
token_response-once_example =
    token_response-once library (λ jti nonce. nonce) callbacks old (b'n' ∷ []) exchange exchange
      issuer issuer pending refl
