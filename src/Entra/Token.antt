-- ===== src/Entra/Token.antt =====
-- internal/entra/token.go: redeeming an authorization code.
pub mod Guards
pub mod Once
use mock_oidc.Entra.Lookup.{tenant, user, enabled}
use mock_oidc.Entra.Graphconfig.{graph_base, overage_self_hosted, app_only_on}
use mock_oidc.Prelude.{
  ℕ, false, err, ok, if◌then◌else◌, ◌>>=◌, some, [], Result, ◌>>◌, is_empty, ◌||◌, none, guard,
  ◌&&◌, ◌/◌, Bool, ◌∷◌, Option, ltb, true, not, refuse,
}
use mock_oidc.Oauth2.Request.{
  Library, Request, OauthError, code_unknown, code_other_segment, form_param, code_other_client,
  code_other_redirect, code_verifier_mismatch, account_disabled, unsupported_grant,
}
use mock_oidc.Entra.Types.{Config, Tenant, User}
use mock_oidc.Entra.Guid.{Digest}
use mock_oidc.Oauth2.Authrequest.{AuthRequest}
use mock_oidc.Text.{Text, ◌==◌, txt, trim_space, join}
use mock_oidc.Entra.Handler.{
  Scope, AuthCode, Handler, Response, failed, issued, take_code, panicked,
}
use mock_oidc.Oauth2.Tokenrequest.{TokenRequest, parse_token_request}
use mock_oidc.Entra.Claims.{
  TokenInput, access_token_claims, mapped_claims, id_token_claims, has_scope,
}
use mock_oidc.Entra.Appcreds.{client_credentials}

-- pkceOK
unfoldable pub pkce_ok : Library → AuthRequest → Text → Bool
pkce_ok lib ar verifier =
    if is_empty ar.code_challenge
    then true
    else if is_empty verifier
    then false
    else (if ar.code_challenge_method == txt "S256" then lib.s256 verifier else verifier)
      == ar.code_challenge

-- TokenInput of a redemption
unfoldable pub token_input : Config → Request → ℕ → AuthCode → Tenant → User → TokenInput
token_input cfg r now c t u = record {
  graph_base = graph_base cfg;
  overage_self_hosted = overage_self_hosted cfg;
  origin = r.origin;
  base_path = cfg.base_path;
  tenant = t;
  user = u;
  client_id = c.req.client_id;
  nonce = c.req.nonce;
  scopes = c.req.scope;
  now = now;
  expiry = cfg.token_expiry;
  mapped_claims = mapped_claims cfg t c.req.client_id u;
}

unfoldable pub issue : Digest → Library → Text → Config → AuthCode → TokenInput → Response
issue d lib uti cfg c i = issued (record {
  scope = join c.req.scope (b' ' ∷ []);
  expires_in = cfg.token_expiry;
  access_claims = access_token_claims d lib uti i;
  id_claims = id_token_claims d lib uti i;
  refresh_token = has_scope c.req.scope (txt "offline_access");
})

-- The checks of a code against the request that presents it.
unfoldable pub check_code :
    Library → Scope → TokenRequest → ℕ → Option AuthCode → Result OauthError AuthCode
check_code lib sc tr now none = err code_unknown
check_code lib sc tr now (some c) = do
  refuse (ltb c.expires now) code_unknown
  refuse (not (sc.segment == c.segment) && not (sc.segment == c.tid)) code_other_segment
  guard (tr.client_id == c.req.client_id) code_other_client
  guard (tr.redirect_uri == c.req.redirect_uri) code_other_redirect
  guard (pkce_ok lib c.req tr.code_verifier) code_verifier_mismatch
  ok c

-- After the checks: the user is read without a test for nil, and the tenant by the claims.
unfoldable pub redeem :
    Digest → Library → Text → Config → Request → ℕ → Result OauthError AuthCode → Response
redeem d lib uti cfg r now (err e) = failed e
redeem d lib uti cfg r now (ok c) = elim (user cfg c.tid c.username) [
  | none ↦ panicked
  | some u ↦
      if u.error == txt "invalid_grant" || not (enabled u)
      then failed account_disabled
      else elim (tenant cfg c.tid) [
        | none ↦ panicked
        | some t ↦ issue d lib uti cfg c (token_input cfg r now c t u)
      ]
]

-- Handler.token for the authorization_code grant, once the request is parsed
unfoldable pub exchange :
    Digest
    → Library
    → Text
    → Request
    → Scope
    → ℕ
    → Handler
    → Result OauthError TokenRequest
    → Response × Handler
exchange d lib uti r sc now h (err e) = (failed e, h)
exchange d lib uti r sc now h (ok tr) =
    let taken = take_code tr.code h.codes in
    (redeem d lib uti h.conf r now (check_code lib sc tr now taken.0), record h { codes = taken.1 })

-- Handler.token
unfoldable pub token : Digest → Library → Text → Request → Scope → ℕ → Handler → Response × Handler
token d lib uti r sc now h =
    let gt : Text = trim_space (form_param (txt "grant_type") r) in
    if gt == txt "authorization_code"
    then exchange d lib uti r sc now h (parse_token_request lib r)
    else if gt == txt "client_credentials" && app_only_on h.conf
    then (client_credentials r sc h.conf now, h)
    else (failed (unsupported_grant gt), h)
