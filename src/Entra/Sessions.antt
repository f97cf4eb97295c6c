-- ===== src/Entra/Sessions.antt =====
-- The sign-in endpoints at a concrete tenant: a code is issued by a login hint and redeemed.
use mock_oidc.Entra.Lookup.{users_in, user, tenant, principal_name, preferred_username}
use mock_oidc.Prelude.{Option, some, none, false, ◌≡◌, pos, refl, [], ◌∷◌, true, ◌≤◌, ok}
use mock_oidc.Oauth2.Request.{Library, Request, query_param, get, form_param}
use mock_oidc.Entra.Types.{User, Tenant, Config}
use mock_oidc.Entra.Handler.{
  Handler, Scope, AuthCode, Response, Tokens, issued, take_code, put, success_redirect,
  error_redirect, redirect_with,
}
use mock_oidc.Entra.Authorize.{
  authorize_get, silent, read_hints, authorize_parsed, authorize_checked, forces_picker, choose,
  hint_matches, matches_in, in_scope, domain_hint_matches_any, has_domain, matches_hint, issue_code,
  resolved, authorize_post, post_parsed, post_checked, submit, posted_user,
}
use mock_oidc.Assoc.{lookup}
use mock_oidc.Entra.Authorize.Silent.{is_page, authorize_get-silent}
use mock_oidc.Entra.Token.{token, exchange, redeem, check_code, pkce_ok, token_input, issue}
use mock_oidc.Entra.Tests.{plain_user, tenant_of, digest}
use mock_oidc.Text.{
  txt, ◌==◌, mem, lower, fields, lower_rune, equal_fold, is_space, trim_left, trim, trim_space,
  has_prefix, cut_prefix, join,
}
use mock_oidc.Oauth2.Authrequest.{parse_auth_request, implies_code_flow}
use mock_oidc.Oauth2.Tokenrequest.{
  parse_token_request, resolve_client_auth, grant_fields, TokenRequest,
}
use mock_oidc.Entra.Token.Once.{redemptions, posted, configured, redeemed_once}
use mock_oidc.Entra.Consents.{has, consent_key}
use mock_oidc.Entra.Token.Guards.{IsRedeemed, token-IsRedeemed}
use mock_oidc.Entra.Authorize.Issued.{Stored, authorize_get-IsIssued}
use mock_oidc.Entra.Authorize.Posted.{Posted, authorize_post-IsIssued}

abbrev pub library : Library
library = record { query_unescape = λ s. some s; s256 = λ s. s; valid_url = λ s. true }

abbrev pub account : User
account = record (plain_user "11111111-1111-4111-8111-111111111111" "ada" "") {
  upn = txt "ada@contoso.test";
}

abbrev pub home : Tenant
home = tenant_of "11111111-1111-4111-8111-111111111111" []

abbrev pub directory : Config
directory = record {
  base_path = txt "entra";
  default_group_limit = pos 200;
  token_expiry = pos 3600;
  ignore_login_hint = false;
  graph = none;
  tenants = home ∷ [];
  consents = [];
  apps = [];
  users = account ∷ [];
}

abbrev start : Handler
start = record { conf = directory; consents = record { seed = []; granted = [] }; codes = [] }

abbrev path : Scope
path = record { segment = txt "organizations"; tenant = none }

abbrev home_path : Scope
home_path = record { segment = home.tid; tenant = some home }

abbrev sign_in : Request
sign_in = record {
  form = [];
  query =
      (txt "response_type", txt "code")
      ∷ (txt "scope", txt "openid offline_access")
      ∷ (txt "client_id", txt "app")
      ∷ (txt "redirect_uri", txt "https://app.test/cb")
      ∷ (txt "login_hint", txt "ADA@contoso.test")
      ∷ (txt "prompt", txt "none")
      ∷ (txt "code_challenge", txt "v")
      ∷ [];
  basic_user = none;
  origin = txt "http://localhost";
  request_uri = [];
}

abbrev redemption : Request
redemption = record {
  form =
      (txt "grant_type", txt "authorization_code")
      ∷ (txt "client_id", txt "app")
      ∷ (txt "redirect_uri", txt "https://app.test/cb")
      ∷ (txt "code", txt "k")
      ∷ (txt "code_verifier", txt "v")
      ∷ [];
  query = [];
  basic_user = none;
  origin = txt "http://localhost";
  request_uri = [];
}

abbrev code_of : Option AuthCode → AuthCode
code_of (some c) = c
code_of none = record {
  req = record {
    response_type = [];
    client_id = [];
    redirect_uri = [];
    scope = [];
    state = [];
    nonce = [];
    code_challenge = [];
    code_challenge_method = [];
    prompt = [];
    response_mode = [];
  };
  tid = [];
  username = [];
  segment = [];
  expires = 0;
}

signed_in : Handler
unfolding txt ◌==◌ lower lower_rune equal_fold is_space trim_left trim trim_space has_prefix
    cut_prefix fields join mem authorize_get authorize_parsed authorize_checked parse_auth_request
    implies_code_flow get query_param read_hints silent forces_picker choose hint_matches matches_in
    in_scope domain_hint_matches_any has_domain matches_hint users_in principal_name
    preferred_username issue_code has consent_key put success_redirect error_redirect redirect_with
    tenant
signed_in = (authorize_get library (txt "k") sign_in path 5 start).1

stored : lookup (txt "k") signed_in.codes ≡ some (code_of (lookup (txt "k") signed_in.codes))
unfolding signed_in txt
stored = refl

is_silent : silent (read_hints sign_in) ≡ true
unfolding silent read_hints mem fields query_param get txt
is_silent = refl

authorize_get-silent_example :
    is_page (authorize_get library (txt "k") sign_in path 5 start).0 ≡ false
authorize_get-silent_example = authorize_get-silent library (txt "k") sign_in path 5 start is_silent

answer : Response
unfolding signed_in txt ◌==◌ lower lower_rune equal_fold is_space trim_left trim trim_space
    has_prefix cut_prefix fields join mem token exchange redeem check_code pkce_ok take_code
    form_param parse_token_request resolve_client_auth grant_fields user token_input issue get
    tenant
answer = (token digest library [] redemption path 7 signed_in).0

abbrev tokens_of : Response → Tokens
tokens_of (issued ts) = ts
tokens_of r = record {
  scope = [];
  expires_in = pos 0;
  access_claims = [];
  id_claims = [];
  refresh_token = false;
}

answered : (token digest library [] redemption path 7 signed_in).0 ≡ issued (tokens_of answer)
unfolding answer signed_in txt
answered = refl

token-IsRedeemed_example :
    (tr : TokenRequest) × (c : AuthCode) × (u : User) × (parse_token_request library redemption
      ≡ ok tr)
    × IsRedeemed library path 7 signed_in
        (token digest library [] redemption path 7 signed_in).1
        tr
        c
        u
token-IsRedeemed_example =
    token-IsRedeemed digest library [] redemption path 7 signed_in (tokens_of answer) answered

redeemed_once_example :
    redemptions digest library
      (txt "k")
      (posted [] redemption path 7 ∷ configured directory ∷ posted [] redemption path 8 ∷ [])
      signed_in
    ≤ 1
redeemed_once_example =
    redeemed_once digest library (txt "k")
      (posted [] redemption path 7 ∷ configured directory ∷ posted [] redemption path 8 ∷ [])
      signed_in (tt, (tt, (tt, tt)))

stored_now :
    lookup (txt "k") (authorize_get library (txt "k") sign_in path 5 start).1.codes
    ≡ some (code_of (lookup (txt "k") signed_in.codes))
unfolding signed_in txt
stored_now = refl

authorize_get-IsIssued_example :
    (u : User) × (resolved directory.ignore_login_hint
        (hint_matches directory path (read_hints sign_in))
      ≡ some u)
    × Stored library sign_in path 5 start (code_of (lookup (txt "k") signed_in.codes)) u
authorize_get-IsIssued_example =
    authorize_get-IsIssued library (txt "k") sign_in path 5 start
      (code_of (lookup (txt "k") signed_in.codes)) refl stored_now

abbrev chosen : Request
chosen = record sign_in {
  form = (txt "tid", txt "11111111-1111-4111-8111-111111111111") ∷ (txt "username", txt "ada") ∷ [];
}

-- The code that the post stores.
abbrev posted_code : AuthCode
posted_code =
    code_of (lookup (txt "k") (authorize_post library (txt "k") chosen home_path 5 start).1.codes)

posted_now :
    lookup (txt "k") (authorize_post library (txt "k") chosen home_path 5 start).1.codes
    ≡ some posted_code
unfolding txt ◌==◌ lower lower_rune equal_fold is_space trim_left trim trim_space has_prefix
    cut_prefix fields join mem authorize_post post_parsed post_checked submit posted_user user
    form_param parse_auth_request implies_code_flow get query_param issue_code has consent_key put
    success_redirect error_redirect redirect_with tenant
posted_now = refl

authorize_post-IsIssued_example : Posted library chosen home_path 5 start posted_code
authorize_post-IsIssued_example =
    authorize_post-IsIssued library (txt "k") chosen home_path 5 start posted_code refl posted_now
