-- ===== src/Oauth2/Tokenrequest.antt =====
-- internal/oauth2/tokenrequest.go: parsing a /token request.
use mock_oidc.Prelude.{
  ◌||◌, filter, ◌&&◌, ◌∷◌, Result, ◌>>◌, some, if◌then◌else◌, none, ◌>>=◌, is_empty, [], List, true,
  Bool, refuse, map, not, ok, false,
}
use mock_oidc.Text.{Text, txt, mem, ◌==◌, fields, trim_space}
use mock_oidc.Oauth2.Request.{
  Library, Form, get, Request, OauthError, client_failed, missing_or_empty, missing_parameter,
}

pub data AuthMethod : Type 0 where
  auth_none : AuthMethod
  auth_basic : AuthMethod
  auth_private_key_jwt : AuthMethod

pub record TokenRequest : Type 0 where
  pub grant_type : Text
  pub client_id : Text
  pub method : AuthMethod
  pub form : Form
  pub scope : Text
  pub scope_list : List Text
  pub code : Text
  pub redirect_uri : Text
  pub code_verifier : Text
  pub refresh_token : Text
  pub username : Text
  pub password : Text
  pub assertion : Text
  pub subject_token : Text
  pub subject_token_type : Text
  pub audience : List Text

unfoldable pub oidc_scopes : List Text
oidc_scopes = txt "openid" ∷ txt "profile" ∷ txt "email" ∷ txt "address" ∷ txt "offline_access" ∷ []

-- TokenRequest.ScopesWithoutOIDC
unfoldable pub scopes_without_oidc : TokenRequest → List Text
scopes_without_oidc tr = filter (λ s. not (mem s oidc_scopes)) tr.scope_list

abbrev unescaped : Library → Text → Text
unescaped lib user = elim (lib.query_unescape user) [ none ↦ user | some d ↦ d ]

abbrev from_form : Form → Text × AuthMethod
from_form f =
    if get (txt "client_assertion_type") f
        == txt "urn:ietf:params:oauth:client-assertion-type:jwt-bearer"
      && not (is_empty (get (txt "client_assertion") f))
    then (get (txt "client_id") f, auth_private_key_jwt)
    else (get (txt "client_id") f, auth_none)

-- resolveClientAuth
unfoldable pub resolve_client_auth : Library → Request → Text × AuthMethod
resolve_client_auth lib r = elim r.basic_user [
  | none ↦ from_form r.form
  | some user ↦ (unescaped lib user, auth_basic)
]

abbrev is_none : AuthMethod → Bool
is_none auth_none = true
is_none auth_basic = false
is_none auth_private_key_jwt = false

-- The first switch of ParseTokenRequest.
abbrev pub check_client : Text → Text → AuthMethod → Result OauthError (Unit {0})
check_client gt id m =
    if gt == txt "client_credentials" || gt == txt "password"
    then refuse (is_none m) client_failed
    else refuse (is_empty id) client_failed

-- A form value that must not be empty.
abbrev pub required : Text → Form → Result OauthError Text
required name f = refuse (is_empty (get name f)) (missing_or_empty name) >> ok (get name f)

abbrev values : Text → Form → List Text
values name f = map (λ p. p.1) (filter (λ p. p.0 == name) f)

-- The second switch of ParseTokenRequest.
unfoldable pub grant_fields : Form → TokenRequest → Result OauthError TokenRequest
grant_fields f tr =
    if tr.grant_type == txt "authorization_code"
    then (do
      code ← required (txt "code") f
      ok (record tr {
        code = code;
        redirect_uri = get (txt "redirect_uri") f;
        code_verifier = get (txt "code_verifier") f;
      }))
    else if tr.grant_type == txt "refresh_token"
    then (do t ← required (txt "refresh_token") f; ok (record tr { refresh_token = t }))
    else if tr.grant_type == txt "password"
    then (do
      u ← required (txt "username") f
      p ← required (txt "password") f
      ok (record tr { username = u; password = p }))
    else if tr.grant_type == txt "urn:ietf:params:oauth:grant-type:jwt-bearer"
    then (do a ← required (txt "assertion") f; ok (record tr { assertion = a }))
    else if tr.grant_type == txt "urn:ietf:params:oauth:grant-type:token-exchange"
    then (do
      t ← required (txt "subject_token") f
      ok (record tr {
        subject_token = t;
        subject_token_type = get (txt "subject_token_type") f;
        audience = values (txt "aud") f;
      }))
    else ok tr

-- The request before its grant's fields are read.
abbrev pub common_fields : Text → Text × AuthMethod → Form → TokenRequest
common_fields gt (id, m) f = record {
  grant_type = gt;
  client_id = id;
  method = m;
  form = f;
  scope = get (txt "scope") f;
  scope_list = fields (get (txt "scope") f);
  code = [];
  redirect_uri = [];
  code_verifier = [];
  refresh_token = [];
  username = [];
  password = [];
  assertion = [];
  subject_token = [];
  subject_token_type = [];
  audience = [];
}

-- ParseTokenRequest
unfoldable pub parse_token_request : Library → Request → Result OauthError TokenRequest
parse_token_request lib r =
    let gt : Text = trim_space (get (txt "grant_type") r.form) in
    let auth : Text × AuthMethod = resolve_client_auth lib r in
    do
      refuse (is_empty gt) (missing_parameter (txt "grant_type"))
      check_client gt auth.0 auth.1
      grant_fields r.form (common_fields gt auth r.form)
