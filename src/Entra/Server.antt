-- ===== src/Entra/Server.antt =====
-- internal/entra/handler.go: the endpoints over the whole emulation, with discovery and logout.
-- Members of the discovery document that are constants are left out.
pub mod Testapi
pub mod Handle
pub mod Kept
pub mod Invariant
mod Tests
use mock_oidc.Entra.Graphconfig.{user_info_on}
use mock_oidc.Entra.Admin.{Emulator, handler_of, with_handler, MintedToken, MintError}
use mock_oidc.Entra.Handler.{Scope, Response, Handler, redirect_with}
use mock_oidc.Prelude.{ℕ, some, ◌&&◌, is_empty, if◌then◌else◌, List, ◌++◌, Bool, [], ◌∷◌, none}
use mock_oidc.Text.{Text, ◌==◌, txt}
use mock_oidc.Entra.Guid.{Digest}
use mock_oidc.Entra.Types.{Config, Consent, User}
use mock_oidc.Oauth2.Request.{Library, Request, query_param}
use mock_oidc.Entra.Verify.{Jws}
use mock_oidc.Entra.Graph.{GraphResponse, graph_base_url}
use mock_oidc.Assoc.{Assoc}
use mock_oidc.Entra.Odata.{Schemas}
use mock_oidc.Entra.Keys.{published_kids}
use mock_oidc.Entra.Authorize.{authorize_get, authorize_post}
use mock_oidc.Entra.Directory.{DirGroup}
use mock_oidc.Entra.Token.{token}
use mock_oidc.Entra.Adminconsent.{admin_consent_get, admin_consent_post}

pub record ServerRequest : Type 0 where
  pub method : Text
  pub path : Text
  pub oauth : Request
  pub authorization : Text
  pub body : Text
  pub body_is_json : Bool

-- What a step draws or reads from outside: random values and the time in nanoseconds.
pub record Draw : Type 0 where
  pub code : Text
  pub uti : Text
  pub secret : ℕ
  pub now : ℕ

-- The libraries that the endpoints call.
pub record Outside : Type 0 where
  pub digest : Digest
  pub library : Library
  pub jws : Jws
  pub schemas : Schemas

pub data ServerResponse : Type 0 where
  no_content : ServerResponse
  no_page : ServerResponse
  oauth_answer : Response → ServerResponse
  graph_answer : GraphResponse → ServerResponse
  discovered : Assoc Text → ServerResponse
  key_set : List Text → ServerResponse
  signed_out : ServerResponse
  reset_done : ServerResponse
  rotated_to : Text → ServerResponse
  minted : MintedToken → ServerResponse
  mint_failed : MintError → ServerResponse
  consent_list : List Consent → ServerResponse
  user_list : List (User × List DirGroup) → ServerResponse
  group_list : Assoc Text → ServerResponse

-- Handler.discoveryDoc, and the addresses of Handler.discovery
unfoldable pub discovery : Config → Text → Scope → Assoc Text
discovery c origin sc =
    let base : Text = origin ++ (b'/' ∷ c.base_path) in
    let ep : Text = base ++ (b'/' ∷ sc.segment) in
    let tid : Text = elim sc.tenant [ none ↦ txt "{tenantid}" | some t ↦ t.tid ] in
    (txt "token_endpoint", ep ++ txt "/oauth2/v2.0/token")
    ∷ (txt "jwks_uri", ep ++ txt "/discovery/v2.0/keys")
    ∷ (txt "issuer", base ++ (b'/' ∷ tid ++ txt "/v2.0"))
    ∷ (txt "authorization_endpoint", ep ++ txt "/oauth2/v2.0/authorize")
    ∷ (txt "end_session_endpoint", ep ++ txt "/oauth2/v2.0/logout")
    ∷ (if user_info_on c
        then (txt "userinfo_endpoint", graph_base_url c origin ++ txt "/oidc/userinfo") ∷ []
        else [])

-- logout
unfoldable pub logout : Library → Request → ServerResponse
logout lib r =
    let uri : Text = query_param (txt "post_logout_redirect_uri") r in
    if is_empty uri
    then signed_out
    else oauth_answer (redirect_with lib uri ((txt "state", query_param (txt "state") r) ∷ []))

abbrev pub answered : Emulator → Response × Handler → ServerResponse × Emulator
answered e (res, h) = (oauth_answer res, with_handler e h)

-- Handler.route
unfoldable pub route :
    Outside → Draw → ServerRequest → Scope → Text → Emulator → ServerResponse × Emulator
route o w r sc rest e =
    let is_get : Bool = r.method == txt "GET" in
    let is_post : Bool = r.method == txt "POST" in
    if is_get && rest == txt "v2.0/.well-known/openid-configuration"
    then (discovered (discovery e.store.cur r.oauth.origin sc), e)
    else if is_get && rest == txt "discovery/v2.0/keys"
    then (key_set (published_kids e.keys), e)
    else if is_get && rest == txt "oauth2/v2.0/authorize"
    then answered e (authorize_get o.library w.code r.oauth sc w.now (handler_of e))
    else if is_post && rest == txt "oauth2/v2.0/authorize"
    then answered e (authorize_post o.library w.code r.oauth sc w.now (handler_of e))
    else if is_post && rest == txt "oauth2/v2.0/token"
    then answered e (token o.digest o.library w.uti r.oauth sc w.now (handler_of e))
    else if is_get && rest == txt "v2.0/adminconsent"
    then (oauth_answer (admin_consent_get r.oauth sc (handler_of e)), e)
    else if is_post && rest == txt "v2.0/adminconsent"
    then answered e (admin_consent_post o.library r.oauth sc (handler_of e))
    else if rest == txt "oauth2/v2.0/logout"
    then (logout o.library r.oauth, e)
    else (no_page, e)
