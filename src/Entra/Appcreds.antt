-- ===== src/Entra/Appcreds.antt =====
-- internal/entra/appcreds.go: app-only tokens.
use mock_oidc.Prelude.{
  ℕ, Bool, [], ◌||◌, Option, pos, if◌then◌else◌, find?, not, is_empty, List, ℤ, none, some, ◌∷◌,
  ◌&&◌, all,
}
use mock_oidc.Text.{Text, lower, trim_space, has_suffix, ◌==◌, txt, fields}
use mock_oidc.Entra.Types.{Config, App, Tenant}
use mock_oidc.Oauth2.Request.{
  Request, form_param, client_id_required, not_tenant_specific, not_default_scope,
}
use mock_oidc.Assoc.{Assoc, insert}
use mock_oidc.Clock.{expires_at, unix}
use mock_oidc.Entra.Handler.{Scope, Response, failed, app_issued}
use mock_oidc.Entra.Claims.{Claim, text, issuer, graph_app_id, number, texts}

-- AppOnlyClaims
unfoldable pub app_only_claims : Text → Text → Text → Text → List Text → ℕ → ℤ → Assoc Claim
app_only_claims origin base_path tid client_id roles now expiry =
    let c : Assoc Claim =
      (txt "iss", text (issuer origin base_path tid))
      ∷ (txt "aud", text graph_app_id)
      ∷ (txt "sub", text client_id)
      ∷ (txt "azp", text client_id)
      ∷ (txt "appid", text client_id)
      ∷ (txt "tid", text tid)
      ∷ (txt "iat", number (pos (unix now)))
      ∷ (txt "nbf", number (pos (unix now)))
      ∷ (txt "exp", number (expires_at now expiry))
      ∷ (txt "ver", text (txt "2.0"))
      ∷ [] in
    if is_empty roles then c else insert (txt "roles") (texts roles) c

-- Config.App
unfoldable pub app : Config → Text → Text → Option App
app c client_id tid =
    let tid : Text = lower tid in
    find? (λ (a : App). a.client_id == client_id && (is_empty a.tid || a.tid == tid)) c.apps

abbrev roles_of : Option App → List Text
roles_of none = []
roles_of (some a) = a.roles

-- The client id of the form, or else the user of the Basic header.
abbrev pub client_of : Request → Text
client_of r =
    let id = trim_space (form_param (txt "client_id") r) in
    if is_empty id then (elim r.basic_user [ none ↦ [] | some u ↦ u ]) else id

abbrev is_default : Text → Bool
is_default s = has_suffix s (txt "/.default") || s == txt ".default"

-- Handler.clientCredentials for a tenant's scope
unfoldable pub app_token : Request → Tenant → Config → ℕ → Response
app_token r t cfg now =
    if is_empty (client_of r)
    then failed client_id_required
    else if not (all is_default (fields (form_param (txt "scope") r)))
    then failed not_default_scope
    else app_issued cfg.token_expiry (
        app_only_claims r.origin cfg.base_path t.tid (client_of r)
          (roles_of (app cfg (client_of r) t.tid)) now cfg.token_expiry)

-- Handler.clientCredentials
unfoldable pub client_credentials : Request → Scope → Config → ℕ → Response
client_credentials r sc cfg now = elim sc.tenant [
  | none ↦ failed not_tenant_specific
  | some t ↦ app_token r t cfg now
]
