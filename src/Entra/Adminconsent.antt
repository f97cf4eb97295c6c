-- ===== src/Entra/Adminconsent.antt =====
-- internal/entra/adminconsent.go: the admin consent page and its answer.
pub mod Granted
use mock_oidc.Entra.Lookup.{tenant}
use mock_oidc.Prelude.{if◌then◌else◌, some, Result, ok, none, is_empty, [], err, ◌∷◌, Option}
use mock_oidc.Oauth2.Request.{
  Request, Library, OauthError, query_param, form_param, missing_parameter,
}
use mock_oidc.Entra.Handler.{
  Scope, Handler, Response, failed, error_redirect, picker, panicked, redirect_with,
}
use mock_oidc.Entra.Types.{Tenant, User}
use mock_oidc.Text.{txt, ◌==◌}
use mock_oidc.Entra.Authorize.{picker_tenants, read_hints, posted_user}
use mock_oidc.Entra.Consents.{grant}

-- requireConsentParams: the parameter that is missing
unfoldable pub require_consent_params : Request → Option OauthError
require_consent_params r =
    if is_empty (query_param (txt "client_id") r)
    then some (missing_parameter (txt "client_id"))
    else if is_empty (query_param (txt "redirect_uri") r)
    then some (missing_parameter (txt "redirect_uri"))
    else none

-- Handler.adminConsentGet
unfoldable pub admin_consent_get : Request → Scope → Handler → Response
admin_consent_get r sc h = elim (require_consent_params r) [
  | some e ↦ failed e
  | none ↦ picker (txt "accept") (picker_tenants h.conf sc (read_hints r))
]

-- What an administrator's acceptance does; reading the id of a tenant that is not there panics.
abbrev accepted : Library → Request → Handler → Option Tenant → Response × Handler
accepted lib r h none = (panicked, h)
accepted lib r h (some t) = (
  redirect_with lib (query_param (txt "redirect_uri") r) (
      (txt "admin_consent", txt "True")
      ∷ (txt "tenant", t.tid)
      ∷ (txt "state", query_param (txt "state") r)
      ∷ (txt "scope", query_param (txt "scope") r)
      ∷ []),
  record h { consents = grant (query_param (txt "client_id") r) t.tid h.consents },
)

abbrev denied : Library → Request → Response
denied lib r =
    error_redirect lib (query_param (txt "redirect_uri") r) (query_param (txt "state") r)
      (txt "access_denied")

-- The answer to the posted account.
unfoldable pub decide : Library → Request → Handler → Result OauthError User → Response × Handler
decide lib r h (err e) = (failed e, h)
decide lib r h (ok u) =
    if u.admin then accepted lib r h (tenant h.conf u.tid) else (denied lib r, h)

-- Once the parameters are checked.
unfoldable pub answer_post :
    Library → Request → Scope → Handler → Option OauthError → Response × Handler
answer_post lib r sc h (some e) = (failed e, h)
answer_post lib r sc h none =
    if form_param (txt "action") r == txt "cancel"
    then (denied lib r, h)
    else decide lib r h (posted_user h.conf r sc)

-- Handler.adminConsentPost
unfoldable pub admin_consent_post : Library → Request → Scope → Handler → Response × Handler
admin_consent_post lib r sc h = answer_post lib r sc h (require_consent_params r)
