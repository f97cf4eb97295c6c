-- ===== src/Entra/Authorize.antt =====
-- internal/entra/authorize.go: the account hints, the picker, and issuing a code.
pub mod Silent
pub mod Issued
pub mod Posted
use mock_oidc.Prelude.{
  ℕ, map, ◌+◌, ◌||◌, Option, if◌then◌else◌, ◌&&◌, is_empty, ◌>>◌, ◌++◌, any, none, filter, not,
  Bool, err, List, Result, ok, some, guard, [], ◌∷◌,
}
use mock_oidc.Text.{Text, mem, trim_space, txt, lower, equal_fold, ◌==◌, fields}
use mock_oidc.Oauth2.Request.{
  Request, Library, OauthError, query_param, other_tenant, unsupported_mode, form_param,
  no_such_user,
}
use mock_oidc.Entra.Types.{User, Tenant, Config}
use mock_oidc.Entra.Handler.{
  Scope, PickerUser, PickerTenant, Handler, Response, success_redirect, error_redirect, picker,
  failed, put, code_ttl, panicked, passkey,
}
use mock_oidc.Oauth2.Authrequest.{AuthRequest, implies_code_flow, parse_auth_request}
use mock_oidc.Entra.Lookup.{principal_name, users_in, user, tenant}
use mock_oidc.Entra.Consents.{has}

pub record AuthHints : Type 0 where
  pub login_hint : Text
  pub domain_hint : Text
  pub prompt : List Text

-- readHints
unfoldable pub read_hints : Request → AuthHints
read_hints r = record {
  login_hint = trim_space (query_param (txt "login_hint") r);
  domain_hint = trim_space (query_param (txt "domain_hint") r);
  prompt = fields (query_param (txt "prompt") r);
}

-- authHints.forcesPicker
unfoldable pub forces_picker : AuthHints → Bool
forces_picker hints = mem (txt "select_account") hints.prompt || mem (txt "login") hints.prompt

-- authHints.silent
unfoldable pub silent : AuthHints → Bool
silent hints = mem (txt "none") hints.prompt

-- User.matchesHint
unfoldable pub matches_hint : User → Tenant → Text → Bool
matches_hint u t hint =
    not (is_empty hint)
    && (lower (principal_name t u) == lower hint
        || not (is_empty u.email) && lower u.email == lower hint
        || lower u.username == lower hint)

-- Tenant.hasDomain
unfoldable pub has_domain : Tenant → Text → Bool
has_domain t domain = any (λ d. equal_fold d domain) t.domains

-- Config.domainHintMatchesAny
unfoldable pub domain_hint_matches_any : Config → Text → Bool
domain_hint_matches_any c domain = any (λ t. has_domain t domain) c.tenants

-- Handler.inScope
unfoldable pub in_scope : Config → Scope → AuthHints → Tenant → Bool
in_scope c sc hints t = elim sc.tenant [
  | some own ↦ t.tid == own.tid
  | none ↦
      is_empty hints.domain_hint
      || not (domain_hint_matches_any c hints.domain_hint)
      || has_domain t hints.domain_hint
]

unfoldable pub matches_in : Config → Scope → AuthHints → List Tenant → List User
matches_in c sc hints [] = []
matches_in c sc hints (t ∷ ts) =
    let rest = matches_in c sc hints ts in
    if in_scope c sc hints t
    then filter (λ u. matches_hint u t hints.login_hint) (users_in c t.tid) ++ rest
    else rest

-- Handler.hintMatches
unfoldable pub hint_matches : Config → Scope → AuthHints → List User
hint_matches c sc hints = if is_empty hints.login_hint then [] else matches_in c sc hints c.tenants

abbrev picker_user : Tenant → Text → User → PickerUser
picker_user t hint u = record {
  username = u.username;
  name = u.name;
  email = u.email;
  match = matches_hint u t hint;
}

-- Handler.pickerTenants
unfoldable pub picker_tenants : Config → Scope → AuthHints → List PickerTenant
picker_tenants c sc hints =
    map
      (λ (t : Tenant). record {
        tid = t.tid;
        name = t.name;
        users = map (picker_user t hints.login_hint) (users_in c t.tid);
      })
      (filter (in_scope c sc hints) c.tenants)

-- The code is stored before the redirect URI is parsed.
abbrev pub store_code :
    Library → Text → AuthRequest → Scope → ℕ → Tenant → User → Handler → Response × Handler
store_code lib code ar sc now t u h = (
  success_redirect lib ar code,
  record h {
    codes =
        put code
          (record {
            req = ar;
            tid = t.tid;
            username = u.username;
            segment = sc.segment;
            expires = now + code_ttl;
          })
          now h.codes;
  },
)

-- Handler.issueCode; the tenant is read without a test for nil.
unfoldable pub issue_code :
    Library → Text → AuthRequest → Scope → ℕ → Config → User → Handler → Response × Handler
issue_code lib code ar sc now cfg u h =
    if u.error == txt "interaction_required"
    then (error_redirect lib ar.redirect_uri ar.state (txt "interaction_required"), h)
    else if u.error == txt "access_denied"
    then (error_redirect lib ar.redirect_uri ar.state (txt "access_denied"), h)
    else elim (tenant cfg u.tid) [
      | none ↦ (panicked, h)
      | some t ↦
          if t.consent_required && not (has ar.client_id t.tid h.consents)
          then (error_redirect lib ar.redirect_uri ar.state (txt "consent_required"), h)
          else store_code lib code ar sc now t u h
    ]

-- `len(matches) == 1 && !cfg.IgnoreLoginHint`, with the account
abbrev pub resolved : Bool → List User → Option User
resolved ignore [] = none
resolved ignore (u ∷ []) = if ignore then none else some u
resolved ignore (u ∷ v ∷ us) = none

-- The checks of the request that authorizeGet and authorizePost share.
abbrev pub refused_request : Library → AuthRequest → Option Response
refused_request lib ar =
    if not (implies_code_flow ar)
    then some (error_redirect lib ar.redirect_uri ar.state (txt "unsupported_response_type"))
    else if not (is_empty ar.response_mode) && not (ar.response_mode == txt "query")
    then some (failed (unsupported_mode ar.response_mode))
    else none

abbrev pick : Request → Config → Scope → AuthHints → Handler → Response × Handler
pick r cfg sc hints h = (picker (txt "signin") (picker_tenants cfg sc hints), h)

-- authorizeGet after the hints are resolved
unfoldable pub choose :
    Library
    → Text
    → Request
    → AuthRequest
    → Scope
    → ℕ
    → AuthHints
    → Option User
    → Handler
    → Response × Handler
choose lib code r ar sc now hints none h =
    if silent hints
    then (error_redirect lib ar.redirect_uri ar.state (txt "interaction_required"), h)
    else pick r h.conf sc hints h
choose lib code r ar sc now hints (some u) h =
    if silent hints || not (forces_picker hints)
    then issue_code lib code ar sc now h.conf u h
    else pick r h.conf sc hints h

unfoldable pub authorize_checked :
    Library
    → Text
    → Request
    → AuthRequest
    → Scope
    → ℕ
    → Handler
    → Option Response
    → Response × Handler
authorize_checked lib code r ar sc now h (some res) = (res, h)
authorize_checked lib code r ar sc now h none =
    let hints : AuthHints = read_hints r in
    choose lib code r ar sc now hints
      (resolved h.conf.ignore_login_hint (hint_matches h.conf sc hints)) h

unfoldable pub authorize_parsed :
    Library
    → Text
    → Request
    → Scope
    → ℕ
    → Handler
    → Result OauthError AuthRequest
    → Response × Handler
authorize_parsed lib code r sc now h (err e) = (failed e, h)
authorize_parsed lib code r sc now h (ok ar) =
    authorize_checked lib code r ar sc now h (refused_request lib ar)

-- Handler.authorizeGet
unfoldable pub authorize_get : Library → Text → Request → Scope → ℕ → Handler → Response × Handler
authorize_get lib code r sc now h =
    authorize_parsed lib code r sc now h (parse_auth_request r.query)

abbrev own_tenant : User → Option Tenant → Result OauthError User
own_tenant u none = ok u
own_tenant u (some t) = guard (u.tid == t.tid) (other_tenant u.tid) >> ok u

-- Handler.postedUser
unfoldable pub posted_user : Config → Request → Scope → Result OauthError User
posted_user c r sc = elim (user c (form_param (txt "tid") r) (form_param (txt "username") r)) [
  | none ↦ err no_such_user
  | some u ↦ own_tenant u sc.tenant
]

-- authorizePost after the account is known
unfoldable pub submit :
    Library
    → Text
    → Request
    → AuthRequest
    → Scope
    → ℕ
    → Handler
    → Result OauthError User
    → Response × Handler
submit lib code r ar sc now h (err e) = (failed e, h)
submit lib code r ar sc now h (ok u) =
    let action : Text = form_param (txt "action") r in
    if action == txt "passkey-approve"
    then issue_code lib code ar sc now h.conf u h
    else if action == txt "passkey-deny"
    then (error_redirect lib ar.redirect_uri ar.state (txt "access_denied"), h)
    else if u.mfa == txt "passkey" && is_empty u.error
    then (passkey u, h)
    else issue_code lib code ar sc now h.conf u h

unfoldable pub post_checked :
    Library
    → Text
    → Request
    → AuthRequest
    → Scope
    → ℕ
    → Handler
    → Option Response
    → Response × Handler
post_checked lib code r ar sc now h (some res) = (res, h)
post_checked lib code r ar sc now h none = submit lib code r ar sc now h (posted_user h.conf r sc)

unfoldable pub post_parsed :
    Library
    → Text
    → Request
    → Scope
    → ℕ
    → Handler
    → Result OauthError AuthRequest
    → Response × Handler
post_parsed lib code r sc now h (err e) = (failed e, h)
post_parsed lib code r sc now h (ok ar) =
    post_checked lib code r ar sc now h (refused_request lib ar)

-- Handler.authorizePost
unfoldable pub authorize_post : Library → Text → Request → Scope → ℕ → Handler → Response × Handler
authorize_post lib code r sc now h = post_parsed lib code r sc now h (parse_auth_request r.query)
