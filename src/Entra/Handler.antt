-- ===== src/Entra/Handler.antt =====
-- internal/entra/handler.go, the code store of authorize.go and the responses: what the sign-in
-- endpoints share. A time is in nanoseconds; random codes and the time are arguments of a step.
use mock_oidc.Entra.Lookup.{tenant}
use mock_oidc.Prelude.{
  ℕ, ◌||◌, ok, ◌∷◌, Option, none, ℤ, not, if◌then◌else◌, List, is_empty, err, is_some, filter, ltb,
  some, Result, Bool, [],
}
use mock_oidc.Oauth2.Authrequest.{AuthRequest}
use mock_oidc.Text.{Text, lower, txt, ◌==◌}
use mock_oidc.Entra.Types.{Config, Tenant, User}
use mock_oidc.Oauth2.Request.{OauthError, Form, Library, bad_redirect_uri, no_such_tenant}
use mock_oidc.Assoc.{Assoc, insert, lookup, delete}
use mock_oidc.Entra.Consents.{ConsentStore}
use mock_oidc.Entra.Claims.{Claim}

pub record AuthCode : Type 0 where
  pub req : AuthRequest
  pub tid : Text
  pub username : Text
  pub segment : Text
  pub expires : ℕ

-- codeTTL
abbrev pub code_ttl : ℕ
code_ttl = 600000000000

-- codeStore.put: the expired codes are dropped
unfoldable pub put : Text → AuthCode → ℕ → Assoc AuthCode → Assoc AuthCode
put code c now codes =
    insert code c (filter (λ (p : Text × AuthCode). not (ltb p.1.expires now)) codes)

-- codeStore.take
unfoldable pub take_code : Text → Assoc AuthCode → Option AuthCode × Assoc AuthCode
take_code code codes = (lookup code codes, delete code codes)

-- Handler, without the keys and the immutable seed
pub record Handler : Type 0 where
  pub conf : Config
  pub consents : ConsentStore
  pub codes : Assoc AuthCode

-- scope: a tenant's segment, or one that names no tenant
pub record Scope : Type 0 where
  pub segment : Text
  pub tenant : Option Tenant

-- scope.Multi
abbrev pub multi : Scope → Bool
multi sc = not (is_some sc.tenant)

pub record PickerUser : Type 0 where
  pub username : Text
  pub name : Text
  pub email : Text
  pub match : Bool

pub record PickerTenant : Type 0 where
  pub tid : Text
  pub name : Text
  pub users : List PickerUser

-- A /token answer before it is signed.
pub record Tokens : Type 0 where
  pub scope : Text
  pub expires_in : ℤ
  pub access_claims : Assoc Claim
  pub id_claims : Assoc Claim
  pub refresh_token : Bool

-- `panicked` is a nil pointer that the code reads.
pub data Response : Type 0 where
  failed : OauthError → Response
  redirected : Text → Form → Response
  picker : Text → List PickerTenant → Response
  passkey : User → Response
  issued : Tokens → Response
  app_issued : ℤ → Assoc Claim → Response
  panicked : Response

-- Handler.resolveScope
unfoldable pub resolve_scope : Config → Text → Result OauthError Scope
resolve_scope c seg =
    let seg : Text = lower seg in
    if seg == txt "organizations" || seg == txt "common"
    then ok (record { segment = seg; tenant = none })
    else elim (tenant c seg) [
      | some t ↦ ok (record { segment = t.tid; tenant = some t })
      | none ↦ err (no_such_tenant seg)
    ]

abbrev set_params : Form → Form
set_params [] = []
set_params ((n, v) ∷ f) = let rest = set_params f in if is_empty v then rest else (n, v) ∷ rest

-- redirectWith: the parameters that are set on the redirect URI
unfoldable pub redirect_with : Library → Text → Form → Response
redirect_with lib uri params =
    if lib.valid_url uri then redirected uri (set_params params) else failed bad_redirect_uri

-- errorRedirect, without the description
unfoldable pub error_redirect : Library → Text → Text → Text → Response
error_redirect lib uri state code =
    redirect_with lib uri ((txt "error", code) ∷ (txt "state", state) ∷ [])

-- AuthRequest.SuccessRedirectURL, and the redirect to it
unfoldable pub success_redirect : Library → AuthRequest → Text → Response
success_redirect lib ar code =
    if lib.valid_url ar.redirect_uri
    then redirected ar.redirect_uri
        ((txt "code", code) ∷ (if is_empty ar.state then [] else (txt "state", ar.state) ∷ []))
    else failed bad_redirect_uri
