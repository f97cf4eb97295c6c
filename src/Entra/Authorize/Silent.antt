-- ===== src/Entra/Authorize/Silent.antt =====
-- The answers to a silent sign-in: the prompt `none` of internal/entra/authorize.go.
use mock_oidc.Prelude.{
  ℕ, some, ok, Option, false, arith, none, Bool, err, refl, true, ◌≡◌, Result, [], ◌∷◌,
}
use mock_oidc.Entra.Handler.{
  Response, redirect_with, error_redirect, success_redirect, failed, redirected, Scope, picker,
  Handler, passkey, issued, app_issued,
}
use mock_oidc.Entra.Authorize.{
  issue_code, choose, authorize_checked, authorize_get, authorize_parsed, refused_request,
  AuthHints, silent, read_hints,
}
use mock_oidc.Oauth2.Request.{Library, Form, Request, OauthError}
use mock_oidc.Text.{Text, txt}
use mock_oidc.Oauth2.Authrequest.{AuthRequest, parse_auth_request}
use mock_oidc.Entra.Types.{Config, User}

-- A page that asks a person.
abbrev pub is_page : Response → Bool
is_page (failed e) = false
is_page (redirected uri f) = false
is_page (picker s ts) = true
is_page (passkey u) = true
is_page (issued ts) = false
is_page (app_issued n c) = false
is_page Response.panicked = false

redirect_with-page :
    (lib : Library) (uri : Text) (f : Form) → is_page (redirect_with lib uri f) ≡ false
unfolding redirect_with
redirect_with-page lib uri f = ground arith

error_redirect-page :
    (lib : Library) (uri state code : Text) → is_page (error_redirect lib uri state code) ≡ false
unfolding error_redirect
error_redirect-page lib uri state code =
    redirect_with-page lib uri ((txt "error", code) ∷ (txt "state", state) ∷ [])

success_redirect-page :
    (lib : Library) (ar : AuthRequest) (code : Text)
    → is_page (success_redirect lib ar code) ≡ false
unfolding success_redirect
success_redirect-page lib ar code = ground arith

issue_code-page :
    (lib : Library) (code : Text) (ar : AuthRequest) (sc : Scope) (now : ℕ) (cfg : Config)
    (u : User) (h : Handler)
    → is_page (issue_code lib code ar sc now cfg u h).0 ≡ false
unfolding issue_code
issue_code-page lib code ar sc now cfg u h =
    let page = error_redirect-page lib ar.redirect_uri ar.state in
    ground (
      arith,
      success_redirect-page lib ar code,
      page (txt "interaction_required"),
      page (txt "access_denied"),
      page (txt "consent_required"),
    )

choose-page :
    (lib : Library) (code : Text) (r : Request) (ar : AuthRequest) (sc : Scope) (now : ℕ)
    (hints : AuthHints) (o : Option User) (h : Handler)
    → silent hints ≡ true
    → is_page (choose lib code r ar sc now hints o h).0 ≡ false
unfolding choose
choose-page lib code r ar sc now hints none h s =
    rw s (error_redirect-page lib ar.redirect_uri ar.state (txt "interaction_required"))
choose-page lib code r ar sc now hints (some u) h s =
    rw s (issue_code-page lib code ar sc now h.conf u h)

refused_request-page :
    (lib : Library) (ar : AuthRequest) (res : Response)
    → refused_request lib ar ≡ some res
    → is_page res ≡ false
refused_request-page lib ar res h =
    ground
      (arith, error_redirect-page lib ar.redirect_uri ar.state (txt "unsupported_response_type"))

checked-page :
    (lib : Library) (code : Text) (r : Request) (ar : AuthRequest) (sc : Scope) (now : ℕ)
    (h : Handler) (o : Option Response)
    → refused_request lib ar ≡ o
    → silent (read_hints r) ≡ true
    → is_page (authorize_checked lib code r ar sc now h o).0 ≡ false
unfolding authorize_checked
checked-page lib code r ar sc now h (some res) e s = refused_request-page lib ar res e
checked-page lib code r ar sc now h none e s = choose-page lib code r ar sc now (read_hints r) _ h s

-- A GET on the authorize endpoint with prompt=none among its prompts never answers with the picker or
-- the passkey page, whatever its other parameters and whatever the hint names.
pub authorize_get-silent :
    (lib : Library) (code : Text) (r : Request) (sc : Scope) (now : ℕ) (h : Handler)
    → silent (read_hints r) ≡ true
    → is_page (authorize_get lib code r sc now h).0 ≡ false
unfolding authorize_get authorize_parsed
authorize_get-silent lib code r sc now h s = go (parse_auth_request r.query)
  where
    go :
        (p : Result OauthError AuthRequest)
        → is_page (authorize_parsed lib code r sc now h p).0 ≡ false
    go (err e) = refl
    go (ok ar) = checked-page lib code r ar sc now h (refused_request lib ar) refl s
