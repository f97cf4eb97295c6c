-- ===== src/Oauth2/Request.antt =====
-- internal/oauth2/request.go and error.go: a request's decoded parameters, and OAuth errors. A multimap
-- is the list of its pairs in the order they were added.
use mock_oidc.Prelude.{◌∷◌, if◌then◌else◌, Bool, Option, [], List}
use mock_oidc.Text.{Text, ◌==◌, txt}

abbrev pub Form : Type 0
Form = List (Text × Text)

-- The Go library functions that the handlers rest on: url.QueryUnescape (none for an error),
-- base64.RawURLEncoding of sha256.Sum256, and whether url.Parse accepts.
pub record Library : Type 0 where
  pub query_unescape : Text → Option Text
  pub s256 : Text → Text
  pub valid_url : Text → Bool

-- basic_user is the user of a decoded Authorization: Basic header, where there is one.
pub record Request : Type 0 where
  pub form : Form
  pub query : Form
  pub basic_user : Option Text
  pub origin : Text
  pub request_uri : Text

-- url.Values.Get: the first value, or the empty string
unfoldable pub get : Text → Form → Text
get name [] = []
get name ((n, v) ∷ f) = if n == name then v else get name f

last_value : Text → Text → Form → Text
last_value acc name [] = acc
last_value acc name ((n, v) ∷ f) = last_value (if n == name then v else acc) name f

-- Request.FormParam: the last value, or the empty string
unfoldable pub form_param : Text → Request → Text
unfolding last_value
form_param name r = last_value [] name r.form

-- Request.QueryParam
unfoldable pub query_param : Text → Request → Text
query_param name r = get name r.query

-- Where an error is raised; `code` and `status` are what is sent.
pub data OauthError : Type 0 where
  missing_parameter : Text → OauthError
  missing_or_empty : Text → OauthError
  client_failed : OauthError
  client_id_required : OauthError
  unsupported_grant : Text → OauthError
  unsupported_response : OauthError
  unsupported_mode : Text → OauthError
  missing_nonce : OauthError
  no_such_user : OauthError
  other_tenant : Text → OauthError
  no_such_tenant : Text → OauthError
  not_tenant_specific : OauthError
  not_default_scope : OauthError
  code_unknown : OauthError
  code_other_segment : OauthError
  code_other_client : OauthError
  code_other_redirect : OauthError
  code_verifier_mismatch : OauthError
  account_disabled : OauthError
  bad_redirect_uri : OauthError

unfoldable pub code : OauthError → Text
code client_failed = txt "invalid_client"
code client_id_required = txt "invalid_client"
code (unsupported_grant gt) = txt "unsupported_grant_type"
code unsupported_response = txt "unsupported_response_type"
code code_unknown = txt "invalid_grant"
code code_other_segment = txt "invalid_grant"
code code_other_client = txt "invalid_grant"
code code_other_redirect = txt "invalid_grant"
code code_verifier_mismatch = txt "invalid_grant"
code account_disabled = txt "invalid_grant"
code (missing_parameter name) = txt "invalid_request"
code (missing_or_empty name) = txt "invalid_request"
code (unsupported_mode m) = txt "invalid_request"
code missing_nonce = txt "invalid_request"
code no_such_user = txt "invalid_request"
code (other_tenant tid) = txt "invalid_request"
code (no_such_tenant seg) = txt "invalid_request"
code not_tenant_specific = txt "invalid_request"
code not_default_scope = txt "invalid_request"
code bad_redirect_uri = txt "invalid_request"
