-- ===== src/Entra/Graph/Dispatch.antt =====
-- internal/entra/graph.go and userinfo.go: the authentication of a request and its dispatch.
use mock_oidc.Entra.Lookup.{principal_name}
use mock_oidc.Entra.Verify.{Caller, GraphError, validate_access_token, bearer_token, denied}
use mock_oidc.Entra.Graphconfig.{user_info_on}
use mock_oidc.Entra.Graph.{
  no_resource, Surface, GraphResponse, GraphRequest, bearer_failed, graph_failed, user_claims,
  method_not_allowed,
}
use mock_oidc.Prelude.{
  err, none, [], Option, is_empty, ◌||◌, ok, List, if◌then◌else◌, some, Result, ◌∷◌,
}
use mock_oidc.Text.{Text, ◌==◌, join, txt}
use mock_oidc.Entra.Types.{User}
use mock_oidc.Json.{Fields, field, string, done}
use mock_oidc.Entra.Graph.Resources.{graph_user_route, graph_users_route, graph_groups_route}

abbrev optional_field : Text → Text → Fields → Fields
optional_field name s f = if is_empty s then f else field name (string s) f

abbrev claims_of : Caller → Option User → GraphResponse
claims_of c none = bearer_failed (txt "insufficient_scope")
claims_of c (some u) = user_claims (
    field (txt "sub") (string c.sub) (
      field (txt "oid") (string u.oid) (
        field (txt "tid") (string c.tenant.tid) (
          field (txt "name") (string u.name) (
            field (txt "preferred_username") (string (principal_name c.tenant u)) (
              optional_field (txt "given_name") u.given_name (
                optional_field (txt "family_name") u.surname
                  (optional_field (txt "email") u.email done))))))))

abbrev info_for : Result GraphError Caller → GraphResponse
info_for (err e) = bearer_failed (txt "invalid_token")
info_for (ok c) = claims_of c c.user

unfoldable pub authenticate : Surface → GraphRequest → Result GraphError Caller
authenticate s r =
    validate_access_token s.jws s.keys s.conf r.origin s.now (bearer_token r.authorization)

-- Handler.userInfo
unfoldable pub user_info : Surface → GraphRequest → GraphResponse
user_info s r =
    if r.method == txt "GET" || r.method == txt "POST"
    then info_for (authenticate s r)
    else method_not_allowed

abbrev me : Surface → GraphRequest → List Text → Option User → GraphResponse
me s r path none = graph_failed (denied (txt "/me requires a delegated user token."))
me s r path (some u) = graph_user_route s r u path

-- The resources of an authenticated caller.
unfoldable pub resource : Surface → GraphRequest → Caller → Text → List Text → GraphResponse
resource s r c name path =
    if name == txt "me"
    then me s r path c.user
    else if name == txt "users"
    then graph_users_route s r c.tenant.tid path
    else if name == txt "groups"
    then graph_groups_route s r c.tenant.tid path
    else no_resource

abbrev for_caller :
    Surface → GraphRequest → Text → List Text → Result GraphError Caller → GraphResponse
for_caller s r name path (err e) = graph_failed e
for_caller s r name path (ok c) = resource s r c name path

abbrev versioned : Surface → GraphRequest → List Text → GraphResponse
versioned s r [] = no_resource
versioned s r (v ∷ []) = no_resource
versioned s r (v ∷ name ∷ path) =
    if v == txt "v1.0" then for_caller s r name path (authenticate s r) else no_resource

-- Handler.graph
unfoldable pub graph : Surface → GraphRequest → List Text → GraphResponse
graph s r segs =
    if join segs (b'/' ∷ []) == txt "oidc/userinfo"
    then if user_info_on s.conf then user_info s r else no_resource
    else versioned s r segs
