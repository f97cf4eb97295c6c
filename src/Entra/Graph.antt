-- ===== src/Entra/Graph.antt =====
-- internal/entra/graph.go and userinfo.go: the routes of the Graph surface. The request's parts that
-- they read are a record; whether a body is JSON is the library's answer.
pub mod Render
pub mod Expand
pub mod Resources
pub mod Dispatch
pub mod Tests
use mock_oidc.Entra.Graphconfig.{graph_base}
use mock_oidc.Prelude.{ℕ, ◌++◌, List, ◌∷◌, ok, [], err, Bool, Result}
use mock_oidc.Text.{Text, txt}
use mock_oidc.Entra.Verify.{GraphError, resource_not_found, Jws}
use mock_oidc.Entra.Guid.{Digest}
use mock_oidc.Entra.Types.{Config}
use mock_oidc.Oauth2.Request.{Form}
use mock_oidc.Json.{Fields}
use mock_oidc.Entra.Odata.{Page, render_entity, render_collection, Schemas}
use mock_oidc.Entra.Keys.{KeySet}

pub record GraphRequest : Type 0 where
  pub method : Text
  pub query : Form
  pub authorization : Text
  pub body : Text
  pub body_is_json : Bool
  pub origin : Text

pub data GraphResponse : Type 0 where
  graph_failed : GraphError → GraphResponse
  entity : Fields → GraphResponse
  collection : Text → Page → GraphResponse
  object_ids : Text → List Text → GraphResponse
  -- the UserInfo endpoint's own answers
  user_claims : Fields → GraphResponse
  bearer_failed : Text → GraphResponse
  method_not_allowed : GraphResponse

-- What the surface reads besides the request.
pub record Surface : Type 0 where
  pub digest : Digest
  pub jws : Jws
  pub keys : KeySet
  pub conf : Config
  pub now : ℕ
  pub schemas : Schemas

-- notFound, for a resource that is named or none
abbrev pub no_resource : GraphResponse
no_resource = graph_failed (resource_not_found [])

-- Config.graphBaseURL
unfoldable pub graph_base_url : Config → Text → Text
graph_base_url c origin = origin ++ (b'/' ∷ c.base_path ++ (b'/' ∷ graph_base c))

-- Config.graphContext
unfoldable pub graph_context : Config → Text → Text → Text
graph_context c origin suffix = graph_base_url c origin ++ (txt "/v1.0/$metadata#" ++ suffix)

abbrev rendered : Result GraphError Fields → GraphResponse
rendered (err e) = graph_failed e
rendered (ok f) = entity f

abbrev paged : Text → Result GraphError Page → GraphResponse
paged context (err e) = graph_failed e
paged context (ok p) = collection context p

unfoldable pub entity_response :
    Surface → GraphRequest → Text → Text → Bool → Fields → GraphResponse
entity_response s r suffix type_name expandable e =
    rendered (render_entity r.query (graph_context s.conf r.origin suffix) e type_name expandable)

unfoldable pub collection_response :
    Surface → GraphRequest → Text → Text → Bool → List Fields → GraphResponse
collection_response s r suffix type_name expandable items =
    paged (graph_context s.conf r.origin suffix)
      (render_collection s.schemas s.conf r.query type_name items expandable)
