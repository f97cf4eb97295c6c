-- ===== src/Entra/Server/Handle.antt =====
-- internal/entra/handler.go: the dispatch of a request.
use mock_oidc.Entra.Graphconfig.{graph_on, graph_base}
use mock_oidc.Entra.Admin.{Emulator}
use mock_oidc.Entra.Handler.{resolve_scope, Scope, failed}
use mock_oidc.Entra.Graph.Dispatch.{graph}
use mock_oidc.Prelude.{◌&&◌, err, if◌then◌else◌, ◌/◌, List, [], ◌∷◌, ok, Result}
use mock_oidc.Entra.Server.{
  Outside, ServerRequest, Draw, ServerResponse, no_page, oauth_answer, no_content, route,
  graph_answer,
}
use mock_oidc.Entra.Graph.{GraphRequest, Surface}
use mock_oidc.Text.{Text, ◌==◌, txt, join, split, trim_slash}
use mock_oidc.Oauth2.Request.{OauthError}
use mock_oidc.Entra.Server.Testapi.{test_api}

abbrev surface_of : Outside → Draw → Emulator → Surface
surface_of o w e = record {
  digest = o.digest;
  jws = o.jws;
  keys = e.keys;
  conf = e.store.cur;
  now = w.now / 1000000000;
  schemas = o.schemas;
}

abbrev graph_request : ServerRequest → GraphRequest
graph_request r = record {
  method = r.method;
  query = r.oauth.query;
  authorization = r.authorization;
  body = r.body;
  body_is_json = r.body_is_json;
  origin = r.oauth.origin;
}

abbrev pub scoped :
    Outside
    → Draw
    → ServerRequest
    → List Text
    → Emulator
    → Result OauthError Scope
    → ServerResponse × Emulator
scoped o w r rest e (err x) = (oauth_answer (failed x), e)
scoped o w r rest e (ok sc) = route o w r sc (join rest (b'/' ∷ [])) e

abbrev pub at_segment :
    Outside → Draw → ServerRequest → Text → List Text → Emulator → ServerResponse × Emulator
at_segment o w r seg rest e =
    if seg == txt "_entra"
    then test_api o w r (join rest (b'/' ∷ [])) e
    else if graph_on e.store.cur && seg == graph_base e.store.cur
    then (graph_answer (graph (surface_of o w e) (graph_request r) rest), e)
    else scoped o w r rest e (resolve_scope e.store.cur seg)

abbrev pub dispatched :
    Outside → Draw → ServerRequest → Emulator → List Text → ServerResponse × Emulator
dispatched o w r e [] = (no_page, e)
dispatched o w r e (base ∷ []) = (no_page, e)
dispatched o w r e (base ∷ seg ∷ []) = (no_page, e)
dispatched o w r e (base ∷ seg ∷ next ∷ rest) = at_segment o w r seg (next ∷ rest) e

-- Handler.Handle
unfoldable pub handle : Outside → Draw → ServerRequest → Emulator → ServerResponse × Emulator
handle o w r e =
    if r.method == txt "OPTIONS"
    then (no_content, e)
    else dispatched o w r e (split (trim_slash r.path) b'/')
