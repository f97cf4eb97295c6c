-- ===== src/Entra/Server/Kept.antt =====
-- The configuration and the signing keys across a request.
use mock_oidc.Entra.Graphconfig.{graph_base}
use mock_oidc.Prelude.{
  if◌then◌else◌, ◌≡◌, List, err, refl, Bool, [], false, Result, ok, true, ◌∷◌, ◌&&◌,
}
use mock_oidc.Entra.Admin.{Emulator, admin_rotate_keys, handler_of}
use mock_oidc.Entra.Handler.{Handler, Scope, resolve_scope, Response}
use mock_oidc.Entra.Server.{ServerResponse, route, Outside, Draw, answered, ServerRequest}
use mock_oidc.Entra.Server.Testapi.{test_api}
use mock_oidc.Entra.Server.Handle.{handle, dispatched, scoped}
use mock_oidc.Entra.Keys.Rotation.{IsKeySet, rotate-IsKeySet}
use mock_oidc.Text.{Text, split, trim_slash, join, ◌==◌, txt}
use mock_oidc.Oauth2.Request.{OauthError}
use mock_oidc.Entra.Authorize.{authorize_get, authorize_post}
use mock_oidc.Entra.Graphconfig.{graph_on}
use mock_oidc.Entra.Graphconfig.{graph_base}
use mock_oidc.Entra.Token.{token}
use mock_oidc.Entra.Adminconsent.{admin_consent_post}

-- The configuration is as before, and a set of signing keys stays one.
pub record IsKept (e : Emulator) (p : ServerResponse × Emulator) : Type 0 where
  pub store : p.1.store ≡ e.store
  pub keys : IsKeySet e.keys → IsKeySet p.1.keys

if-IsKept :
    (e : Emulator) (b : Bool) (p q : ServerResponse × Emulator)
    → IsKept e p
    → IsKept e q
    → IsKept e (if b then p else q)
if-IsKept e true p q h k = h
if-IsKept e false p q h k = k

same-IsKept : (e : Emulator) (res : ServerResponse) → IsKept e (res, e)
same-IsKept e res = record { store = refl; keys = λ k. k }

answered-IsKept : (e : Emulator) (r : Response × Handler) → IsKept e (answered e r)
answered-IsKept e (res, h) = record { store = refl; keys = λ k. k }

route-IsKept :
    (o : Outside) (w : Draw) (r : ServerRequest) (sc : Scope) (rest : Text) (e : Emulator)
    → IsKept e (route o w r sc rest e)
unfolding route
route-IsKept o w r sc rest e =
    if-IsKept e (r.method == txt "GET" && rest == txt "v2.0/.well-known/openid-configuration") _ _
      (same-IsKept e _)
      (if-IsKept e (r.method == txt "GET" && rest == txt "discovery/v2.0/keys") _ _
        (same-IsKept e _)
        (if-IsKept e (r.method == txt "GET" && rest == txt "oauth2/v2.0/authorize") _ _
          (answered-IsKept e (authorize_get o.library w.code r.oauth sc w.now (handler_of e)))
          (if-IsKept e (r.method == txt "POST" && rest == txt "oauth2/v2.0/authorize") _ _
            (answered-IsKept e (authorize_post o.library w.code r.oauth sc w.now (handler_of e)))
            (if-IsKept e (r.method == txt "POST" && rest == txt "oauth2/v2.0/token") _ _
              (answered-IsKept e (token o.digest o.library w.uti r.oauth sc w.now (handler_of e)))
              (if-IsKept e (r.method == txt "GET" && rest == txt "v2.0/adminconsent") _ _
                (same-IsKept e _)
                (if-IsKept e (r.method == txt "POST" && rest == txt "v2.0/adminconsent") _ _
                  (answered-IsKept e (admin_consent_post o.library r.oauth sc (handler_of e)))
                  (if-IsKept e (rest == txt "oauth2/v2.0/logout") _ _ (same-IsKept e _)
                    (same-IsKept e _))))))))

test_api-IsKept :
    (o : Outside) (w : Draw) (r : ServerRequest) (action : Text) (e : Emulator)
    → IsKept e (test_api o w r action e)
unfolding test_api admin_rotate_keys
test_api-IsKept o w r action e =
    if-IsKept e (r.method == txt "GET" && action == txt "consents") _ _ (same-IsKept e _) (
      if-IsKept e (r.method == txt "POST" && action == txt "reset") _ _
        (record { store = refl; keys = λ k. k })
        (if-IsKept e (r.method == txt "POST" && action == txt "rotate-keys") _ _
          (record { store = refl; keys = rotate-IsKeySet w.secret e.keys })
          (if-IsKept e (r.method == txt "GET" && action == txt "users") _ _ (same-IsKept e _) (
            if-IsKept e (r.method == txt "POST" && action == txt "mint-token") _ _ (same-IsKept e _)
              (if-IsKept e (r.method == txt "GET" && action == txt "groups") _ _ (same-IsKept e _)
                (same-IsKept e _))))))

scoped-IsKept :
    (o : Outside) (w : Draw) (r : ServerRequest) (rest : List Text) (e : Emulator)
    (m : Result OauthError Scope)
    → IsKept e (scoped o w r rest e m)
scoped-IsKept o w r rest e (err x) = record { store = refl; keys = λ k. k }
scoped-IsKept o w r rest e (ok sc) = route-IsKept o w r sc (join rest (b'/' ∷ [])) e

dispatched-IsKept :
    (o : Outside) (w : Draw) (r : ServerRequest) (e : Emulator) (segs : List Text)
    → IsKept e (dispatched o w r e segs)
dispatched-IsKept o w r e [] = record { store = refl; keys = λ k. k }
dispatched-IsKept o w r e (base ∷ []) = record { store = refl; keys = λ k. k }
dispatched-IsKept o w r e (base ∷ seg ∷ []) = record { store = refl; keys = λ k. k }
dispatched-IsKept o w r e (base ∷ seg ∷ next ∷ rest) =
    if-IsKept e (seg == txt "_entra") _ _ (test_api-IsKept o w r (join (next ∷ rest) (b'/' ∷ [])) e)
      (if-IsKept e (graph_on e.store.cur && seg == graph_base e.store.cur) _ _ (same-IsKept e _)
        (scoped-IsKept o w r (next ∷ rest) e (resolve_scope e.store.cur seg)))

pub handle-IsKept :
    (o : Outside) (w : Draw) (r : ServerRequest) (e : Emulator) → IsKept e (handle o w r e)
unfolding handle
handle-IsKept o w r e =
    if-IsKept e (r.method == txt "OPTIONS") _ _ (same-IsKept e _)
      (dispatched-IsKept o w r e (split (trim_slash r.path) b'/'))
