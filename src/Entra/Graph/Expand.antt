-- ===== src/Entra/Graph/Expand.antt =====
-- internal/entra/graph.go: $expand=manager.
use mock_oidc.Entra.Lookup.{manager_of}
use mock_oidc.Prelude.{
  ℕ, if◌then◌else◌, take, Result, ◌&&◌, ◌∷◌, ◌>>=◌, nat_eq, none, err, some, Option, ◌>>◌, List, ok,
  length, filter, guard, map, [], ◌-◌,
}
use mock_oidc.Text.{Text, ◌==◌, trim_space, has_suffix, txt, equal_fold, join}
use mock_oidc.Json.{Fields, append_fields, field, object, string, done}
use mock_oidc.Entra.Types.{Config, User}
use mock_oidc.Oauth2.Request.{Form}
use mock_oidc.Entra.Verify.{GraphError, unsupported_query}
use mock_oidc.Entra.Odata.{apply_select, has_option, type_user}
use mock_oidc.Entra.Graph.Render.{graph_user, graph_users}

-- strings.Cut at one character: before it, and after it where it stands
unfoldable pub cut_at : ℕ → Text → Text × Text
cut_at sep [] = ([], [])
cut_at sep (c ∷ s) =
    let (before, after) = cut_at sep s in if nat_eq c sep then ([], s) else (c ∷ before, after)

-- url.Values: every value of the option
abbrev values_of : Text → Form → List Text
values_of name q = map (λ (p : Text × Text). p.1) (filter (λ (p : Text × Text). p.0 == name) q)

-- The $select inside the parentheses.
unfoldable pub inner_select : Text → Result GraphError Text
inner_select [] = ok []
inner_select (c ∷ inner) =
    let opts = trim_space (c ∷ inner) in
    let body = take (length opts - 1) opts in
    if has_suffix opts (b')' ∷ []) && equal_fold (trim_space (cut_at b'=' body).0) (txt "$select")
    then ok (cut_at b'=' body).1
    else err (unsupported_query (txt "$expand"))

abbrev with_field : Fields → Result GraphError Fields → Result GraphError Fields
with_field item (err e) = err e
with_field item (ok m) = ok (append_fields item (field (txt "manager") (object m) done))

abbrev with_manager : Config → Text → Fields → Option User → Result GraphError Fields
with_manager c select item none = ok item
with_manager c select item (some m) = with_field item (
    apply_select (field (txt "@odata.type") (string (b'#' ∷ type_user)) (graph_user c m)) select
      type_user)

unfoldable pub with_managers : Config → Text → List User → Result GraphError (List Fields)
with_managers c select [] = ok []
with_managers c select (u ∷ us) = do
  item ← with_manager c select (graph_user c u) (manager_of c u)
  items ← with_managers c select us
  ok (item ∷ items)

-- expandManager
unfoldable pub expand_manager : Config → Form → List User → Result GraphError (List Fields)
expand_manager c q us =
    if has_option (txt "$expand") q
    then (let expand = trim_space (join (values_of (txt "$expand") q) (b',' ∷ [])) in
        do
          guard (equal_fold (trim_space (cut_at b'(' expand).0) (txt "manager"))
              (unsupported_query (txt "$expand"))
          select ← inner_select (cut_at b'(' expand).1
          with_managers c select us)
    else ok (graph_users c us)
