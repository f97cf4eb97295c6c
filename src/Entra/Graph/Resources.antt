-- ===== src/Entra/Graph/Resources.antt =====
-- internal/entra/graph.go: the routes below /me, /users and /groups.
use mock_oidc.Entra.Lookup.{user_by_upn_or_oid, manager_of}
use mock_oidc.Entra.Graph.{
  no_resource, Surface, GraphRequest, GraphResponse, graph_failed, entity_response,
  collection_response, object_ids, graph_context,
}
use mock_oidc.Prelude.{
  ok, List, ◌&&◌, if◌then◌else◌, false, err, [], Bool, Option, ◌||◌, Result, is_empty, ◌∷◌, none,
  some, true, not,
}
use mock_oidc.Entra.Types.{User}
use mock_oidc.Entra.Verify.{GraphError, bad_request, resource_not_found, image_not_found}
use mock_oidc.Text.{Text, trim_space, ◌==◌, join, txt}
use mock_oidc.Json.{Fields}
use mock_oidc.Entra.Directory.{
  DirGroup, users_ordered_in, group_ids_of, groups_of, groups_in, direct_reports, members_of,
  group_by_id,
}
use mock_oidc.Entra.Odata.{type_user, type_group}
use mock_oidc.Entra.Graph.Expand.{expand_manager}
use mock_oidc.Entra.Graph.Render.{graph_user, graph_groups, graph_group, graph_users}

-- Handler.getMemberObjects
unfoldable pub get_member_objects : Surface → GraphRequest → User → GraphResponse
get_member_objects s r u =
    if not (is_empty (trim_space r.body)) && not r.body_is_json
    then graph_failed bad_request
    else object_ids (graph_context s.conf r.origin (txt "Collection(Edm.String)"))
        (group_ids_of s.digest s.conf u)

abbrev one_entity : Surface → GraphRequest → Result GraphError (List Fields) → GraphResponse
one_entity s r (err e) = graph_failed e
one_entity s r (ok []) = no_resource
one_entity s r (ok (e ∷ es)) = entity_response s r (txt "users/$entity") type_user true e

abbrev manager_response : Surface → GraphRequest → Option User → GraphResponse
manager_response s r none = graph_failed (resource_not_found (txt "manager"))
manager_response s r (some m) =
    entity_response s r (txt "users/$entity") type_user false (graph_user s.conf m)

unfoldable pub user_sub : Surface → GraphRequest → User → Text → GraphResponse
user_sub s r u sub =
    let is_get : Bool = r.method == txt "GET" in
    let is_post : Bool = r.method == txt "POST" in
    if is_get && is_empty sub
    then one_entity s r (expand_manager s.conf r.query (u ∷ []))
    else if is_get && (sub == txt "memberOf" || sub == txt "transitiveMemberOf")
    then collection_response s r (txt "directoryObjects") type_group false
        (graph_groups (groups_of s.digest s.conf u))
    else if is_get && sub == txt "manager"
    then manager_response s r (manager_of s.conf u)
    else if is_get && sub == txt "directReports"
    then collection_response s r (txt "directoryObjects") type_user false
        (graph_users s.conf (direct_reports s.conf u))
    else if is_post && (sub == txt "getMemberObjects" || sub == txt "getMemberGroups")
    then get_member_objects s r u
    else if is_get && (sub == txt "photo" || sub == txt "photo/$value")
    then graph_failed image_not_found
    else no_resource

-- Handler.graphUserRoute
unfoldable pub graph_user_route : Surface → GraphRequest → User → List Text → GraphResponse
graph_user_route s r u path = user_sub s r u (join path (b'/' ∷ []))

abbrev all_users : Surface → GraphRequest → Result GraphError (List Fields) → GraphResponse
all_users s r (err e) = graph_failed e
all_users s r (ok items) = collection_response s r (txt "users") type_user true items

abbrev found_user : Surface → GraphRequest → Text → List Text → Option User → GraphResponse
found_user s r key path none = graph_failed (resource_not_found key)
found_user s r key path (some u) = graph_user_route s r u path

-- Handler.graphUsersRoute
unfoldable pub graph_users_route : Surface → GraphRequest → Text → List Text → GraphResponse
graph_users_route s r tid [] =
    if r.method == txt "GET"
    then all_users s r (expand_manager s.conf r.query (users_ordered_in s.conf tid))
    else no_resource
graph_users_route s r tid (key ∷ path) = found_user s r key path (user_by_upn_or_oid s.conf tid key)

unfoldable pub group_sub : Surface → GraphRequest → Text → DirGroup → Text → GraphResponse
group_sub s r tid g sub =
    if is_empty sub
    then entity_response s r (txt "groups/$entity") type_group false (graph_group g)
    else if sub == txt "members" || sub == txt "transitiveMembers"
    then collection_response s r (txt "directoryObjects") type_user false
        (graph_users s.conf (members_of s.digest s.conf tid g.oid))
    else no_resource

abbrev found_group :
    Surface → GraphRequest → Text → Text → List Text → Option DirGroup → GraphResponse
found_group s r tid key path none = graph_failed (resource_not_found key)
found_group s r tid key path (some g) = group_sub s r tid g (join path (b'/' ∷ []))

abbrev groups_at : Surface → GraphRequest → Text → List Text → GraphResponse
groups_at s r tid [] =
    collection_response s r (txt "groups") type_group false
      (graph_groups (groups_in s.digest s.conf tid))
groups_at s r tid (key ∷ path) = found_group s r tid key path (group_by_id s.digest s.conf tid key)

-- Handler.graphGroupsRoute
unfoldable pub graph_groups_route : Surface → GraphRequest → Text → List Text → GraphResponse
graph_groups_route s r tid path =
    if r.method == txt "GET" then groups_at s r tid path else no_resource
