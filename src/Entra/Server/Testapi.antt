-- ===== src/Entra/Server/Testapi.antt =====
-- internal/entra/testapi.go: the helpers for automated tests.
use mock_oidc.Entra.Lookup.{tenant, users_in, dedup}
use mock_oidc.Entra.Admin.{Emulator, MintError, MintedToken, admin_mint_token, admin_rotate_keys}
use mock_oidc.Prelude.{
  Result, is_some, if◌then◌else◌, ok, [], Option, ◌&&◌, is_empty, err, map, none, not, Bool, some,
  ◌+◌,
}
use mock_oidc.Text.{Text, txt, ◌==◌}
use mock_oidc.Entra.Server.{
  Outside, Draw, ServerResponse, mint_failed, oauth_answer, user_list, ServerRequest, minted,
  group_list, consent_list, reset_done, rotated_to, no_page,
}
use mock_oidc.Oauth2.Request.{Request, form_param, query_param, no_such_tenant}
use mock_oidc.Entra.Types.{Config, Tenant, User}
use mock_oidc.Entra.Handler.{failed}
use mock_oidc.Entra.Directory.{groups_of, sort_users, all_names}
use mock_oidc.Entra.Guid.{group_object_id}
use mock_oidc.Sorting.{sort_by}
use mock_oidc.Entra.Consents.{list_consents}
use mock_oidc.Entra.Keys.{kid_of}

-- The form's value, or the query's.
abbrev test_param : Text → Request → Text
test_param name r = if is_empty (form_param name r) then query_param name r else form_param name r

abbrev mint_answer : Result MintError MintedToken → ServerResponse
mint_answer (err x) = mint_failed x
mint_answer (ok t) = minted t

-- Handler.mintToken
unfoldable pub mint_token : Outside → Draw → Request → Emulator → ServerResponse
mint_token o w r e = mint_answer (
    admin_mint_token o.digest o.library o.jws w.uti e r.origin w.now (record {
      tid = test_param (txt "tid") r;
      username = test_param (txt "username") r;
      client_id = test_param (txt "clientId") r;
      scope = test_param (txt "scope") r;
    }))

abbrev no_tenant : Text → ServerResponse
no_tenant tid = oauth_answer (failed (no_such_tenant tid))

unfoldable pub list_users : Outside → Config → Text → ServerResponse
list_users o c tid =
    if not (is_empty tid) && not (is_some (tenant c tid))
    then no_tenant tid
    else user_list (map (λ (u : User). (u, groups_of o.digest c u)) (sort_users (users_in c tid)))

abbrev groups_in_tenant : Outside → Config → Text → Option Tenant → ServerResponse
groups_in_tenant o c tid none = no_tenant tid
groups_in_tenant o c tid (some t) = group_list (
    map (λ (n : Text). (n, group_object_id o.digest t.tid n))
      (sort_by (λ (n : Text). n) (dedup [] (all_names (users_in c t.tid)))))

unfoldable pub list_groups : Outside → Config → Text → ServerResponse
list_groups o c tid = groups_in_tenant o c tid (tenant c tid)

-- Handler.testAPI
unfoldable pub test_api :
    Outside → Draw → ServerRequest → Text → Emulator → ServerResponse × Emulator
test_api o w r action e =
    let is_get : Bool = r.method == txt "GET" in
    let is_post : Bool = r.method == txt "POST" in
    if is_get && action == txt "consents"
    then (consent_list (list_consents e.consents), e)
    else if is_post && action == txt "reset"
    then (reset_done, record e { consents = mock_oidc.Entra.Consents.reset e.consents })
    else if is_post && action == txt "rotate-keys"
    then (rotated_to (kid_of (e.keys.seq + 1)), admin_rotate_keys w.secret e)
    else if is_get && action == txt "users"
    then (list_users o e.store.cur (query_param (txt "tid") r.oauth), e)
    else if is_post && action == txt "mint-token"
    then (mint_token o w r.oauth e, e)
    else if is_get && action == txt "groups"
    then (list_groups o e.store.cur (query_param (txt "tid") r.oauth), e)
    else (no_page, e)
