-- ===== src/Entra/Tests.antt =====
-- The Entra package at concrete configurations, and the theorems at inputs that meet their hypotheses.
use mock_oidc.Prelude.{
  refl, arith, List, String, [], ◌∷◌, pos, false, none, Result, ◌≡◌, err, ok, map, some, true,
}
use mock_oidc.Text.{mem, ◌==◌, trim_space, trim, trim_left, lower, is_space, txt, trim_slash}
use mock_oidc.Entra.Types.{
  Config, Tenant, Group, User, ExtAttrs, string_compare, department, ne, not_rule, eq,
}
use mock_oidc.Entra.Guid.{
  Digest, dash, format_uuid, group_object_id, hex, hex_digit, hex_run, is_base_path, is_guid,
  uuid_v5,
}
use mock_oidc.Entra.Guid.Derived.{IsSha1, uuid_v5-is_guid}
use mock_oidc.Entra.Errors.{ConfigError}
use mock_oidc.Entra.Graphconfig.{
  app_only_on, clock_skew, graph_base, graph_on, graph_path, normalize_graph, overage_of,
  overage_self_hosted, page_size, reserved_graph_base, skew_of, user_info_on,
}
use mock_oidc.Entra.Normalize.{
  tids_of, normalize, check_static, claim_sources, dynamic_names, evaluate_user, evaluate_users,
  finish, format_of, injectable_errors, manager_named, normalize_apps, normalize_claims,
  normalize_consents, normalize_group, normalize_groups, normalize_tenant, normalize_tenants,
  normalize_user, normalize_users, normalize_wids, reserved_claims, resolve_manager,
  resolve_managers, user_key,
}
use mock_oidc.Entra.Rule.{attribute, compare_string, matches}
use mock_oidc.Entra.Lookup.{
  dedup, group_meta, manager_of, member_groups, preferred_username, principal_name, tenant, user,
  user_by_oid, user_by_upn_or_oid, users_in,
}
use mock_oidc.Entra.Store.{
  Store, execute, new_store, run, mutate, tenant_deleted, norm_tid, tenant_created, delete_tenant,
}
use mock_oidc.Entra.Wellformed.{IsWellFormed}
use mock_oidc.Entra.Store.Refused.{tenant_created-refused}
use mock_oidc.Entra.Normalize.Keys.{norm}
use mock_oidc.Entra.Store.Cascade.{IsCascade, tenant_deleted-IsCascade}
use mock_oidc.Entra.Rule.Parser.{parse_rule}
use mock_oidc.Entra.Normalize.Valid.{normalize-IsWellFormed}
use mock_oidc.Entra.Store.Published.{run-IsWellFormed}
use mock_oidc.Entra.Rule.Negation.{matches-opposite}

-- A stand-in for SHA-1 with its size: twenty zero bytes.
abbrev pub digest : Digest
digest = record {
  sha1 = λ bs. 0 ∷ 0 ∷ 0 ∷ 0 ∷ 0 ∷ 0 ∷ 0 ∷ 0 ∷ 0 ∷ 0 ∷ 0 ∷ 0 ∷ 0 ∷ 0 ∷ 0 ∷ 0 ∷ 0 ∷ 0 ∷ 0 ∷ 0 ∷ [];
  utf8 = λ s. s;
}

pub digest-IsSha1 : IsSha1 digest
digest-IsSha1 = record { size = λ bs. refl; bytes = λ bs. omega arith }

abbrev no_attrs : ExtAttrs
no_attrs = record {
  extension_attribute1 = [];
  extension_attribute2 = [];
  extension_attribute3 = [];
}

abbrev pub plain_user : String → String → String → User
plain_user tid username dept = record {
  username = txt username;
  tid = txt tid;
  oid = [];
  name = [];
  email = [];
  email_verified = none;
  groups = [];
  amr = [];
  admin = false;
  error = [];
  mfa = [];
  given_name = [];
  surname = [];
  upn = [];
  account_enabled = none;
  job_title = [];
  office_location = [];
  business_phones = [];
  mobile_phone = [];
  preferred_language = [];
  roles = [];
  wids = [];
  manager = [];
  department = txt dept;
  company_name = [];
  employee_id = [];
  extension_attributes = no_attrs;
  dynamic_groups = [];
}

abbrev sales_group : Group
sales_group = record {
  name = txt "sales";
  description = [];
  mail_nickname = [];
  mail = [];
  oid = [];
  security_enabled = none;
  mail_enabled = none;
  membership_rule = txt "user.department -eq \"Sales\"";
  rule = none;
}

abbrev pub tenant_of : String → List Group → Tenant
tenant_of tid groups = record {
  tid = txt tid;
  name = [];
  domains = txt "contoso.test" ∷ [];
  group_claim_format = [];
  group_limit = pos 0;
  consent_required = false;
  groups = groups;
}

abbrev contoso : String
contoso = "11111111-1111-4111-8111-111111111111"

abbrev pub fabrikam : String
fabrikam = "22222222-2222-4222-8222-22222222222A"

abbrev pub demo : Config
demo = record {
  base_path = txt "/entra/";
  default_group_limit = pos 0;
  token_expiry = pos 0;
  ignore_login_hint = false;
  graph = none;
  tenants = tenant_of contoso (sales_group ∷ []) ∷ tenant_of fabrikam [] ∷ [];
  consents = record { client_id = txt "app"; tid = txt fabrikam } ∷ [];
  apps = [];
  users =
      plain_user contoso "ada" "SALES"
      ∷ record (plain_user fabrikam "bob" "HR") { manager = txt "eve" }
      ∷ plain_user fabrikam "eve" ""
      ∷ [];
}

abbrev config_of : Config → Result ConfigError Config → Config
config_of c (ok x) = x
config_of c (err e) = c

-- What the demo configuration is after `normalize`.
unfoldable pub seed : Config
unfolding trim_slash parse_rule app_only_on attribute check_static claim_sources clock_skew
    compare_string dash dedup dynamic_names evaluate_user evaluate_users finish format_of
    format_uuid graph_base graph_on graph_path group_meta group_object_id hex hex_digit hex_run
    injectable_errors is_base_path is_guid manager_named manager_of member_groups normalize
    normalize_apps normalize_claims normalize_consents normalize_graph normalize_group
    normalize_groups normalize_tenant normalize_tenants normalize_user normalize_users
    normalize_wids overage_of overage_self_hosted page_size preferred_username principal_name
    reserved_claims reserved_graph_base resolve_manager resolve_managers skew_of tenant user
    user_by_oid user_by_upn_or_oid user_info_on user_key users_in uuid_v5
seed = config_of demo (normalize digest demo)

pub seed_is_normal : normalize digest demo ≡ ok seed
unfolding seed
seed_is_normal = refl

ada_is_in_sales :
    map (λ (u : User). u.dynamic_groups) seed.users ≡ (txt "sales" ∷ []) ∷ [] ∷ [] ∷ []
unfolding seed matches
ada_is_in_sales = refl

unfoldable pub store_before : Store
store_before = new_store seed

abbrev hr : Tenant
hr = tenant_of "33333333-3333-4333-8333-333333333333" []

matches-opposite_example :
    matches seed hr
      (plain_user contoso "ada" "SALES")
      (string_compare department ne (some (txt "Sales")) [])
    ≡ matches seed hr
        (plain_user contoso "ada" "SALES")
        (not_rule (string_compare department eq (some (txt "Sales")) []))
matches-opposite_example =
    matches-opposite seed hr (plain_user contoso "ada" "SALES") department eq (some (txt "Sales"))
      []

uuid_v5-is_guid_example : is_guid (uuid_v5 digest [] (txt "x")) ≡ true
uuid_v5-is_guid_example = uuid_v5-is_guid digest digest-IsSha1 [] (txt "x")

normalize-IsWellFormed_example : IsWellFormed seed
normalize-IsWellFormed_example =
    normalize-IsWellFormed digest digest-IsSha1 demo seed seed_is_normal

run-IsWellFormed_example :
    IsWellFormed
      (run digest (tenant_created hr ∷ tenant_deleted (txt contoso) ∷ []) (new_store seed)).cur
run-IsWellFormed_example =
    run-IsWellFormed digest digest-IsSha1 demo seed
      (tenant_created hr ∷ tenant_deleted (txt contoso) ∷ []) seed_is_normal

pub store_before-IsWellFormed : IsWellFormed store_before.cur
unfolding store_before
store_before-IsWellFormed = normalize-IsWellFormed digest digest-IsSha1 demo seed seed_is_normal

abbrev copy : Tenant
copy = record hr { tid = b' ' ∷ txt contoso }

contoso_taken : mem (norm copy.tid) (tids_of store_before.cur.tenants) ≡ true
unfolding store_before seed mem trim_space trim trim_left lower is_space ◌==◌ txt
contoso_taken = refl

tenant_created-refused_example :
    (e : ConfigError) × (execute digest (tenant_created copy) store_before ≡ (some e, store_before))
tenant_created-refused_example =
    tenant_created-refused digest store_before copy digest-IsSha1 store_before-IsWellFormed
      contoso_taken

fabrikam_deleted : (execute digest (tenant_deleted (txt fabrikam)) store_before).0 ≡ none
unfolding execute mutate delete_tenant store_before seed norm_tid
fabrikam_deleted = refl

tenant_deleted-IsCascade_example :
    IsCascade digest
      (norm_tid (txt fabrikam))
      store_before.cur
      (execute digest (tenant_deleted (txt fabrikam)) store_before).1.cur
tenant_deleted-IsCascade_example =
    tenant_deleted-IsCascade digest store_before (txt fabrikam) store_before-IsWellFormed
      fabrikam_deleted
