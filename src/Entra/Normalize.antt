-- ===== src/Entra/Normalize.antt =====
-- Config.normalize of internal/entra/config.go: the defaults, the validation, and the dynamic group
-- memberships. A loop that reports the first error is a recursion in `Result`; the maps that it fills
-- (`tenants`, `users`, `seen`) are lists of the keys that were seen.
pub mod Tenants
pub mod Users
pub mod Managers
pub mod Stable
pub mod Graph
pub mod Fixed
pub mod Valid
pub mod Keys
use mock_oidc.Prelude.{
  ◌||◌, is_empty, Bool, ◌>>◌, Result, err, none, [], List, ok, Option, pos, map, if◌then◌else◌,
  ◌++◌, some, ℤ, not, refuse, guard, ◌∷◌, ◌>>=◌,
}
use mock_oidc.Text.{Text, txt, ◌==◌, lower, trim_space, trim_slash, mem}
use mock_oidc.Entra.Types.{Config, App, ClaimMapping, Tenant, Group, Consent, User, Rule}
use mock_oidc.Entra.Guid.{is_guid, is_base_path, Digest, uuid_v5, oid_namespace}
use mock_oidc.Entra.Lookup.{tenant, user_by_upn_or_oid, group_meta, is_dynamic}
use mock_oidc.Entra.Rule.{matches}
use mock_oidc.Entra.Rule.Parser.{parse_rule}
use mock_oidc.Entra.Graphconfig.{normalize_graph, or_default, or_text}
use mock_oidc.Entra.Errors.{
  ConfigError, bad_base_path, no_tenants, nil_dereference, tid_not_a_guid, duplicate_tid,
  bad_group_claim_format, group_without_name, duplicate_group, group_oid_not_a_guid,
  bad_membership_rule, app_without_client_id, consent_incomplete, user_without_name,
  app_unknown_tid, user_unknown_tid, duplicate_username, claim_without_name, reserved_claim,
  duplicate_claim, unsupported_source, bad_user_error, bad_mfa, oid_not_a_guid, wid_not_a_guid,
  own_manager, unknown_manager, static_member_of_dynamic,
}

abbrev pub rule_of : Text → Group → Result ConfigError (Option Rule)
rule_of tid g =
    if is_dynamic g
    then elim (parse_rule g.membership_rule) [
      | err e ↦ err (bad_membership_rule tid g.name e)
      | ok r ↦ ok (some r)
    ]
    else ok none

abbrev pub trimmed_group : Group → Group
trimmed_group g = record g {
  name = trim_space g.name;
  oid = lower (trim_space g.oid);
  membership_rule = trim_space g.membership_rule;
}

-- The body of the loop of normalizeGroups.
unfoldable pub normalize_group : Text → List Text → Group → Result ConfigError Group
normalize_group tid seen g = do
  let g' = trimmed_group g
  refuse (is_empty g'.name) (group_without_name tid)
  refuse (mem g'.name seen) (duplicate_group tid g'.name)
  guard (is_empty g'.oid || is_guid g'.oid) (group_oid_not_a_guid tid g'.name)
  rule ← rule_of tid g'
  ok (record g' { rule = rule })

-- normalizeGroups
unfoldable pub normalize_groups : Text → List Text → List Group → Result ConfigError (List Group)
normalize_groups tid seen [] = ok []
normalize_groups tid seen (g ∷ gs) = do
  g' ← normalize_group tid seen g
  gs' ← normalize_groups tid (g'.name ∷ seen) gs
  ok (g' ∷ gs')

-- The switch over groupClaimFormat.
unfoldable pub format_of : Text → Text → Result ConfigError Text
format_of tid f =
    if is_empty f
    then ok (txt "name")
    else if f == txt "name" || f == txt "object_id"
    then ok f
    else err (bad_group_claim_format tid)

-- The body of the loop over the tenants; `limit` is the default group limit.
unfoldable pub normalize_tenant : ℤ → List Text → Tenant → Result ConfigError Tenant
normalize_tenant limit seen t = do
  let tid = lower (trim_space t.tid)
  guard (is_guid tid) (tid_not_a_guid tid)
  refuse (mem tid seen) (duplicate_tid tid)
  format ← format_of tid t.group_claim_format
  groups ← normalize_groups tid [] t.groups
  ok (record t {
    tid = tid;
    name = or_text t.name tid;
    group_claim_format = format;
    group_limit = or_default t.group_limit limit;
    groups = groups;
  })

unfoldable pub normalize_tenants : ℤ → List Text → List Tenant → Result ConfigError (List Tenant)
normalize_tenants limit seen [] = ok []
normalize_tenants limit seen (t ∷ ts) = do
  t' ← normalize_tenant limit seen t
  ts' ← normalize_tenants limit (t'.tid ∷ seen) ts
  ok (t' ∷ ts')

-- The keys of reservedClaims.
unfoldable pub reserved_claims : List Text
reserved_claims =
    txt "iss"
    ∷ txt "aud"
    ∷ txt "iat"
    ∷ txt "nbf"
    ∷ txt "exp"
    ∷ txt "tid"
    ∷ txt "oid"
    ∷ txt "sub"
    ∷ txt "ver"
    ∷ txt "name"
    ∷ txt "preferred_username"
    ∷ txt "uti"
    ∷ txt "nonce"
    ∷ txt "email"
    ∷ txt "xms_edov"
    ∷ txt "amr"
    ∷ txt "given_name"
    ∷ txt "family_name"
    ∷ txt "roles"
    ∷ txt "wids"
    ∷ txt "groups"
    ∷ txt "_claim_names"
    ∷ txt "_claim_sources"
    ∷ txt "scp"
    ∷ txt "azp"
    ∷ txt "appid"
    ∷ txt "idp"
    ∷ []

-- The keys of claimSources.
unfoldable pub claim_sources : List Text
claim_sources =
    txt "user.department"
    ∷ txt "user.companyname"
    ∷ txt "user.employeeid"
    ∷ txt "user.jobtitle"
    ∷ txt "user.officelocation"
    ∷ txt "user.extensionattribute1"
    ∷ txt "user.extensionattribute2"
    ∷ txt "user.extensionattribute3"
    ∷ []

-- normalizeClaims
unfoldable pub normalize_claims :
    Text → List Text → List ClaimMapping → Result ConfigError (List ClaimMapping)
normalize_claims app seen [] = ok []
normalize_claims app seen (m ∷ ms) = do
  let name = trim_space m.name
  let source = trim_space m.source
  refuse (is_empty name) (claim_without_name app)
  refuse (mem name reserved_claims) (reserved_claim app name)
  refuse (mem name seen) (duplicate_claim app name)
  guard (mem (lower source) claim_sources) (unsupported_source app source)
  ms' ← normalize_claims app (name ∷ seen) ms
  ok (record { name = name; source = source } ∷ ms')

-- The loop over the apps; `tids` are the keys of `tenants`.
unfoldable pub normalize_apps : List Text → List App → Result ConfigError (List App)
normalize_apps tids [] = ok []
normalize_apps tids (a ∷ as') = do
  let client_id = trim_space a.client_id
  let tid = lower (trim_space a.tid)
  refuse (is_empty client_id) app_without_client_id
  guard (is_empty tid || mem tid tids) (app_unknown_tid client_id tid)
  claims ← normalize_claims client_id [] a.claims
  rest ← normalize_apps tids as'
  ok (record a { client_id = client_id; tid = tid; claims = claims } ∷ rest)

-- The loop over the consents.
unfoldable pub normalize_consents : List Text → List Consent → Result ConfigError (List Consent)
normalize_consents tids [] = ok []
normalize_consents tids (cs ∷ css) = do
  let tid = lower (trim_space cs.tid)
  refuse (is_empty cs.client_id || not (mem tid tids)) consent_incomplete
  rest ← normalize_consents tids css
  ok (record { client_id = cs.client_id; tid = tid } ∷ rest)

-- The loop of normalizeProfile over the wids.
unfoldable pub normalize_wids : Text → List Text → Result ConfigError (List Text)
normalize_wids username [] = ok []
normalize_wids username (w ∷ ws) = do
  let w' = lower (trim_space w)
  guard (is_guid w') (wid_not_a_guid username)
  ws' ← normalize_wids username ws
  ok (w' ∷ ws')

-- `u.TID + "/" + u.Username`
unfoldable pub user_key : Text → Text → Text
user_key tid username = tid ++ (b'/' ∷ username)

unfoldable pub injectable_errors : List Text
injectable_errors = [] ∷ txt "interaction_required" ∷ txt "access_denied" ∷ txt "invalid_grant" ∷ []

-- The body of the loop over the users, normalizeProfile included.
unfoldable pub normalize_user : Digest → List Text → List Text → User → Result ConfigError User
normalize_user d tids seen u = do
  let tid = lower (trim_space u.tid)
  refuse (is_empty u.username) user_without_name
  guard (mem tid tids) (user_unknown_tid u.username tid)
  refuse (mem (user_key tid u.username) seen) (duplicate_username u.username tid)
  guard (mem u.error injectable_errors) (bad_user_error u.username)
  guard (is_empty u.mfa || u.mfa == txt "passkey") (bad_mfa u.username)
  let oid = lower u.oid
  guard (is_empty oid || is_guid oid) (oid_not_a_guid u.username)
  wids ← normalize_wids u.username u.wids
  ok (record u {
    tid = tid;
    oid = or_text oid (uuid_v5 d oid_namespace (tid ++ (b':' ∷ u.username)));
    name = or_text u.name u.username;
    upn = lower (trim_space u.upn);
    manager = trim_space u.manager;
    wids = wids;
  })

unfoldable pub normalize_users :
    Digest → List Text → List Text → List User → Result ConfigError (List User)
normalize_users d tids seen [] = ok []
normalize_users d tids seen (u ∷ us) = do
  u' ← normalize_user d tids seen u
  us' ← normalize_users d tids (user_key u'.tid u'.username ∷ seen) us
  ok (u' ∷ us')

abbrev pub manager_name : Text → Option User → Text
manager_name m none = m
manager_name m (some u) = u.username

-- The username that the entry of `u.Manager` stands for.
unfoldable pub manager_named : Config → List Text → User → Text
manager_named c keys u =
    if mem (user_key u.tid u.manager) keys
    then u.manager
    else manager_name u.manager (user_by_upn_or_oid c u.tid u.manager)

-- The body of the second pass. The look-up reads no manager, so it may read the users of before the
-- pass; `keys` are the keys of `users`.
unfoldable pub resolve_manager : Config → List Text → User → Result ConfigError User
resolve_manager c keys u = if is_empty u.manager then ok u else do
  let m = manager_named c keys u
  refuse (m == u.username) (own_manager u.username)
  guard (mem (user_key u.tid m) keys) (unknown_manager u.username m)
  ok (record u { manager = m })

unfoldable pub resolve_managers : Config → List Text → List User → Result ConfigError (List User)
resolve_managers c keys [] = ok []
resolve_managers c keys (u ∷ us) = do
  u' ← resolve_manager c keys u
  us' ← resolve_managers c keys us
  ok (u' ∷ us')

-- The first loop of evaluateDynamicGroups.
unfoldable pub check_static : Tenant → Text → List Text → Result ConfigError (Unit {0})
check_static t username [] = ok tt
check_static t username (name ∷ names) = elim (group_meta t name) [
  | none ↦ check_static t username names
  | some g ↦
      refuse (is_dynamic g) (static_member_of_dynamic username name)
      >> check_static t username names
]

abbrev pub add_if : Bool → Text → Result ConfigError (List Text) → Result ConfigError (List Text)
add_if b name (ok names) = ok (if b then name ∷ names else names)
add_if b name (err e) = err e

abbrev pub with_rule :
    Option Rule → (Rule → Result ConfigError (List Text)) → Result ConfigError (List Text)
with_rule none f = err nil_dereference
with_rule (some r) f = f r

-- The second loop of evaluateDynamicGroups: the names of the dynamic groups whose rule matches.
unfoldable pub dynamic_names : Config → Tenant → User → List Group → Result ConfigError (List Text)
dynamic_names c t u [] = ok []
dynamic_names c t u (g ∷ gs) =
    let rest = dynamic_names c t u gs in
    if is_dynamic g then with_rule g.rule (λ r. add_if (matches c t u r) g.name rest) else rest

abbrev pub with_tenant :
    Option Tenant → (Tenant → Result ConfigError User) → Result ConfigError User
with_tenant none f = err nil_dereference
with_tenant (some t) f = f t

-- The body of the loop of evaluateDynamicGroups.
unfoldable pub evaluate_user : Config → User → Result ConfigError User
evaluate_user c u = with_tenant (tenant c u.tid) λ t. do
  check_static t u.username u.groups
  names ← dynamic_names c t u t.groups
  ok (record u { dynamic_groups = names })

unfoldable pub evaluate_users : Config → List User → Result ConfigError (List User)
evaluate_users c [] = ok []
evaluate_users c (u ∷ us) = do u' ← evaluate_user c u; us' ← evaluate_users c us; ok (u' ∷ us')

abbrev pub tids_of : List Tenant → List Text
tids_of ts = map (λ (t : Tenant). t.tid) ts

abbrev pub keys_of : List User → List Text
keys_of us = map (λ (u : User). user_key u.tid u.username) us

-- The two passes over the whole user set.
unfoldable pub finish : Config → Result ConfigError Config
finish c = do
  managed ← resolve_managers c (keys_of c.users) c.users
  let c' = record c { users = managed }
  evaluated ← evaluate_users c' managed
  ok (record c' { users = evaluated })

-- Config.normalize
unfoldable pub normalize : Digest → Config → Result ConfigError Config
normalize d c = do
  let base = or_text (trim_slash c.base_path) (txt "entra")
  guard (is_base_path base) (bad_base_path base)
  let limit = or_default c.default_group_limit (pos 200)
  graph ← normalize_graph base c.graph
  refuse (is_empty c.tenants) no_tenants
  tenants ← normalize_tenants limit [] c.tenants
  apps ← normalize_apps (tids_of tenants) c.apps
  consents ← normalize_consents (tids_of tenants) c.consents
  users ← normalize_users d (tids_of tenants) [] c.users
  finish (record {
    base_path = base;
    default_group_limit = limit;
    token_expiry = or_default c.token_expiry (pos 3600);
    ignore_login_hint = c.ignore_login_hint;
    graph = some graph;
    tenants = tenants;
    consents = consents;
    apps = apps;
    users = users;
  })
