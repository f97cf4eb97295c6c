-- ===== src/Entra/Wellformed.antt =====
-- What a configuration has to satisfy to be published, stated without the code of `normalize`.
use mock_oidc.Prelude.{
  ◌≤◌, List, ◌∷◌, All, ◌||◌, Bool, pos_part, some, is_empty, ◌⊎◌, ◌≤ℤ◌, ◌&&◌, true, ◌≡◌, is_some,
  [], filter, false, none, map, arith,
}
use mock_oidc.Text.{Text, txt, ◌==◌, mem}
use mock_oidc.Entra.Types.{Config, App, Tenant, Group, Consent, User, GraphConfig}
use mock_oidc.Entra.Guid.{is_guid, is_base_path}
use mock_oidc.Entra.Lookup.{tenant, group_meta, is_dynamic}
use mock_oidc.Entra.Rule.{matches}
use mock_oidc.Entra.Normalize.{user_key, injectable_errors, tids_of, keys_of}
use mock_oidc.Text.Laws.{mem-cons}

-- No two entries are the same text.
abbrev pub Distinct : List Text → Type 0
Distinct [] = Unit
Distinct (x ∷ xs) = All (λ y. (x == y) ≡ false) xs × Distinct xs

abbrev pub Unseen : List Text → List Text → Type 0
Unseen seen xs = All (λ x. mem x seen ≡ false) xs

pub Unseen-cons :
    (x : Text) (seen xs : List Text)
    → Unseen (x ∷ seen) xs
    → Unseen seen xs × All (λ y. (x == y) ≡ false) xs
Unseen-cons x seen [] h = (tt, tt)
Unseen-cons x seen (y ∷ ys) (p, h) =
    let (a, b) = Unseen-cons x seen ys h in
    let q = mem-cons y x seen in ((ground arith, a), (ground arith, b))

abbrev pub names_of : List Group → List Text
names_of gs = map (λ (g : Group). g.name) gs

-- A group has a name, its object id if it has one is a GUID, and it has a compiled rule exactly if it
-- is dynamic.
pub record IsGroup (g : Group) : Type 0 where
  pub named : is_empty g.name ≡ false
  pub oid : (is_empty g.oid || is_guid g.oid) ≡ true
  pub compiled : is_some g.rule ≡ is_dynamic g

pub record IsTenant (t : Tenant) : Type 0 where
  pub guid : is_guid t.tid ≡ true
  pub named : is_empty t.name ≡ false
  pub format : (t.group_claim_format ≡ txt "name") ⊎ (t.group_claim_format ≡ txt "object_id")
  pub limit : 1 ≤ pos_part t.group_limit
  pub groups : All IsGroup t.groups
  pub distinct : Distinct (names_of t.groups)

pub record IsApp (tids : List Text) (a : App) : Type 0 where
  pub client : is_empty a.client_id ≡ false
  pub tenant : (is_empty a.tid || mem a.tid tids) ≡ true

pub record IsConsent (tids : List Text) (cs : Consent) : Type 0 where
  pub client : is_empty cs.client_id ≡ false
  pub tenant : mem cs.tid tids ≡ true

pub record IsUser (tids : List Text) (u : User) : Type 0 where
  pub named : is_empty u.username ≡ false
  pub tenant : mem u.tid tids ≡ true
  pub error : mem u.error injectable_errors ≡ true
  pub mfa : (is_empty u.mfa || u.mfa == txt "passkey") ≡ true
  pub oid : is_guid u.oid ≡ true
  pub display : is_empty u.name ≡ false
  pub wids : All (λ w. is_guid w ≡ true) u.wids

-- A manager is another user of the tenant.
abbrev pub IsManaged : List Text → User → Type 0
IsManaged keys u =
    (is_empty u.manager ≡ true)
    ⊎ ((mem (user_key u.tid u.manager) keys ≡ true) × ((u.manager == u.username) ≡ false))

abbrev pub IsDynamicIn : Tenant → Text → Type 0
IsDynamicIn t name = (g : Group) × (group_meta t name ≡ some g) × (is_dynamic g ≡ true)

abbrev pub rule_matches : Config → Tenant → User → Group → Bool
rule_matches c t u g = is_dynamic g && elim g.rule [ none ↦ false | some r ↦ matches c t u r ]

-- The user's tenant exists, no static group is dynamic, and the dynamic groups are those of the
-- tenant's groups whose rule matches the user under `c`.
pub record IsEvaluated (c : Config) (u : User) : Type 0 where
  pub tenant_of : Tenant
  pub found : tenant c u.tid ≡ some tenant_of
  pub static : All (λ name. ¬ IsDynamicIn tenant_of name) u.groups
  pub dynamic : u.dynamic_groups ≡ names_of (filter (rule_matches c tenant_of u) tenant_of.groups)

pub record IsGraph (base : Text) (g : GraphConfig) : Type 0 where
  pub path : is_base_path g.base_path ≡ true
  pub apart : (g.base_path == base) ≡ false
  pub not_guid : is_guid g.base_path ≡ false
  pub smallest : 1 ≤ pos_part g.default_page_size
  pub ordered : g.default_page_size ≤ℤ g.max_page_size

-- A configuration that may be published.
pub record IsWellFormed (c : Config) : Type 0 where
  pub base : is_base_path c.base_path ≡ true
  pub limit : 1 ≤ pos_part c.default_group_limit
  pub expiry : 1 ≤ pos_part c.token_expiry
  pub graph_block : GraphConfig
  pub graph : c.graph ≡ some graph_block
  pub graph_valid : IsGraph c.base_path graph_block
  pub some_tenant : is_empty c.tenants ≡ false
  pub tenants : All IsTenant c.tenants
  pub tids : Distinct (tids_of c.tenants)
  pub apps : All (IsApp (tids_of c.tenants)) c.apps
  pub consents : All (IsConsent (tids_of c.tenants)) c.consents
  pub users : All (IsUser (tids_of c.tenants)) c.users
  pub keys : Distinct (keys_of c.users)
  pub managers : All (IsManaged (keys_of c.users)) c.users
  pub evaluated : All (IsEvaluated c) c.users
