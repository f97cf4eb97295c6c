-- ===== src/Entra/Lookup.antt =====
-- The look-ups of internal/entra/config.go and directory.go that the rest of the package builds on.
-- A pointer into the snapshot's slice is the value that stands there.
use mock_oidc.Prelude.{
  Bool, true, not, ◌&&◌, ◌||◌, Option, none, some, List, [], ◌∷◌, ◌++◌, if◌then◌else◌, is_empty,
  filter, find?,
}
use mock_oidc.Text.{Text, ◌==◌, lower, trim_space, mem}
use mock_oidc.Entra.Types.{Config, Tenant, User, Group}

-- Config.Tenant
unfoldable pub tenant : Config → Text → Option Tenant
unfolding lower ◌==◌
tenant c tid = let tid = lower tid in find? (λ (t : Tenant). t.tid == tid) c.tenants

-- Config.User
unfoldable pub user : Config → Text → Text → Option User
unfolding lower ◌==◌
user c tid username =
    let tid = lower tid in find? (λ (u : User). u.tid == tid && u.username == username) c.users

-- Config.UsersIn
unfoldable pub users_in : Config → Text → List User
unfolding lower ◌==◌
users_in c tid = let tid = lower tid in filter (λ (u : User). is_empty tid || u.tid == tid) c.users

-- User.Enabled
abbrev pub enabled : User → Bool
enabled u = elim u.account_enabled [ none ↦ true | some b ↦ b ]

abbrev first_domain : User → List Text → Text
first_domain u [] = u.username
first_domain u (d ∷ ds) = u.username ++ (b'@' ∷ d)

-- preferredUsername
unfoldable pub preferred_username : Tenant → User → Text
preferred_username t u = if is_empty u.email then first_domain u t.domains else u.email

-- User.PrincipalName
unfoldable pub principal_name : Tenant → User → Text
unfolding preferred_username
principal_name t u = if is_empty u.upn then preferred_username t u else u.upn

-- Group.Dynamic
abbrev pub is_dynamic : Group → Bool
is_dynamic g = not (is_empty g.membership_rule)

-- Tenant.groupMeta
unfoldable pub group_meta : Tenant → Text → Option Group
unfolding ◌==◌
group_meta t name = find? (λ (g : Group). g.name == name) t.groups

-- The loop of `MemberGroups`: each name once, in the order of first occurrence.
unfoldable pub dedup : List Text → List Text → List Text
unfolding mem
dedup seen [] = []
dedup seen (name ∷ names) =
    let skip = dedup seen names in
    let keep = dedup (name ∷ seen) names in if mem name seen then skip else name ∷ keep

-- User.MemberGroups
unfoldable pub member_groups : User → List Text
unfolding dedup
member_groups u =
    if is_empty u.dynamic_groups then u.groups else dedup [] (u.groups ++ u.dynamic_groups)

-- Config.UserByOID
unfoldable pub user_by_oid : Config → Text → Text → Option User
unfolding users_in lower trim_space ◌==◌
user_by_oid c tid oid =
    let oid = lower (trim_space oid) in
    if is_empty oid then none else find? (λ (u : User). u.oid == oid) (users_in c (lower tid))

abbrev by_principal : Config → Text → Tenant → Option User
by_principal c key t =
    find? (λ (u : User). lower (principal_name t u) == lower key || u.username == key)
      (users_in c t.tid)

abbrev or_else {ℓ} : {A : Type ℓ} → Option A → Option A → Option A
or_else none o = o
or_else (some a) o = some a

abbrev bind {ℓ κ} : {A : Type ℓ} {B : Type κ} → Option A → (A → Option B) → Option B
bind none f = none
bind (some a) f = f a

-- Config.UserByUPNOrOID
unfoldable pub user_by_upn_or_oid : Config → Text → Text → Option User
unfolding user_by_oid principal_name tenant
user_by_upn_or_oid c tid key = or_else (user_by_oid c tid key) (
    let key = trim_space key in
    if is_empty key then none else bind (tenant c tid) (by_principal c key))

-- Config.ManagerOf
unfoldable pub manager_of : Config → User → Option User
unfolding user
manager_of c u = if is_empty u.manager then none else user c u.tid u.manager
