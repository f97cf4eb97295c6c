-- ===== src/Entra/Store.antt =====
-- internal/entra/store.go: the copy-on-write store. An edit works on a copy of the snapshot, the copy
-- is normalized again, and only a copy that passes is published. The mutex makes each operation one
-- step, so a run of the store is a list of commands.
pub mod Published
pub mod Cascade
pub mod Refused
use mock_oidc.Prelude.{
  ℕ, [], ◌>>=◌, any, Bool, none, is_empty, ◌++◌, Option, ok, if◌then◌else◌, Result, ◌>>◌, ◌&&◌, map,
  some, filter, List, not, ◌∷◌, err, guard,
}
use mock_oidc.Text.{Text, ◌==◌, lower, trim_space}
use mock_oidc.Entra.Types.{Config, Tenant, User, Consent, GraphConfig}
use mock_oidc.Entra.Guid.{Digest}
use mock_oidc.Entra.Errors.{ConfigError, tid_cannot_be_changed, not_found}
use mock_oidc.Entra.Graphconfig.{present}
use mock_oidc.Entra.Normalize.{normalize}

pub record Store : Type 0 where
  pub seed : Config
  pub cur : Config

-- NewStore
abbrev pub new_store : Config → Store
new_store seed = record { seed = seed; cur = seed }

-- What an operation answers, and the store after it.
abbrev pub Outcome : Type 0
Outcome = Option ConfigError × Store

abbrev pub publish : Store → Result ConfigError Config → Outcome
publish s (ok c) = (none, record s { cur = c })
publish s (err e) = (some e, s)

-- Store.mutate
unfoldable pub mutate : Digest → (Config → Result ConfigError Config) → Store → Outcome
mutate d fn s = publish s (fn s.cur >>= normalize d)

-- normTID
unfoldable pub norm_tid : Text → Text
norm_tid tid = lower (trim_space tid)

-- Replaces the first element that passes the test.
unfoldable pub replace_first {ℓ} : {A : Type ℓ} → (A → Bool) → A → List A → Option (List A)
replace_first p v [] = none
replace_first p v (x ∷ xs) =
    if p x
    then some (v ∷ xs)
    else elim (replace_first p v xs) [ none ↦ none | some ys ↦ some (x ∷ ys) ]

unfoldable pub set_graph_enabled : Bool → Config → Result ConfigError Config
set_graph_enabled b c =
    ok (record c { graph = some (record (present c.graph) { enabled = some b }) })

unfoldable pub create_tenant : Tenant → Config → Result ConfigError Config
create_tenant t c = ok (record c { tenants = c.tenants ++ t ∷ [] })

abbrev pub or_not_found {ℓ} : {A : Type ℓ} → Option A → (A → Config) → Result ConfigError Config
or_not_found none f = err not_found
or_not_found (some a) f = ok (f a)

unfoldable pub update_tenant : Text → Tenant → Config → Result ConfigError Config
update_tenant tid t c =
    or_not_found (replace_first (λ (x : Tenant). x.tid == tid) (record t { tid = tid }) c.tenants)
      (λ ts. record c { tenants = ts })

unfoldable pub delete_tenant : Text → Config → Result ConfigError Config
delete_tenant tid c = do
  guard (any (λ (t : Tenant). t.tid == tid) c.tenants) not_found
  ok (record c {
    tenants = filter (λ (t : Tenant). not (t.tid == tid)) c.tenants;
    users = filter (λ (u : User). not (u.tid == tid)) c.users;
    consents = filter (λ (cs : Consent). not (cs.tid == tid)) c.consents;
  })

unfoldable pub create_user : User → Config → Result ConfigError Config
create_user u c = ok (record c { users = c.users ++ u ∷ [] })

abbrev pub is_user : Text → Text → User → Bool
is_user tid username u = u.tid == tid && u.username == username

unfoldable pub update_user : Text → Text → User → Config → Result ConfigError Config
update_user tid username u c =
    or_not_found
      (replace_first (is_user tid username) (record u { tid = tid; username = username }) c.users)
      (λ us. record c { users = us })

-- Reports of the deleted user lose their manager.
abbrev pub orphan : Text → Text → User → User
orphan tid username u =
    if u.tid == tid && u.manager == username then record u { manager = [] } else u

unfoldable pub delete_user : Text → Text → Config → Result ConfigError Config
delete_user tid username c = do
  guard (any (is_user tid username) c.users) not_found
  ok (record c {
    users = map (orphan tid username) (filter (λ u. not (is_user tid username u)) c.users);
  })

-- The operations of the store.
pub data Command : Type 0 where
  reset : Command
  graph_enabled : Bool → Command
  tenant_created : Tenant → Command
  tenant_updated : Text → Tenant → Command
  tenant_deleted : Text → Command
  user_created : User → Command
  user_updated : Text → Text → User → Command
  user_deleted : Text → Text → Command

-- `if tid given and different { return error }`, before the store is locked
abbrev pub renames : Text → Text → Bool
renames given tid = not (is_empty given) && not (norm_tid given == norm_tid tid)

-- Reset, SetGraphEnabled, CreateTenant, UpdateTenant, DeleteTenant, CreateUser, UpdateUser, DeleteUser
unfoldable pub execute : Digest → Command → Store → Outcome
execute d reset s = (none, record s { cur = s.seed })
execute d (graph_enabled b) s = mutate d (set_graph_enabled b) s
execute d (tenant_created t) s = mutate d (create_tenant t) s
execute d (tenant_updated tid t) s =
    if renames t.tid tid
    then (some tid_cannot_be_changed, s)
    else mutate d (update_tenant (norm_tid tid) t) s
execute d (tenant_deleted tid) s = mutate d (delete_tenant (norm_tid tid)) s
execute d (user_created u) s = mutate d (create_user u) s
execute d (user_updated tid username u) s =
    if renames u.tid tid
    then (some tid_cannot_be_changed, s)
    else mutate d (update_user (norm_tid tid) username u) s
execute d (user_deleted tid username) s = mutate d (delete_user (norm_tid tid) username) s

unfoldable pub run : Digest → List Command → Store → Store
run d [] s = s
run d (cmd ∷ cmds) s = run d cmds (execute d cmd s).1
