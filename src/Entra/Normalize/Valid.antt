-- ===== src/Entra/Normalize/Valid.antt =====
-- What a configuration that `normalize` accepts satisfies.
use mock_oidc.Prelude.{
  All, true, guard, false, sym, ◌≡◌, subst, ap, refl, is_empty, ◌≤◌, arith, pos_part, ok-injective,
  ℤ, >>=-eq-ok, ok, ◌∷◌, [], refuse-ok, guard-ok, List, ◌∙◌, pos, refuse, some,
}
use mock_oidc.Text.{Text, txt, trim_slash}
use mock_oidc.Entra.Types.{Config, GraphConfig, Tenant, User}
use mock_oidc.Entra.Errors.{bad_base_path, no_tenants}
use mock_oidc.Entra.Guid.{is_base_path, Digest}
use mock_oidc.Entra.Guid.Derived.{IsSha1}
use mock_oidc.Entra.Graphconfig.{normalize_graph, or_default, or_text}
use mock_oidc.Entra.Normalize.{
  normalize, normalize_tenants, normalize_apps, normalize_consents, normalize_users,
  resolve_managers, evaluate_users, finish, keys_of, tids_of, user_key,
}
use mock_oidc.Entra.Normalize.Tenants.{normalize_tenants-IsTenant}
use mock_oidc.Entra.Normalize.Users.{
  normalize_apps-IsApp, normalize_consents-IsConsent, normalize_users-IsUser,
}
use mock_oidc.Entra.Normalize.Managers.{
  resolve_managers_lem, Evaluates, AllEvaluates, done, next, evaluate_users_lem,
}
use mock_oidc.Entra.Normalize.Stable.{users-IsEvaluated}
use mock_oidc.Entra.Normalize.Graph.{normalize_graph-IsGraph, or_default-pos}
use mock_oidc.Entra.Wellformed.{
  Distinct, IsWellFormed, IsGraph, IsTenant, IsApp, IsConsent, IsUser, IsManaged,
}

-- Evaluation keeps what the earlier passes established of a user.
IsUser-evaluated :
    (c : Config) (tids : List Text) (u v : User) → Evaluates c u v → IsUser tids u → IsUser tids v
IsUser-evaluated c tids u v e h = subst (IsUser tids) (sym e.result) (record {
  named = h.named;
  tenant = h.tenant;
  error = h.error;
  mfa = h.mfa;
  oid = h.oid;
  display = h.display;
  wids = h.wids;
})

IsManaged-evaluated :
    (c : Config) (keys : List Text) (u v : User)
    → Evaluates c u v
    → IsManaged keys u
    → IsManaged keys v
IsManaged-evaluated c keys u v e h = subst (IsManaged keys) (sym e.result) h

key-evaluated :
    (c : Config) (u v : User)
    → Evaluates c u v
    → user_key v.tid v.username ≡ user_key u.tid u.username
key-evaluated c u v e = ap (λ (x : User). user_key x.tid x.username) e.result

evaluate_users-evaluated :
    (c : Config) (tids keys : List Text) {us vs : List User}
    → AllEvaluates c us vs
    → All (IsUser tids) us
    → All (IsManaged keys) us
    → All (IsUser tids) vs × All (IsManaged keys) vs × (keys_of vs ≡ keys_of us)
evaluate_users-evaluated c tids keys done a b = (tt, tt, refl)
evaluate_users-evaluated c tids keys (next {u = u} {v = v} e es) (p, a) (q, b) =
    let (x, y, z) = evaluate_users-evaluated c tids keys es a b in
    (
      (IsUser-evaluated c tids u v e p, x),
      (IsManaged-evaluated c keys u v e q, y),
      cc (key-evaluated c u v e, z),
    )

-- What holds before the two passes over the whole user set.
pub record IsReady (c : Config) : Type 0 where
  pub base : is_base_path c.base_path ≡ true
  pub limit : 1 ≤ pos_part c.default_group_limit
  pub expiry : 1 ≤ pos_part c.token_expiry
  pub graph_block : GraphConfig
  pub graph : c.graph ≡ some graph_block
  pub graph_valid : IsGraph c.base_path graph_block
  pub some_tenant : is_empty c.tenants ≡ false
  pub tenants : All IsTenant c.tenants
  pub tids : Distinct (tids_of c.tenants)
  pub apps : All (IsApp (tids_of c.tenants)) c.apps
  pub consents : All (IsConsent (tids_of c.tenants)) c.consents
  pub users : All (IsUser (tids_of c.tenants)) c.users
  pub keys : Distinct (keys_of c.users)

finish-IsWellFormed : (c c' : Config) → IsReady c → finish c ≡ ok c' → IsWellFormed c'
unfolding finish
finish-IsWellFormed c c' r h =
    let (ms, e₁, h₁) = >>=-eq-ok (resolve_managers c (keys_of c.users) c.users) _ h in
    let managed : Config = record c { users = ms } in
    let (vs, e₂, h₂) = >>=-eq-ok (evaluate_users managed ms) _ h₁ in
    let (a, b, k) =
      resolve_managers_lem c (keys_of c.users) (tids_of c.tenants) c.users ms e₁ r.users in
    let ev = evaluate_users_lem managed ms vs e₂ in
    let (x, y, z) = evaluate_users-evaluated managed (tids_of c.tenants) (keys_of c.users) ev a b in
    let same : keys_of c.users ≡ keys_of vs = sym (z ∙ k) in
    subst IsWellFormed (ok-injective h₂) (record {
      base = r.base;
      limit = r.limit;
      expiry = r.expiry;
      graph_block = r.graph_block;
      graph = r.graph;
      graph_valid = r.graph_valid;
      some_tenant = r.some_tenant;
      tenants = r.tenants;
      tids = r.tids;
      apps = r.apps;
      consents = r.consents;
      users = x;
      keys = subst Distinct same r.keys;
      managers = subst (λ l. All (IsManaged l) vs) same y;
      evaluated = users-IsEvaluated managed vs ev;
    })

normalize_tenants-nonempty :
    (limit : ℤ) (seen : List Text) (ts ts' : List Tenant)
    → normalize_tenants limit seen ts ≡ ok ts'
    → is_empty ts' ≡ is_empty ts
unfolding normalize_tenants
normalize_tenants-nonempty limit seen [] ts' h = ground arith
normalize_tenants-nonempty limit seen (t ∷ ts) ts' h = ground arith

-- If SHA-1 gives twenty bytes, every configuration that `normalize` returns is well-formed: valid
-- distinct tenant ids, users of known tenants with distinct names and GUID object ids, managers who
-- are other users of the tenant, a Graph block with ordered page sizes, and, for each user, exactly
-- the dynamic groups whose rule matches under the returned configuration.
pub normalize-IsWellFormed :
    (d : Digest) → IsSha1 d → (c c' : Config) → normalize d c ≡ ok c' → IsWellFormed c'
unfolding normalize
normalize-IsWellFormed d law c c' h =
    let base : Text = or_text (trim_slash c.base_path) (txt "entra") in
    let limit : ℤ = or_default c.default_group_limit (pos 200) in
    let (_, e₁, h₁) = >>=-eq-ok (guard (is_base_path base) (bad_base_path base)) _ h in
    let (g, e₂, h₂) = >>=-eq-ok (normalize_graph base c.graph) _ h₁ in
    let (_, e₃, h₃) = >>=-eq-ok (refuse (is_empty c.tenants) no_tenants) _ h₂ in
    let (ts, e₄, h₄) = >>=-eq-ok (normalize_tenants limit [] c.tenants) _ h₃ in
    let (apps, e₅, h₅) = >>=-eq-ok (normalize_apps (tids_of ts) c.apps) _ h₄ in
    let (cs, e₆, h₆) = >>=-eq-ok (normalize_consents (tids_of ts) c.consents) _ h₅ in
    let (us, e₇, h₇) = >>=-eq-ok (normalize_users d (tids_of ts) [] c.users) _ h₆ in
    let positive = or_default-pos c.default_group_limit (pos 200) (omega arith) in
    let (a, _, dt) = normalize_tenants-IsTenant limit [] c.tenants ts positive e₄ in
    let (b, _, du) = normalize_users-IsUser d law (tids_of ts) [] c.users us e₇ in
    finish-IsWellFormed _ c'
      (record {
        base = guard-ok (is_base_path base) (bad_base_path base) e₁;
        limit = positive;
        expiry = or_default-pos c.token_expiry (pos 3600) (omega arith);
        graph_block = g;
        graph = refl;
        graph_valid = normalize_graph-IsGraph base c.graph g e₂;
        some_tenant =
            normalize_tenants-nonempty limit [] c.tenants ts e₄
            ∙ refuse-ok (is_empty c.tenants) no_tenants e₃;
        tenants = a;
        tids = dt;
        apps = normalize_apps-IsApp (tids_of ts) c.apps apps e₅;
        consents = normalize_consents-IsConsent (tids_of ts) c.consents cs e₆;
        users = b;
        keys = du;
      })
      h₇
