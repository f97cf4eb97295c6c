-- ===== src/Entra/Normalize/Managers.antt =====
-- What the passes over the whole user set establish: managers, and dynamic group memberships.
use mock_oidc.Prelude.{
  List, inl, ok, Option-cases, >>=-eq-ok, ◌∷◌, ◌≡◌, [], arith, subst, inr, filter, ok-injective,
  All, is_empty, sym, refuse, Bool-cases, refl, ◌∙◌, guard, refuse-ok, guard-ok, false, none, true,
  Bool, if◌then◌else◌, Option, ap, err, Result, some,
}
use mock_oidc.Text.{Text, ◌==◌, mem}
use mock_oidc.Entra.Types.{Config, Tenant, Group, User, Rule}
use mock_oidc.Entra.Errors.{ConfigError, own_manager, unknown_manager, static_member_of_dynamic}
use mock_oidc.Entra.Lookup.{tenant, group_meta, is_dynamic}
use mock_oidc.Entra.Rule.{matches}
use mock_oidc.Entra.Normalize.{
  resolve_manager, resolve_managers, check_static, dynamic_names, evaluate_user, evaluate_users,
  user_key, keys_of, with_tenant, with_rule, add_if, manager_named,
}
use mock_oidc.Entra.Wellformed.{IsUser, IsManaged, IsDynamicIn, names_of, rule_matches}

-- What one user keeps through a pass that sets its manager, or its dynamic groups.
abbrev pub SameAccount : User → User → Type 0
SameAccount u v = (v.tid ≡ u.tid) × (v.username ≡ u.username) × (v.oid ≡ u.oid)

abbrev Outcome : List Text → List Text → User → User → Type 0
Outcome keys tids u v =
    IsUser tids v × IsManaged keys v × (user_key v.tid v.username ≡ user_key u.tid u.username)

resolve_manager_lem :
    (c : Config) (keys tids : List Text) (u u' : User)
    → resolve_manager c keys u ≡ ok u'
    → IsUser tids u
    → Outcome keys tids u u'
unfolding resolve_manager
resolve_manager_lem c keys tids u u' h valid = elim (Bool-cases (is_empty u.manager)) [
  | inl e ↦
      subst (Outcome keys tids u) (ok-injective (rw (e, resolve_manager) at h)) (valid, inl e, refl)
  | inr e ↦
      let m : Text = manager_named c keys u in
      let h₀ = rw (e, resolve_manager) at h in
      let (_, e₁, h₁) = >>=-eq-ok (refuse (m == u.username) (own_manager u.username)) _ h₀ in
      let (_, e₂, h₂) =
        >>=-eq-ok (guard (mem (user_key u.tid m) keys) (unknown_manager u.username m)) _ h₁ in
      subst (Outcome keys tids u) (ok-injective h₂) (
        record {
          named = valid.named;
          tenant = valid.tenant;
          error = valid.error;
          mfa = valid.mfa;
          oid = valid.oid;
          display = valid.display;
          wids = valid.wids;
        },
        inr (
          guard-ok (mem (user_key u.tid m) keys) (unknown_manager u.username m) e₂,
          refuse-ok (m == u.username) (own_manager u.username) e₁,
        ),
        refl,
      )
]

pub resolve_managers_lem :
    (c : Config) (keys tids : List Text) (us us' : List User)
    → resolve_managers c keys us ≡ ok us'
    → All (IsUser tids) us
    → All (IsUser tids) us' × All (IsManaged keys) us' × (keys_of us' ≡ keys_of us)
unfolding resolve_managers
resolve_managers_lem c keys tids [] us' h a = ground arith
resolve_managers_lem c keys tids (u ∷ us) us' h (p, a) =
    let (u₁, e, h₁) = >>=-eq-ok (resolve_manager c keys u) _ h in
    let (us₁, e₁, h₂) = >>=-eq-ok (resolve_managers c keys us) _ h₁ in
    let (x, y, z) = resolve_manager_lem c keys tids u u₁ e p in
    let (xs, ys, zs) = resolve_managers_lem c keys tids us us₁ e₁ a in
    subst (λ l. All (IsUser tids) l × All (IsManaged keys) l × (keys_of l ≡ keys_of (u ∷ us)))
      (ok-injective h₂) ((x, xs), (y, ys), cc)

check_static_lem :
    (t : Tenant) (username : Text) (names : List Text) {w : Unit {0}}
    → check_static t username names ≡ ok w
    → All (λ name. ¬ IsDynamicIn t name) names
unfolding check_static
check_static_lem t username [] h = tt
check_static_lem t username (name ∷ names) h = elim (Option-cases (group_meta t name)) [
  | inl e ↦ (
    (λ (g, found, _). cc (sym e ∙ found)),
    check_static_lem t username names (rw (e, check_static) at h),
  )
  | inr (g, e) ↦
      let (_, e₁, h₁) =
        >>=-eq-ok (refuse (is_dynamic g) (static_member_of_dynamic username name)) _
          (rw (e, check_static) at h) in
      let still = refuse-ok (is_dynamic g) (static_member_of_dynamic username name) e₁ in
      ((λ (g', found, dyn). cc (sym e ∙ found, still, dyn)), check_static_lem t username names h₁)
]

add_if-ok :
    (b : Bool) (name : Text) (r : Result ConfigError (List Text)) {names : List Text}
    → add_if b name r ≡ ok names
    → (rest : List Text) × (r ≡ ok rest) × ((if b then name ∷ rest else rest) ≡ names)
add_if-ok b name (ok rest) h = (rest, refl, ok-injective h)
add_if-ok b name (err e) h = cc

with_rule-ok :
    (o : Option Rule) (f : Rule → Result ConfigError (List Text)) {names : List Text}
    → with_rule o f ≡ ok names
    → (r : Rule) × (o ≡ some r) × (f r ≡ ok names)
with_rule-ok none f h = cc
with_rule-ok (some r) f h = (r, refl, h)

names_of-if :
    (b : Bool) (g : Group) (gs : List Group)
    → names_of (if b then g ∷ gs else gs) ≡ (if b then g.name ∷ names_of gs else names_of gs)
names_of-if true g gs = refl
names_of-if false g gs = refl

rule_matches_lem :
    (c : Config) (t : Tenant) (u : User) (g : Group) (r : Rule)
    → is_dynamic g ≡ true
    → g.rule ≡ some r
    → rule_matches c t u g ≡ matches c t u r
rule_matches_lem c t u g r e k = ground arith

dynamic_names_lem :
    (c : Config) (t : Tenant) (u : User) (gs : List Group) (names : List Text)
    → dynamic_names c t u gs ≡ ok names
    → names ≡ names_of (filter (rule_matches c t u) gs)
unfolding dynamic_names
dynamic_names_lem c t u [] names h = ground arith
dynamic_names_lem c t u (g ∷ gs) names h = elim (Bool-cases (is_dynamic g)) [
  | inl e ↦
      let (r, k, h₁) = with_rule-ok g.rule _ (rw (e, dynamic_names) at h) in
      let (rest, k₁, h₂) = add_if-ok (matches c t u r) g.name (dynamic_names c t u gs) h₁ in
      rw (names_of-if, rule_matches_lem c t u g r e k)
        (sym h₂
          ∙ ap (λ l. if matches c t u r then g.name ∷ l else l)
              (dynamic_names_lem c t u gs rest k₁))
  | inr e ↦ rw e (dynamic_names_lem c t u gs names (rw (e, dynamic_names) at h))
]

-- What evaluating one user under `c` establishes, stated of that user.
pub record Evaluates (c : Config) (u v : User) : Type 0 where
  pub tenant_of : Tenant
  pub found : tenant c u.tid ≡ some tenant_of
  pub static : All (λ name. ¬ IsDynamicIn tenant_of name) u.groups
  pub result : v ≡ record u {
    dynamic_groups = names_of (filter (rule_matches c tenant_of u) tenant_of.groups);
  }

with_tenant-ok :
    (o : Option Tenant) (f : Tenant → Result ConfigError User) {v : User}
    → with_tenant o f ≡ ok v
    → (t : Tenant) × (o ≡ some t) × (f t ≡ ok v)
with_tenant-ok none f h = cc
with_tenant-ok (some t) f h = (t, refl, h)

evaluate_user_lem : (c : Config) (u v : User) → evaluate_user c u ≡ ok v → Evaluates c u v
unfolding evaluate_user
evaluate_user_lem c u v h =
    let (t, found, h₁) = with_tenant-ok (tenant c u.tid) _ h in
    let (_, e, h₂) = >>=-eq-ok (check_static t u.username u.groups) _ h₁ in
    let (names, e₁, h₃) = >>=-eq-ok (dynamic_names c t u t.groups) _ h₂ in
    record {
      tenant_of = t;
      found = found;
      static = check_static_lem t u.username u.groups e;
      result =
          sym (ok-injective h₃)
          ∙ ap (λ l. record u { dynamic_groups = l }) (dynamic_names_lem c t u t.groups names e₁);
    }

-- The two lists hold the same users, evaluated.
pub data AllEvaluates (c : Config) : List User → List User → Type 0 where
  done : AllEvaluates c [] []
  next :
      {u v : User} {us vs : List User}
      → Evaluates c u v
      → AllEvaluates c us vs
      → AllEvaluates c (u ∷ us) (v ∷ vs)

pub evaluate_users_lem :
    (c : Config) (us vs : List User) → evaluate_users c us ≡ ok vs → AllEvaluates c us vs
unfolding evaluate_users
evaluate_users_lem c [] vs h = subst (AllEvaluates c []) (ok-injective h) done
evaluate_users_lem c (u ∷ us) vs h =
    let (v, e, h₁) = >>=-eq-ok (evaluate_user c u) _ h in
    let (vs₁, e₁, h₂) = >>=-eq-ok (evaluate_users c us) _ h₁ in
    subst (AllEvaluates c (u ∷ us)) (ok-injective h₂)
      (next (evaluate_user_lem c u v e) (evaluate_users_lem c us vs₁ e₁))
