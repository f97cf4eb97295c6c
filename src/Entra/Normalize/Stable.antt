-- ===== src/Entra/Normalize/Stable.antt =====
-- The rules of dynamic groups before and after the users are evaluated.
use mock_oidc.Prelude.{
  inl, find?, ◌≡◌, is_empty, Bool-cases, Bool, ◌&&◌, refl, List, inr, [], ap, filter, All,
  Option-cases, ◌∙◌, not, ◌∷◌, subst, sym,
}
use mock_oidc.Text.{Text, ◌==◌, lower}
use mock_oidc.Entra.Types.{
  Config, Tenant, User, Attr, department, company_name, employee_id, job_title, office_location,
  display_name, mail, user_principal_name, extension_attribute1, extension_attribute2,
  extension_attribute3, Group, Rule, or_rule, and_rule, not_rule, direct_reports, string_compare,
  bool_compare, Rules, cons, nil,
}
use mock_oidc.Entra.Lookup.{user, manager_of, principal_name, preferred_username, tenant}
use mock_oidc.Entra.Rule.{attribute, reports_to, matches, matches_any, matches_all}
use mock_oidc.Entra.Normalize.Managers.{AllEvaluates, done, next, Evaluates}
use mock_oidc.Entra.Wellformed.{IsEvaluated, rule_matches, names_of}

abbrev with_groups : User → List Text → User
with_groups u names = record u { dynamic_groups = names }

attribute_stable :
    (t : Tenant) (u : User) (names : List Text) (a : Attr)
    → attribute t (with_groups u names) a ≡ attribute t u a
unfolding attribute principal_name preferred_username
attribute_stable t u names department = refl
attribute_stable t u names company_name = refl
attribute_stable t u names employee_id = refl
attribute_stable t u names job_title = refl
attribute_stable t u names office_location = refl
attribute_stable t u names display_name = refl
attribute_stable t u names mail = refl
attribute_stable t u names user_principal_name = refl
attribute_stable t u names extension_attribute1 = refl
attribute_stable t u names extension_attribute2 = refl
attribute_stable t u names extension_attribute3 = refl

abbrev is_user : Text → Text → User → Bool
is_user tid name u = u.tid == tid && u.username == name

find-evaluated :
    (c : Config) (tid name oid : Text) {us vs : List User}
    → AllEvaluates c us vs
    → reports_to (find? (is_user tid name) vs) oid ≡ reports_to (find? (is_user tid name) us) oid
find-evaluated c tid name oid done = refl
find-evaluated c tid name oid (next {u = u} {us = us} {vs = vs} e es) =
    rw e.result (elim (Bool-cases (is_user tid name u)) [
      | inl h ↦ rw h
      | inr h ↦ rw h (find-evaluated c tid name oid es)
    ])

module _ (c : Config) (vs : List User) (evaluated : AllEvaluates c c.users vs) where
  abbrev c' : Config
  c' = record c { users = vs }

  manager_stable :
      (u : User) (names : List Text) (oid : Text)
      → reports_to (manager_of c' (with_groups u names)) oid ≡ reports_to (manager_of c u) oid
  unfolding manager_of user
  manager_stable u names oid = elim (Bool-cases (is_empty u.manager)) [
    | inl e ↦ rw e
    | inr e ↦ rw e (find-evaluated c (lower u.tid) u.manager oid evaluated)
  ]

  mutual
    unfolding matches

    matches_stable :
        (t : Tenant) (u : User) (names : List Text) (r : Rule)
        → matches c' t (with_groups u names) r ≡ matches c t u r
    matches_stable t u names (or_rule rs) = any_stable t u names rs
    matches_stable t u names (and_rule rs) = all_stable t u names rs
    matches_stable t u names (not_rule r) = ap not (matches_stable t u names r)
    matches_stable t u names (direct_reports oid) = manager_stable u names oid
    matches_stable t u names (string_compare a op v l) = rw attribute_stable
    matches_stable t u names (bool_compare e v) = refl

    any_stable :
        (t : Tenant) (u : User) (names : List Text) (rs : Rules)
        → matches_any c' t (with_groups u names) rs ≡ matches_any c t u rs
    any_stable t u names nil = refl
    any_stable t u names (cons r rs) = cc (matches_stable t u names r, any_stable t u names rs)

    all_stable :
        (t : Tenant) (u : User) (names : List Text) (rs : Rules)
        → matches_all c' t (with_groups u names) rs ≡ matches_all c t u rs
    all_stable t u names nil = refl
    all_stable t u names (cons r rs) = cc (matches_stable t u names r, all_stable t u names rs)

  rule_stable :
      (t : Tenant) (u : User) (names : List Text) (g : Group)
      → rule_matches c' t (with_groups u names) g ≡ rule_matches c t u g
  rule_stable t u names g = elim (Option-cases g.rule) [
    | inl e ↦ rw e
    | inr (r, e) ↦ rw (e, matches_stable t u names r)
  ]

  filter_stable :
      (t : Tenant) (u : User) (names : List Text) (gs : List Group)
      → filter (rule_matches c' t (with_groups u names)) gs ≡ filter (rule_matches c t u) gs
  filter_stable t u names [] = refl
  filter_stable t u names (g ∷ gs) = rw (rule_stable t u names g, filter_stable t u names gs)

  tenant_stable : (tid : Text) → tenant c' tid ≡ tenant c tid
  unfolding tenant
  tenant_stable tid = refl

  Evaluates-IsEvaluated : (u v : User) → Evaluates c u v → IsEvaluated c' v
  Evaluates-IsEvaluated u v e =
      let names = names_of (filter (rule_matches c e.tenant_of u) e.tenant_of.groups) in
      subst (IsEvaluated c') (sym e.result) (record {
        tenant_of = e.tenant_of;
        found = tenant_stable u.tid ∙ e.found;
        static = e.static;
        dynamic = ap names_of (sym (filter_stable e.tenant_of u names e.tenant_of.groups));
      })

  All-IsEvaluated : {us ws : List User} → AllEvaluates c us ws → All (IsEvaluated c') ws
  All-IsEvaluated done = tt
  All-IsEvaluated (next {u = u} {v = v} e es) = (Evaluates-IsEvaluated u v e, All-IsEvaluated es)

  pub users-IsEvaluated : All (IsEvaluated c') vs
  users-IsEvaluated = All-IsEvaluated evaluated
