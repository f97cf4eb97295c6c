-- ===== src/Entra/Normalize/Tenants.antt =====
-- What normalizing the tenants and their groups establishes.
use mock_oidc.Prelude.{
  ◌≡◌, List, ok, false, arith, ◌∷◌, >>=-eq-ok, [], All, true, guard, pos_part, ℤ, guard-ok, ◌≤◌,
  subst, ◌⊎◌, refuse-ok, refuse, is_empty, ok-injective, refl,
}
use mock_oidc.Text.{Text, mem, txt, lower, trim_space}
use mock_oidc.Entra.Types.{Group, Tenant}
use mock_oidc.Entra.Normalize.{
  normalize_group, normalize_groups, format_of, normalize_tenant, normalize_tenants, tids_of,
}
use mock_oidc.Entra.Wellformed.{IsGroup, Unseen, names_of, Distinct, Unseen-cons, IsTenant}
use mock_oidc.Entra.Graphconfig.{or_text}
use mock_oidc.Entra.Guid.{is_guid, hex_run, dash}
use mock_oidc.Text.Laws.{eq_iff}
use mock_oidc.Entra.Errors.{tid_not_a_guid, duplicate_tid}
use mock_oidc.Entra.Normalize.Graph.{or_default-pos}

normalize_group-IsGroup :
    (tid : Text) (seen : List Text) (g g' : Group)
    → normalize_group tid seen g ≡ ok g'
    → IsGroup g' × (mem g'.name seen ≡ false)
unfolding normalize_group
normalize_group-IsGroup tid seen g g' h = ground arith

normalize_groups-IsGroup :
    (tid : Text) (seen : List Text) (gs gs' : List Group)
    → normalize_groups tid seen gs ≡ ok gs'
    → All IsGroup gs' × Unseen seen (names_of gs') × Distinct (names_of gs')
unfolding normalize_groups
normalize_groups-IsGroup tid seen [] gs' h = ground arith
normalize_groups-IsGroup tid seen (g ∷ gs) gs' h =
    let (g₁, e, h₁) = >>=-eq-ok (normalize_group tid seen g) _ h in
    let (gs₁, e₁, h₂) = >>=-eq-ok (normalize_groups tid (g₁.name ∷ seen) gs) _ h₁ in
    let (p, q) = normalize_group-IsGroup tid seen g g₁ e in
    let (a, u, d) = normalize_groups-IsGroup tid (g₁.name ∷ seen) gs gs₁ e₁ in
    let (v, c) = Unseen-cons g₁.name seen (names_of gs₁) u in
    subst (λ l. All IsGroup l × Unseen seen (names_of l) × Distinct (names_of l)) (ok-injective h₂)
      ((p, a), (q, v), (c, d))

format_of-cases :
    (tid f r : Text) → format_of tid f ≡ ok r → (r ≡ txt "name") ⊎ (r ≡ txt "object_id")
unfolding format_of
format_of-cases tid f r h = ground (arith, eq_iff f (txt "name"), eq_iff f (txt "object_id"))

pub or_text-nonempty : (s d : Text) → is_empty d ≡ false → is_empty (or_text s d) ≡ false
or_text-nonempty [] d h = h
or_text-nonempty (c ∷ s) d h = refl

is_guid-nonempty : (s : Text) → is_guid s ≡ true → is_empty s ≡ false
unfolding is_guid hex_run dash
is_guid-nonempty [] h = cc
is_guid-nonempty (c ∷ s) h = refl

normalize_tenant-IsTenant :
    (limit : ℤ) (seen : List Text) (t t' : Tenant)
    → 1 ≤ pos_part limit
    → normalize_tenant limit seen t ≡ ok t'
    → IsTenant t' × (mem t'.tid seen ≡ false)
unfolding normalize_tenant
normalize_tenant-IsTenant limit seen t t' l h =
    let tid : Text = lower (trim_space t.tid) in
    let (_, e₁, h₁) = >>=-eq-ok (guard (is_guid tid) (tid_not_a_guid tid)) _ h in
    let (_, e₂, h₂) = >>=-eq-ok (refuse (mem tid seen) (duplicate_tid tid)) _ h₁ in
    let (f, e₃, h₃) = >>=-eq-ok (format_of tid t.group_claim_format) _ h₂ in
    let (gs, e₄, h₄) = >>=-eq-ok (normalize_groups tid [] t.groups) _ h₃ in
    let (a, _, d) = normalize_groups-IsGroup tid [] t.groups gs e₄ in
    let guid = guard-ok (is_guid tid) (tid_not_a_guid tid) e₁ in
    subst (λ (x : Tenant). IsTenant x × (mem x.tid seen ≡ false)) (ok-injective h₄)
      (
        record {
          guid = guid;
          named = or_text-nonempty t.name tid (is_guid-nonempty tid guid);
          format = format_of-cases tid t.group_claim_format f e₃;
          limit = or_default-pos t.group_limit limit l;
          groups = a;
          distinct = d;
        },
        refuse-ok (mem tid seen) (duplicate_tid tid) e₂,
      )

pub normalize_tenants-IsTenant :
    (limit : ℤ) (seen : List Text) (ts ts' : List Tenant)
    → 1 ≤ pos_part limit
    → normalize_tenants limit seen ts ≡ ok ts'
    → All IsTenant ts' × Unseen seen (tids_of ts') × Distinct (tids_of ts')
unfolding normalize_tenants
normalize_tenants-IsTenant limit seen [] ts' l h = ground arith
normalize_tenants-IsTenant limit seen (t ∷ ts) ts' l h =
    let (t₁, e, h₁) = >>=-eq-ok (normalize_tenant limit seen t) _ h in
    let (ts₁, e₁, h₂) = >>=-eq-ok (normalize_tenants limit (t₁.tid ∷ seen) ts) _ h₁ in
    let (p, q) = normalize_tenant-IsTenant limit seen t t₁ l e in
    let (a, u, d) = normalize_tenants-IsTenant limit (t₁.tid ∷ seen) ts ts₁ l e₁ in
    let (v, c) = Unseen-cons t₁.tid seen (tids_of ts₁) u in
    subst (λ k. All IsTenant k × Unseen seen (tids_of k) × Distinct (tids_of k)) (ok-injective h₂)
      ((p, a), (q, v), (c, d))
