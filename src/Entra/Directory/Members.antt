-- ===== src/Entra/Directory/Members.antt =====
-- A group's members and its members' groups.
use mock_oidc.Entra.Lookup.{tenant, users_in, member_groups, group_meta}
use mock_oidc.Prelude.{
  find?, Bool, arith, inr, ◌&&◌, inl, ◌∷◌, ◌≡◌, map, not, some, ◌++◌, ◌||◌, List, Bool-cases,
  is_empty, sym, refl, filter, Option-cases, true, [], false, ◌∙◌, any, some-eq,
}
use mock_oidc.Entra.Directory.{
  named_once, dir_group, groups_of, DirGroup, group_by_id, members_of, sort_groups, groups_in,
  sort_users, all_names,
}
use mock_oidc.Text.{mem, Text, ◌==◌, lower, trim_space}
use mock_oidc.Entra.Types.{User, Config, Tenant, Group}
use mock_oidc.Entra.Guid.{Digest}
use mock_oidc.Text.Laws.{eq_iff, ==-refl, lower_idem}
use mock_oidc.Sorting.{any-sort_by, sort_by-Perm, sort_by-IsSorted, IsSorted}
use mathlib.Core.List.{Perm}

mem-named_once :
    (n : Text) (seen names : List Text)
    → mem n (named_once seen names) ≡ (mem n names && not (is_empty n) && not (mem n seen))
unfolding named_once mem
mem-named_once n seen [] = refl
mem-named_once n seen (name ∷ names) = elim (Bool-cases (is_empty name || mem name seen)) [
  | inl e ↦ elim (Bool-cases (name == n)) [
    | inl f ↦
        let same : name ≡ n = (eq_iff name n).0 f in
        rw (e, mem-named_once n seen names, f) (ground (arith, rw same at e))
    | inr f ↦ rw (e, mem-named_once n seen names, f) refl
  ]
  | inr e ↦ elim (Bool-cases (name == n)) [
    | inl f ↦ let same : name ≡ n = (eq_iff name n).0 f in rw (e, f) (ground (arith, rw same at e))
    | inr f ↦ rw (e, mem-named_once n (name ∷ seen) names, f) refl
  ]
]

dir_group-name : (d : Digest) (t : Tenant) (n : Text) → (dir_group d t n).name ≡ n
unfolding dir_group
dir_group-name d t n = elim (Option-cases (group_meta t n)) [
  | inl e ↦ rw e refl
  | inr (m, e) ↦ rw e refl
]

any-named :
    (d : Digest) (t : Tenant) (n : Text) (names : List Text)
    → any (λ (g : DirGroup). g.name == n) (map (dir_group d t) names) ≡ mem n names
unfolding mem
any-named d t n [] = refl
any-named d t n (m ∷ names) = rw (dir_group-name d t m, any-named d t n names) refl

-- The user's groups have one with this name.
abbrev pub in_group : Text → List DirGroup → Bool
in_group n gs = any (λ (g : DirGroup). g.name == n) gs

groups_of-member :
    (d : Digest) (c : Config) (u : User) (t : Tenant) (n : Text)
    → tenant c u.tid ≡ some t
    → is_empty n ≡ false
    → in_group n (groups_of d c u) ≡ mem n (member_groups u)
unfolding groups_of sort_groups mem
groups_of-member d c u t n h e = rw h (
    any-sort_by (λ (g : DirGroup). g.oid) (λ (g : DirGroup). g.name == n)
      (map (dir_group d t) (named_once [] (member_groups u)))
    ∙ any-named d t n (named_once [] (member_groups u))
    ∙ mem-named_once n [] (member_groups u)
    ∙ rw e (ground arith))

find-any :
    (p : DirGroup → Bool) (gs : List DirGroup) (g : DirGroup)
    → find? p gs ≡ some g
    → in_group g.name gs ≡ true
find-any p [] g h = cc h
find-any p (x ∷ gs) g h = elim (Bool-cases (p x)) [
  | inl e ↦ let same : x ≡ g = some-eq (rw e at h) in rw (same, ==-refl g.name) refl
  | inr e ↦ rw (find-any p gs g (rw e at h)) (ground arith)
]

-- A group that is found has a name, in a tenant that exists.
found-named :
    (d : Digest) (c : Config) (tid id : Text) (g : DirGroup)
    → group_by_id d c tid id ≡ some g
    → (t : Tenant) × (tenant c tid ≡ some t) × (is_empty g.name ≡ false)
unfolding group_by_id groups_in sort_groups
found-named d c tid id g h = elim (Bool-cases (is_empty (trim_space id))) [
  | inl e ↦ cc (rw (e, group_by_id) at h)
  | inr e ↦ elim (Option-cases (tenant c tid)) [
    | inl f ↦ cc (rw (e, f, groups_in, group_by_id) at h)
    | inr (t, f) ↦
        let names = map (λ (g : Group). g.name) t.groups ++ all_names (users_in c t.tid) in
        let found =
          find-any
            (λ (g : DirGroup). lower g.oid == lower (trim_space id) || g.name == trim_space id)
            (sort_groups (map (dir_group d t) (named_once [] names))) g
            (rw (e, f, groups_in, group_by_id) at h) in
        let m =
          sym (
            any-sort_by (λ (g : DirGroup). g.oid) (λ (h : DirGroup). h.name == g.name)
              (map (dir_group d t) (named_once [] names))
            ∙ any-named d t g.name (named_once [] names)
            ∙ mem-named_once g.name [] names)
          ∙ found in
        (t, f, ground (arith, m))
  ]
]

filter-agree :
    (p p' q : User → Bool) (us : List User)
    → ((u : User) → q u ≡ true → p u ≡ p' u)
    → filter p (filter q us) ≡ filter p' (filter q us)
filter-agree p p' q [] h = refl
filter-agree p p' q (u ∷ us) h = elim (Bool-cases (q u)) [
  | inl e ↦ rw (e, h u e, filter-agree p p' q us h) refl
  | inr e ↦ rw e (filter-agree p p' q us h)
]

same_tenant :
    (c : Config) (tid : Text) (u : User)
    → is_empty (lower tid) ≡ false
    → (is_empty (lower tid) || u.tid == lower tid) ≡ true
    → tenant c u.tid ≡ tenant c tid
unfolding tenant
same_tenant c tid u e h =
    let same : u.tid ≡ lower tid = (eq_iff u.tid (lower tid)).0 (ground (arith, rw e at h)) in
    rw (same, lower_idem tid) refl

-- The members of a group that is found in a tenant are the tenant's users who have that group among their
-- own groups, each as often as it is configured, and no member's object id is less than the one before
-- it. The tenant id is not empty.
pub members_of-groups_of :
    (d : Digest) (c : Config) (tid id : Text) (g : DirGroup)
    → is_empty (lower tid) ≡ false
    → group_by_id d c tid id ≡ some g
    → Perm
        (members_of d c tid id)
        (filter (λ (u : User). in_group g.name (groups_of d c u)) (users_in c tid))
      × IsSorted (λ (u : User). u.oid) (members_of d c tid id)
unfolding members_of users_in sort_users
members_of-groups_of d c tid id g e h =
    let (t, f, n) = found-named d c tid id g h in
    let same =
      filter-agree (λ (u : User). mem g.name (member_groups u))
        (λ (u : User). in_group g.name (groups_of d c u))
        (λ (u : User). is_empty (lower tid) || u.tid == lower tid) c.users
        (λ u q. sym (groups_of-member d c u t g.name (same_tenant c tid u e q ∙ f) n)) in
    rw (h, same) (sort_by-Perm _ _, sort_by-IsSorted _ _)
