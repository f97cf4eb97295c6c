-- ===== src/Entra/Claims/Groups.antt =====
-- The group claims of an access token, and the groups of the account on the Graph surface.
use mock_oidc.Prelude.{
  pos, ◌||◌, if◌then◌else◌, inr, inl, Bool-cases, none, ◌&&◌, some, length, not, is_empty, ltb_ℤ,
  ◌≡◌, ◌∙◌, refl, All, any, map, find?, List, Bool, true, false, [], ◌∷◌, some-eq, subst, sym, ap,
  Option-cases, arith,
}
use mock_oidc.Entra.Claims.Fixed.{
  own_names, Apart, personal_names, personal, personal-fixed, access-base,
}
use mock_oidc.Entra.Guid.{Digest, group_object_id}
use mock_oidc.Entra.Claims.{
  add_groups, TokenInput, Claim, texts, group_values, overage_names, overage_source,
  overage_endpoint, base_claims, fixed_claims, access_token_claims,
}
use mock_oidc.Text.{txt, ◌==◌, Text, mem}
use mock_oidc.Assoc.{Assoc, lookup, insert, lookup-insert-other, lookup-insert-same}
use mock_oidc.Entra.Lookup.{member_groups, group_meta, tenant}
use mock_oidc.Oauth2.Request.{Library}
use mock_oidc.Entra.Types.{Config, Group, Tenant, User}
use mock_oidc.Entra.Directory.{
  DirGroup, dir_group, group_ids_of, groups_of, named_once, sort_groups,
}
use mock_oidc.Sorting.{any-sort_by, sort_by}
use mock_oidc.Text.Laws.{==-refl, eq_iff}

-- Exactly one of three shapes, by the number of the account's groups.
pub record IsGroupClaim (d : Digest) (i : TokenInput) (c : Assoc Claim) : Type 0 where
  pub groups : lookup (txt "groups") c ≡ (
      if is_empty (member_groups i.user)
        || ltb_ℤ i.tenant.group_limit (pos (length (member_groups i.user)))
      then none
      else some (texts (group_values d i.tenant (member_groups i.user))))
  pub markers : lookup (txt "_claim_names") c ≡ (
      if not (is_empty (member_groups i.user))
        && ltb_ℤ i.tenant.group_limit (pos (length (member_groups i.user)))
      then some overage_names
      else none)
  pub endpoint : lookup (txt "_claim_sources") c ≡ (
      if not (is_empty (member_groups i.user))
        && ltb_ℤ i.tenant.group_limit (pos (length (member_groups i.user)))
      then some (overage_source (overage_endpoint i))
      else none)

-- The claims before addGroups have none of the three.
ungrouped :
    (d : Digest) (i : TokenInput) (c : Assoc Claim)
    → lookup (txt "groups") c ≡ none
    → lookup (txt "_claim_names") c ≡ none
    → lookup (txt "_claim_sources") c ≡ none
    → IsGroupClaim d i (add_groups d i c)
unfolding add_groups txt ◌==◌
ungrouped d i c p q r =
    let src = overage_source (overage_endpoint i) in
    let marked = insert (txt "_claim_names") overage_names c in
    let vs = texts (group_values d i.tenant (member_groups i.user)) in
    elim (Bool-cases (is_empty (member_groups i.user))) [
      | inl e ↦ record { groups = rw e p; markers = rw e q; endpoint = rw e r }
      | inr e ↦
          elim (Bool-cases (ltb_ℤ i.tenant.group_limit (pos (length (member_groups i.user))))) [
            | inl f ↦ record {
              groups =
                  rw (e, f)
                    (lookup-insert-other (txt "_claim_sources") (txt "groups") src marked refl
                      ∙ lookup-insert-other (txt "_claim_names") (txt "groups") overage_names c refl
                      ∙ p);
              markers =
                  rw (e, f)
                    (lookup-insert-other (txt "_claim_sources") (txt "_claim_names") src marked refl
                      ∙ lookup-insert-same (txt "_claim_names") overage_names c);
              endpoint = rw (e, f) (lookup-insert-same (txt "_claim_sources") src marked);
            }
            | inr f ↦ record {
              groups = rw (e, f) (lookup-insert-same (txt "groups") vs c);
              markers =
                  rw (e, f) (lookup-insert-other (txt "groups") (txt "_claim_names") vs c refl ∙ q);
              endpoint =
                  rw (e, f)
                    (lookup-insert-other (txt "groups") (txt "_claim_sources") vs c refl ∙ r);
            }
          ]
    ]

access-IsGroupClaim :
    (d : Digest) (lib : Library) (uti : Text) (i : TokenInput)
    → IsGroupClaim d i (access_token_claims d lib uti i)
unfolding base_claims fixed_claims txt ◌==◌
access-IsGroupClaim d lib uti i =
    let none_yet : Apart (txt "groups") personal_names =
      (refl, (refl, (refl, (refl, (refl, (refl, (refl, tt))))))) in
    let own : Apart (txt "groups") own_names = (refl, (refl, (refl, (refl, tt)))) in
    let b =
      ungrouped d i (personal lib uti i) (personal-fixed lib uti i (txt "groups") none_yet)
        (personal-fixed lib uti i (txt "_claim_names") none_yet)
        (personal-fixed lib uti i (txt "_claim_sources") none_yet) in
    record {
      groups = access-base d lib uti i (txt "groups") own ∙ b.groups;
      markers = access-base d lib uti i (txt "_claim_names") own ∙ b.markers;
      endpoint = access-base d lib uti i (txt "_claim_sources") own ∙ b.endpoint;
    }

-- The group has no object id of its own.
abbrev pub Undeclared : Group → Type 0
Undeclared g = is_empty g.oid ≡ true

found-Undeclared :
    (n : Text) (m : Group) (gs : List Group)
    → All Undeclared gs
    → find? (λ (g : Group). g.name == n) gs ≡ some m
    → Undeclared m
found-Undeclared n m [] h k = cc k
found-Undeclared n m (g ∷ gs) (p, h) k = elim (Bool-cases (g.name == n)) [
  | inl e ↦ subst Undeclared (some-eq (rw e at k)) p
  | inr e ↦ found-Undeclared n m gs h (rw e at k)
]

dir_group-oid :
    (d : Digest) (t : Tenant) (n : Text)
    → All Undeclared t.groups
    → (dir_group d t n).oid ≡ group_object_id d t.tid n
unfolding dir_group group_meta
dir_group-oid d t n h = elim (Option-cases (group_meta t n)) [
  | inl e ↦ rw e refl
  | inr (m, e) ↦ rw (e, found-Undeclared n m t.groups h e) refl
]

mem-any :
    (p : Text → Bool) (n : Text) (ns : List Text) → mem n ns ≡ true → p n ≡ true → any p ns ≡ true
unfolding mem
mem-any p n [] h k = cc h
mem-any p n (m ∷ ns) h k = elim (Bool-cases (m == n)) [
  | inl e ↦ let same : m ≡ n = (eq_iff m n).0 e in rw (same, k) refl
  | inr e ↦ rw (mem-any p n ns (rw e at h) k) (ground arith)
]

any-named_once :
    (p : Text → Bool) (seen names : List Text)
    → All (λ n. is_empty n ≡ false) names
    → (any p (named_once seen names) || any p seen) ≡ (any p names || any p seen)
unfolding named_once
any-named_once p seen [] h = refl
any-named_once p seen (n ∷ names) (q, h) = elim (Bool-cases (mem n seen)) [
  | inl e ↦ elim (Bool-cases (p n)) [
    | inl f ↦ rw (q, e, f, mem-any p n seen e f) (ground arith)
    | inr f ↦ rw (q, e, f) (any-named_once p seen names h)
  ]
  | inr e ↦ let rest = any-named_once p (n ∷ seen) names h in rw (q, e) (ground (arith, rest))
]

any-map {ℓ κ} :
    {A : Type ℓ} {B : Type κ} (p : B → Bool) (f : A → B) (xs : List A)
    → any p (map f xs) ≡ any (λ x. p (f x)) xs
any-map p f [] = refl
any-map p f (x ∷ xs) = rw (any-map p f xs) refl

or_false : (b : Bool) → b ≡ (b || false)
or_false b = ground arith

any-agree {ℓ} :
    {A : Type ℓ} (p q : A → Bool) (xs : List A) → ((x : A) → p x ≡ q x) → any p xs ≡ any q xs
any-agree p q [] h = refl
any-agree p q (x ∷ xs) h = rw (h x, any-agree p q xs h) refl

mem-group_ids_of :
    (d : Digest) (c : Config) (u : User) (t : Tenant) (id : Text)
    → tenant c u.tid ≡ some t
    → All Undeclared t.groups
    → All (λ n. is_empty n ≡ false) (member_groups u)
    → mem id (group_ids_of d c u) ≡ mem id (map (group_object_id d t.tid) (member_groups u))
unfolding group_ids_of groups_of sort_groups mem
mem-group_ids_of d c u t id h k n =
    let names = named_once [] (member_groups u) in
    let is_id : Text → Bool = λ s. s == id in
    let derived : Text → Bool = λ s. group_object_id d t.tid s == id in
    rw h (
      any-map is_id (λ (g : DirGroup). g.oid)
        (sort_by (λ (g : DirGroup). g.oid) (map (dir_group d t) names))
      ∙ any-sort_by (λ (g : DirGroup). g.oid) (λ (g : DirGroup). g.oid == id)
          (map (dir_group d t) names)
      ∙ any-map (λ (g : DirGroup). g.oid == id) (dir_group d t) names
      ∙ any-agree (λ s. (dir_group d t s).oid == id) derived names
          (λ s. ap is_id (dir_group-oid d t s k))
      ∙ or_false (any derived names)
      ∙ any-named_once derived [] (member_groups u) n
      ∙ sym (or_false (any derived (member_groups u)))
      ∙ sym (any-map is_id (group_object_id d t.tid) (member_groups u)))

object_ids :
    (d : Digest) (t : Tenant) (gs : List Text)
    → t.group_claim_format ≡ txt "object_id"
    → group_values d t gs ≡ map (group_object_id d t.tid) gs
unfolding group_values
object_ids d t gs h = rw (h, ==-refl (txt "object_id")) refl

-- If an access token of a tenant with the group claim format object_id has a groups claim, then the ids in
-- it are those that the Graph surface gives for the account's groups, and there is no overage marker. No
-- group of the tenant declares an object id of its own, and no group of the account has an empty name.
pub groups_claim-group_ids_of :
    (d : Digest) (lib : Library) (uti : Text) (i : TokenInput) (c : Config) (v : Claim)
    → tenant c i.user.tid ≡ some i.tenant
    → i.tenant.group_claim_format ≡ txt "object_id"
    → All Undeclared i.tenant.groups
    → All (λ n. is_empty n ≡ false) (member_groups i.user)
    → lookup (txt "groups") (access_token_claims d lib uti i) ≡ some v
    → (ids : List Text) × (v ≡ texts ids)
      × ((id : Text) → mem id ids ≡ mem id (group_ids_of d c i.user))
      × (lookup (txt "_claim_names") (access_token_claims d lib uti i) ≡ none)
      × (lookup (txt "_claim_sources") (access_token_claims d lib uti i) ≡ none)
groups_claim-group_ids_of d lib uti i c v home format undeclared named h =
    let r = access-IsGroupClaim d lib uti i in
    let gs = member_groups i.user in
    let claim = sym h ∙ r.groups in
    elim (Bool-cases (is_empty gs)) [
      | inl e ↦ cc (rw e at claim)
      | inr e ↦ elim (Bool-cases (ltb_ℤ i.tenant.group_limit (pos (length gs)))) [
        | inl f ↦ cc (rw (e, f) at claim)
        | inr f ↦ (
          map (group_object_id d i.tenant.tid) gs,
          some-eq (rw (e, f) at claim) ∙ ap texts (object_ids d i.tenant gs format),
          λ id. sym (mem-group_ids_of d c i.user i.tenant id home undeclared named),
          rw (e, f) at r.markers,
          rw (e, f) at r.endpoint,
        )
      ]
    ]
