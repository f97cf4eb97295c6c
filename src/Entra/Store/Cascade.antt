-- ===== src/Entra/Store/Cascade.antt =====
-- Deleting a tenant of internal/entra/store.go, with what belongs to it.
use mock_oidc.Prelude.{
  ok-injective, ◌∙◌, ◌≡◌, List, Result, filter, sym, find?, ◌∷◌, any, inr, >>=-eq-ok, ap, refl,
  false, map, subst, [], err, not, Bool-cases, ok, none, ◌>>=◌, guard, All, inl,
}
use mock_oidc.Text.{Text, ◌==◌, lower, trim_space}
use mock_oidc.Text.Laws.{lower_idem}
use mock_oidc.Entra.Types.{Config, Tenant, User, Consent}
use mock_oidc.Entra.Errors.{ConfigError, not_found}
use mock_oidc.Entra.Guid.{Digest}
use mock_oidc.Entra.Lookup.{tenant}
use mock_oidc.Entra.Wellformed.{IsWellFormed}
use mock_oidc.Entra.Normalize.{normalize, tids_of}
use mock_oidc.Entra.Normalize.Keys.{
  norm, user_tids, consent_tids, normalize-SameIds, AreGuids, AreGuids-norm, IsWellFormed-AreGuids,
}
use mock_oidc.Entra.Normalize.Fixed.{IsNormal, own_users, normalize-own, users-IsNormal}
use mock_oidc.Entra.Guid.Stable.{is_guid-stable}
use mock_oidc.Entra.Store.{Store, publish, mutate, execute, tenant_deleted, delete_tenant, norm_tid}

-- No entry has the id.
abbrev pub Without : Text → List Text → Type 0
Without tid ids = All (λ x. (x == tid) ≡ false) ids

module _ {A : Type 0} (id : A → Text) (tid : Text) where
  abbrev kept : List A → List A
  kept xs = filter (λ x. not (id x == tid)) xs

  kept-All {κ} : (P : A → Type κ) (xs : List A) → All P xs → All P (kept xs)
  kept-All P [] h = tt
  kept-All P (x ∷ xs) (p, h) = elim (Bool-cases (id x == tid)) [
    | inl e ↦ rw e (kept-All P xs h)
    | inr e ↦ rw e (p, kept-All P xs h)
  ]

  kept-Without : (xs : List A) → Without tid (map id (kept xs))
  kept-Without [] = tt
  kept-Without (x ∷ xs) = elim (Bool-cases (id x == tid)) [
    | inl e ↦ rw e (kept-Without xs)
    | inr e ↦ rw e (e, kept-Without xs)
  ]

  kept-AreGuids : (xs : List A) → AreGuids (map id xs) → AreGuids (map id (kept xs))
  kept-AreGuids [] h = tt
  kept-AreGuids (x ∷ xs) (p, h) = elim (Bool-cases (id x == tid)) [
    | inl e ↦ rw e (kept-AreGuids xs h)
    | inr e ↦ rw e (p, kept-AreGuids xs h)
  ]

  -- The normalized ids of what was kept.
  norm-kept : (xs : List A) → AreGuids (map id xs) → map norm (map id (kept xs)) ≡ map id (kept xs)
  norm-kept xs h = AreGuids-norm (map id (kept xs)) (kept-AreGuids xs h)

find?-Without :
    (tid : Text) (ts : List Tenant)
    → Without tid (tids_of ts)
    → find? (λ (t : Tenant). t.tid == tid) ts ≡ none
find?-Without tid [] h = refl
find?-Without tid (t ∷ ts) (p, h) = rw p (find?-Without tid ts h)

tenant-none :
    (c : Config) (tid : Text)
    → lower tid ≡ tid
    → Without tid (tids_of c.tenants)
    → tenant c tid ≡ none
unfolding tenant
tenant-none c tid e h = rw e (find?-Without tid c.tenants h)

norm_tid-lower : (tid : Text) → lower (norm_tid tid) ≡ norm_tid tid
unfolding norm_tid
norm_tid-lower tid = lower_idem (trim_space tid)

abbrev IsTrimmed : Consent → Type 0
IsTrimmed x = norm x.tid ≡ x.tid

consents-IsTrimmed : (cs : List Consent) → AreGuids (consent_tids cs) → All IsTrimmed cs
consents-IsTrimmed [] h = tt
consents-IsTrimmed (c ∷ cs) (p, h) = (is_guid-stable c.tid p, consents-IsTrimmed cs h)

mutate-ok :
    (d : Digest) (fn : Config → Result ConfigError Config) (s : Store)
    → (mutate d fn s).0 ≡ none
    → (c : Config) × (fn s.cur ≡ ok c) × (normalize d c ≡ ok (mutate d fn s).1.cur)
unfolding mutate
mutate-ok d fn s h = go (fn s.cur >>= normalize d) refl h
  where
    go :
        (r : Result ConfigError Config)
        → (fn s.cur >>= normalize d) ≡ r
        → (publish s r).0 ≡ none
        → (c : Config) × (fn s.cur ≡ ok c) × (normalize d c ≡ ok (publish s r).1.cur)
    go (err e) k n = cc
    go (ok c') k n = >>=-eq-ok (fn s.cur) (normalize d) k

-- The configuration without the entries of a tenant, as it is before it is normalized.
abbrev pub without : Text → Config → Config
without tid c = record c {
  tenants = filter (λ (t : Tenant). not (t.tid == tid)) c.tenants;
  users = filter (λ (u : User). not (u.tid == tid)) c.users;
  consents = filter (λ (x : Consent). not (x.tid == tid)) c.consents;
}

-- The state after a deletion, against the one before it.
pub record IsCascade (d : Digest) (tid : Text) (before after : Config) : Type 0 where
  pub gone : tenant after tid ≡ none
  pub no_user : Without tid (user_tids after.users)
  pub no_consent : Without tid (consent_tids after.consents)
  pub others :
      tids_of after.tenants ≡ tids_of (filter (λ (t : Tenant). not (t.tid == tid)) before.tenants)
  pub other_users :
      own_users after.users ≡ own_users (filter (λ (u : User). not (u.tid == tid)) before.users)
  pub other_consents : after.consents ≡ filter (λ (x : Consent). not (x.tid == tid)) before.consents
  pub rest : normalize d (without tid before) ≡ ok after

-- If the snapshot is well-formed and deleting a tenant succeeds, the new snapshot has no tenant, no
-- user and no consent with its id. It has the ids of all other tenants, all other consents, and all
-- other users with everything of theirs but the principal name, the manager, the directory roles and
-- the dynamic groups, in their order; as a whole it is the normal form of the old snapshot without the
-- tenants, users and consents of that id.
pub tenant_deleted-IsCascade :
    (d : Digest) (s : Store) (tid : Text)
    → IsWellFormed s.cur
    → (execute d (tenant_deleted tid) s).0 ≡ none
    → IsCascade d (norm_tid tid) s.cur (execute d (tenant_deleted tid) s).1.cur
unfolding execute delete_tenant
tenant_deleted-IsCascade d s tid w h =
    let id : Text = norm_tid tid in
    let (c, e, k) = mutate-ok d (delete_tenant id) s h in
    let (_, _, e₁) =
      >>=-eq-ok (guard (any (λ (t : Tenant). t.tid == id) s.cur.tenants) not_found) _ e in
    let same = normalize-SameIds d c _ k in
    let (gt, gu, gc) = IsWellFormed-AreGuids s.cur w in
    let edited = ok-injective e₁ in
    let normal = users-IsNormal (tids_of s.cur.tenants) s.cur.users gt w.users in
    let (consents, users) =
      normalize-own d c _
        (subst (λ (x : Config). All IsNormal x.users) edited
          (kept-All (λ (u : User). u.tid) id IsNormal s.cur.users normal))
        (subst (λ (x : Config). All IsTrimmed x.consents) edited
          (kept-All (λ (x : Consent). x.tid) id IsTrimmed s.cur.consents
            (consents-IsTrimmed s.cur.consents gc)))
        k in
    let ts : tids_of (mutate d (delete_tenant id) s).1.cur.tenants
        ≡ tids_of (kept (λ (t : Tenant). t.tid) id s.cur.tenants) =
      same.tenants
      ∙ ap (λ (x : Config). map norm (tids_of x.tenants)) (sym edited)
      ∙ norm-kept (λ (t : Tenant). t.tid) id s.cur.tenants gt in
    let us : user_tids (mutate d (delete_tenant id) s).1.cur.users
        ≡ user_tids (kept (λ (u : User). u.tid) id s.cur.users) =
      same.users
      ∙ ap (λ (x : Config). map norm (user_tids x.users)) (sym edited)
      ∙ norm-kept (λ (u : User). u.tid) id s.cur.users gu in
    let cs : consent_tids (mutate d (delete_tenant id) s).1.cur.consents
        ≡ consent_tids (kept (λ (x : Consent). x.tid) id s.cur.consents) =
      same.consents
      ∙ ap (λ (x : Config). map norm (consent_tids x.consents)) (sym edited)
      ∙ norm-kept (λ (x : Consent). x.tid) id s.cur.consents gc in
    record {
      gone =
          tenant-none _ id (norm_tid-lower tid)
            (subst (Without id) (sym ts) (kept-Without (λ (t : Tenant). t.tid) id s.cur.tenants));
      no_user = subst (Without id) (sym us) (kept-Without (λ (u : User). u.tid) id s.cur.users);
      no_consent =
          subst (Without id) (sym cs) (kept-Without (λ (x : Consent). x.tid) id s.cur.consents);
      others = ts;
      other_users = users ∙ ap (λ (x : Config). own_users x.users) (sym edited);
      other_consents = consents ∙ ap (λ (x : Config). x.consents) (sym edited);
      rest = ap (λ (x : Config). normalize d x) edited ∙ k;
    }
