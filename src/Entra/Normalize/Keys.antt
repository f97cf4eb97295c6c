-- ===== src/Entra/Normalize/Keys.antt =====
-- The ids of the entries under `normalize`.
use mock_oidc.Prelude.{
  ◌∙◌, inl, arith, All, List, ℤ, map, or-true, ◌≡◌, [], refl, is_empty, subst, pos, >>=-eq-ok, ok,
  not, guard, inr, true, ◌||◌, refuse, ◌∷◌, ok-injective, ap,
}
use mock_oidc.Text.{Text, txt, lower, trim_space, trim_slash, mem, ◌==◌}
use mock_oidc.Text.Laws.{eq_iff}
use mock_oidc.Entra.Types.{Config, Tenant, User, Consent}
use mock_oidc.Entra.Errors.{consent_incomplete, bad_base_path, no_tenants}
use mock_oidc.Entra.Guid.{is_guid, is_base_path, Digest}
use mock_oidc.Entra.Guid.Stable.{is_guid-stable}
use mock_oidc.Entra.Graphconfig.{normalize_graph, or_default, or_text}
use mock_oidc.Entra.Normalize.{
  normalize, normalize_tenant, normalize_tenants, normalize_apps, normalize_consents,
  normalize_user, normalize_users, resolve_manager, resolve_managers, evaluate_users, finish,
  keys_of, tids_of, user_key,
}
use mock_oidc.Entra.Normalize.Managers.{AllEvaluates, done, next, evaluate_users_lem}
use mock_oidc.Entra.Wellformed.{IsWellFormed, IsTenant, IsUser, IsConsent}

abbrev pub norm : Text → Text
norm tid = lower (trim_space tid)

abbrev pub user_tids : List User → List Text
user_tids us = map (λ (u : User). u.tid) us

abbrev pub consent_tids : List Consent → List Text
consent_tids cs = map (λ (c : Consent). c.tid) cs

normalize_tenant-tid :
    (limit : ℤ) (seen : List Text) (t t' : Tenant)
    → normalize_tenant limit seen t ≡ ok t'
    → t'.tid ≡ norm t.tid
unfolding normalize_tenant
normalize_tenant-tid limit seen t t' h = ground arith

normalize_tenants-tids :
    (limit : ℤ) (seen : List Text) (ts ts' : List Tenant)
    → normalize_tenants limit seen ts ≡ ok ts'
    → tids_of ts' ≡ map norm (tids_of ts)
unfolding normalize_tenants
normalize_tenants-tids limit seen [] ts' h = ground arith
normalize_tenants-tids limit seen (t ∷ ts) ts' h =
    let (t₁, e, h₁) = >>=-eq-ok (normalize_tenant limit seen t) _ h in
    let (ts₁, e₁, h₂) = >>=-eq-ok (normalize_tenants limit (t₁.tid ∷ seen) ts) _ h₁ in
    subst (λ l. tids_of l ≡ map norm (tids_of (t ∷ ts))) (ok-injective h₂)
      (cc (
        normalize_tenant-tid limit seen t t₁ e,
        normalize_tenants-tids limit (t₁.tid ∷ seen) ts ts₁ e₁,
      ))

normalize_consents-tids :
    (tids : List Text) (cs cs' : List Consent)
    → normalize_consents tids cs ≡ ok cs'
    → consent_tids cs' ≡ map norm (consent_tids cs)
unfolding normalize_consents
normalize_consents-tids tids [] cs' h = ground arith
normalize_consents-tids tids (c ∷ cs) cs' h =
    let bad = is_empty c.client_id || not (mem (norm c.tid) tids) in
    let (_, e, h₁) = >>=-eq-ok (refuse bad consent_incomplete) _ h in
    let (rest, e₁, h₂) = >>=-eq-ok (normalize_consents tids cs) _ h₁ in
    subst (λ l. consent_tids l ≡ map norm (consent_tids (c ∷ cs))) (ok-injective h₂)
      (cc (normalize_consents-tids tids cs rest e₁))

normalize_user-tid :
    (d : Digest) (tids seen : List Text) (u u' : User)
    → normalize_user d tids seen u ≡ ok u'
    → u'.tid ≡ norm u.tid
unfolding normalize_user
normalize_user-tid d tids seen u u' h = ground arith

normalize_users-tids :
    (d : Digest) (tids seen : List Text) (us us' : List User)
    → normalize_users d tids seen us ≡ ok us'
    → user_tids us' ≡ map norm (user_tids us)
unfolding normalize_users
normalize_users-tids d tids seen [] us' h = ground arith
normalize_users-tids d tids seen (u ∷ us) us' h =
    let (u₁, e, h₁) = >>=-eq-ok (normalize_user d tids seen u) _ h in
    let (us₁, e₁, h₂) =
      >>=-eq-ok (normalize_users d tids (user_key u₁.tid u₁.username ∷ seen) us) _ h₁ in
    subst (λ l. user_tids l ≡ map norm (user_tids (u ∷ us))) (ok-injective h₂)
      (cc (
        normalize_user-tid d tids seen u u₁ e,
        normalize_users-tids d tids (user_key u₁.tid u₁.username ∷ seen) us us₁ e₁,
      ))

resolve_manager-tid :
    (c : Config) (keys : List Text) (u u' : User)
    → resolve_manager c keys u ≡ ok u'
    → u'.tid ≡ u.tid
unfolding resolve_manager
resolve_manager-tid c keys u u' h = ground arith

resolve_managers-tids :
    (c : Config) (keys : List Text) (us us' : List User)
    → resolve_managers c keys us ≡ ok us'
    → user_tids us' ≡ user_tids us
unfolding resolve_managers
resolve_managers-tids c keys [] us' h = ground arith
resolve_managers-tids c keys (u ∷ us) us' h =
    let (u₁, e, h₁) = >>=-eq-ok (resolve_manager c keys u) _ h in
    let (us₁, e₁, h₂) = >>=-eq-ok (resolve_managers c keys us) _ h₁ in
    subst (λ l. user_tids l ≡ user_tids (u ∷ us)) (ok-injective h₂)
      (cc (resolve_manager-tid c keys u u₁ e, resolve_managers-tids c keys us us₁ e₁))

evaluated-tids :
    (c : Config) {us vs : List User} → AllEvaluates c us vs → user_tids vs ≡ user_tids us
evaluated-tids c done = refl
evaluated-tids c (next {u = u} {v = v} e es) =
    let same : v.tid ≡ u.tid = ap (λ (x : User). x.tid) e.result in cc (same, evaluated-tids c es)

-- The ids of a configuration and those of its normal form.
pub record SameIds (c c' : Config) : Type 0 where
  pub tenants : tids_of c'.tenants ≡ map norm (tids_of c.tenants)
  pub users : user_tids c'.users ≡ map norm (user_tids c.users)
  pub consents : consent_tids c'.consents ≡ map norm (consent_tids c.consents)

finish-tids :
    (c c' : Config)
    → finish c ≡ ok c'
    → (c'.tenants ≡ c.tenants)
      × (c'.consents ≡ c.consents)
      × (user_tids c'.users ≡ user_tids c.users)
unfolding finish
finish-tids c c' h =
    let (ms, e₁, h₁) = >>=-eq-ok (resolve_managers c (keys_of c.users) c.users) _ h in
    let managed : Config = record c { users = ms } in
    let (vs, e₂, h₂) = >>=-eq-ok (evaluate_users managed ms) _ h₁ in
    subst
      (λ (x : Config).
        (x.tenants ≡ c.tenants)
        × (x.consents ≡ c.consents)
        × (user_tids x.users ≡ user_tids c.users))
      (ok-injective h₂)
      (
        refl,
        refl,
        evaluated-tids managed (evaluate_users_lem managed ms vs e₂)
            ∙ resolve_managers-tids c (keys_of c.users) c.users ms e₁,
      )

pub normalize-SameIds : (d : Digest) (c c' : Config) → normalize d c ≡ ok c' → SameIds c c'
unfolding normalize
normalize-SameIds d c c' h =
    let base : Text = or_text (trim_slash c.base_path) (txt "entra") in
    let limit : ℤ = or_default c.default_group_limit (pos 200) in
    let (_, e₁, h₁) = >>=-eq-ok (guard (is_base_path base) (bad_base_path base)) _ h in
    let (g, e₂, h₂) = >>=-eq-ok (normalize_graph base c.graph) _ h₁ in
    let (_, e₃, h₃) = >>=-eq-ok (refuse (is_empty c.tenants) no_tenants) _ h₂ in
    let (ts, e₄, h₄) = >>=-eq-ok (normalize_tenants limit [] c.tenants) _ h₃ in
    let (apps, e₅, h₅) = >>=-eq-ok (normalize_apps (tids_of ts) c.apps) _ h₄ in
    let (cs, e₆, h₆) = >>=-eq-ok (normalize_consents (tids_of ts) c.consents) _ h₅ in
    let (us, e₇, h₇) = >>=-eq-ok (normalize_users d (tids_of ts) [] c.users) _ h₆ in
    let (a, b, k) = finish-tids _ c' h₇ in
    record {
      tenants = ap tids_of a ∙ normalize_tenants-tids limit [] c.tenants ts e₄;
      users = k ∙ normalize_users-tids d (tids_of ts) [] c.users us e₇;
      consents = ap consent_tids b ∙ normalize_consents-tids (tids_of ts) c.consents cs e₆;
    }

-- A property of every text of a list holds of one that is found in it.
pub All-mem : (P : Text → Type 0) (s : Text) (l : List Text) → mem s l ≡ true → All P l → P s
unfolding mem
All-mem P s [] m h = cc
All-mem P s (t ∷ l) m (p, h) = elim (or-true (t == s) (mem s l) m) [
  | inl e ↦ subst P ((eq_iff t s).0 e) p
  | inr e ↦ All-mem P s l e h
]

abbrev pub AreGuids : List Text → Type 0
AreGuids tids = All (λ tid. is_guid tid ≡ true) tids

pub AreGuids-norm : (tids : List Text) → AreGuids tids → map norm tids ≡ tids
AreGuids-norm [] h = refl
AreGuids-norm (t ∷ ts) (p, h) = cc (is_guid-stable t p, AreGuids-norm ts h)

tenants-AreGuids : (ts : List Tenant) → All IsTenant ts → AreGuids (tids_of ts)
tenants-AreGuids [] h = tt
tenants-AreGuids (t ∷ ts) (p, h) = (p.guid, tenants-AreGuids ts h)

users-AreGuids :
    (tids : List Text) (us : List User)
    → AreGuids tids
    → All (IsUser tids) us
    → AreGuids (user_tids us)
users-AreGuids tids [] g h = tt
users-AreGuids tids (u ∷ us) g (p, h) =
    (All-mem (λ t. is_guid t ≡ true) u.tid tids p.tenant g, users-AreGuids tids us g h)

consents-AreGuids :
    (tids : List Text) (cs : List Consent)
    → AreGuids tids
    → All (IsConsent tids) cs
    → AreGuids (consent_tids cs)
consents-AreGuids tids [] g h = tt
consents-AreGuids tids (c ∷ cs) g (p, h) =
    (All-mem (λ t. is_guid t ≡ true) c.tid tids p.tenant g, consents-AreGuids tids cs g h)

-- All ids of a well-formed configuration are GUIDs.
pub IsWellFormed-AreGuids :
    (c : Config)
    → IsWellFormed c
    → AreGuids (tids_of c.tenants)
      × AreGuids (user_tids c.users)
      × AreGuids (consent_tids c.consents)
IsWellFormed-AreGuids c w =
    let g = tenants-AreGuids c.tenants w.tenants in
    (
      g,
      users-AreGuids (tids_of c.tenants) c.users g w.users,
      consents-AreGuids (tids_of c.tenants) c.consents g w.consents,
    )
