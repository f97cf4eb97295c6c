-- ===== src/Entra/Normalize/Fixed.antt =====
-- What `normalize` leaves of a user and of a consent that are already in normal form.
use mock_oidc.Prelude.{
  ◌∙◌, arith, All, List, ℤ, map, ◌≡◌, [], refl, is_empty, subst, pos, >>=-eq-ok, ok, not, guard,
  true, false, ◌||◌, refuse, ◌∷◌, ok-injective, ap,
}
use mock_oidc.Text.{Text, txt, lower, trim_slash, mem, ◌==◌}
use mock_oidc.Entra.Types.{Config, User, Consent}
use mock_oidc.Entra.Errors.{
  consent_incomplete, bad_base_path, no_tenants, user_without_name, user_unknown_tid,
  duplicate_username, bad_user_error, bad_mfa, oid_not_a_guid,
}
use mock_oidc.Entra.Guid.{is_guid, is_base_path, Digest}
use mock_oidc.Entra.Guid.Stable.{is_guid-lower, is_guid-stable}
use mock_oidc.Entra.Graphconfig.{normalize_graph, or_default, or_text}
use mock_oidc.Entra.Normalize.{
  normalize, normalize_tenants, normalize_apps, normalize_consents, normalize_user, normalize_users,
  normalize_wids, resolve_manager, resolve_managers, evaluate_users, finish, keys_of, tids_of,
  user_key, injectable_errors,
}
use mock_oidc.Entra.Normalize.Managers.{AllEvaluates, done, next, evaluate_users_lem}
use mock_oidc.Entra.Normalize.Keys.{norm, AreGuids, All-mem}
use mock_oidc.Entra.Wellformed.{IsUser}

-- A user but for the entries that depend on the other users or on rules, and those that are trimmed.
abbrev pub own : User → User
own u = record u { upn = []; manager = []; wids = []; dynamic_groups = [] }

pub record IsNormal (u : User) : Type 0 where
  pub tid : norm u.tid ≡ u.tid
  pub oid : is_guid u.oid ≡ true
  pub named : is_empty u.name ≡ false

or_text-kept : (s t : Text) → is_empty s ≡ false → or_text s t ≡ s
or_text-kept s t h = rw h refl

guid_not_empty : (s : Text) → is_guid s ≡ true → is_empty s ≡ false
unfolding is_guid
guid_not_empty [] h = cc h
guid_not_empty (c ∷ s) h = refl

normalize_user-own :
    (d : Digest) (tids seen : List Text) (u u' : User)
    → IsNormal u
    → normalize_user d tids seen u ≡ ok u'
    → own u' ≡ own u
unfolding normalize_user
normalize_user-own d tids seen u u' n h =
    let tid : Text = norm u.tid in
    let oid : Text = lower u.oid in
    let (_, _, h₁) = >>=-eq-ok (refuse (is_empty u.username) user_without_name) _ h in
    let (_, _, h₂) = >>=-eq-ok (guard (mem tid tids) (user_unknown_tid u.username tid)) _ h₁ in
    let (_, _, h₃) =
      >>=-eq-ok (refuse (mem (user_key tid u.username) seen) (duplicate_username u.username tid)) _
        h₂ in
    let (_, _, h₄) =
      >>=-eq-ok (guard (mem u.error injectable_errors) (bad_user_error u.username)) _ h₃ in
    let (_, _, h₅) =
      >>=-eq-ok (guard (is_empty u.mfa || u.mfa == txt "passkey") (bad_mfa u.username)) _ h₄ in
    let (_, _, h₆) =
      >>=-eq-ok (guard (is_empty oid || is_guid oid) (oid_not_a_guid u.username)) _ h₅ in
    let (wids, _, h₇) = >>=-eq-ok (normalize_wids u.username u.wids) _ h₆ in
    let low = is_guid-lower u.oid n.oid in
    let full = guid_not_empty u.oid n.oid in
    subst (λ (x : User). own x ≡ own u) (ok-injective h₇) (rw (n.tid, low, full, n.named) refl)

abbrev pub own_users : List User → List User
own_users us = map own us

normalize_users-own :
    (d : Digest) (tids seen : List Text) (us us' : List User)
    → All IsNormal us
    → normalize_users d tids seen us ≡ ok us'
    → own_users us' ≡ own_users us
unfolding normalize_users
normalize_users-own d tids seen [] us' n h = ground arith
normalize_users-own d tids seen (u ∷ us) us' (p, n) h =
    let (u₁, e, h₁) = >>=-eq-ok (normalize_user d tids seen u) _ h in
    let (us₁, e₁, h₂) =
      >>=-eq-ok (normalize_users d tids (user_key u₁.tid u₁.username ∷ seen) us) _ h₁ in
    subst (λ l. own_users l ≡ own_users (u ∷ us)) (ok-injective h₂)
      (cc (
        normalize_user-own d tids seen u u₁ p e,
        normalize_users-own d tids (user_key u₁.tid u₁.username ∷ seen) us us₁ n e₁,
      ))

resolve_manager-own :
    (c : Config) (keys : List Text) (u u' : User)
    → resolve_manager c keys u ≡ ok u'
    → own u' ≡ own u
unfolding resolve_manager
resolve_manager-own c keys u u' h = ground arith

resolve_managers-own :
    (c : Config) (keys : List Text) (us us' : List User)
    → resolve_managers c keys us ≡ ok us'
    → own_users us' ≡ own_users us
unfolding resolve_managers
resolve_managers-own c keys [] us' h = ground arith
resolve_managers-own c keys (u ∷ us) us' h =
    let (u₁, e, h₁) = >>=-eq-ok (resolve_manager c keys u) _ h in
    let (us₁, e₁, h₂) = >>=-eq-ok (resolve_managers c keys us) _ h₁ in
    subst (λ l. own_users l ≡ own_users (u ∷ us)) (ok-injective h₂)
      (cc (resolve_manager-own c keys u u₁ e, resolve_managers-own c keys us us₁ e₁))

evaluated-own :
    (c : Config) {us vs : List User} → AllEvaluates c us vs → own_users vs ≡ own_users us
evaluated-own c done = refl
evaluated-own c (next {u = u} {v = v} e es) =
    let same : own v ≡ own u = ap own e.result in cc (same, evaluated-own c es)

normalize_consents-kept :
    (tids : List Text) (cs cs' : List Consent)
    → All (λ (c : Consent). norm c.tid ≡ c.tid) cs
    → normalize_consents tids cs ≡ ok cs'
    → cs' ≡ cs
unfolding normalize_consents
normalize_consents-kept tids [] cs' n h = ground arith
normalize_consents-kept tids (c ∷ cs) cs' (p, n) h =
    let bad = is_empty c.client_id || not (mem (norm c.tid) tids) in
    let (_, e, h₁) = >>=-eq-ok (refuse bad consent_incomplete) _ h in
    let (rest, e₁, h₂) = >>=-eq-ok (normalize_consents tids cs) _ h₁ in
    subst (λ (l : List Consent). l ≡ c ∷ cs) (ok-injective h₂)
      (rw (p, normalize_consents-kept tids cs rest n e₁) refl)

finish-own :
    (c c' : Config)
    → finish c ≡ ok c'
    → (c'.consents ≡ c.consents) × (own_users c'.users ≡ own_users c.users)
unfolding finish
finish-own c c' h =
    let (ms, e₁, h₁) = >>=-eq-ok (resolve_managers c (keys_of c.users) c.users) _ h in
    let managed : Config = record c { users = ms } in
    let (vs, e₂, h₂) = >>=-eq-ok (evaluate_users managed ms) _ h₁ in
    subst (λ (x : Config). (x.consents ≡ c.consents) × (own_users x.users ≡ own_users c.users))
      (ok-injective h₂)
      (
        refl,
        evaluated-own managed (evaluate_users_lem managed ms vs e₂)
            ∙ resolve_managers-own c (keys_of c.users) c.users ms e₁,
      )

-- The users and the consents of a configuration whose users and consents are in normal form.
pub normalize-own :
    (d : Digest) (c c' : Config)
    → All IsNormal c.users
    → All (λ (x : Consent). norm x.tid ≡ x.tid) c.consents
    → normalize d c ≡ ok c'
    → (c'.consents ≡ c.consents) × (own_users c'.users ≡ own_users c.users)
unfolding normalize
normalize-own d c c' nu nc h =
    let base : Text = or_text (trim_slash c.base_path) (txt "entra") in
    let limit : ℤ = or_default c.default_group_limit (pos 200) in
    let (_, e₁, h₁) = >>=-eq-ok (guard (is_base_path base) (bad_base_path base)) _ h in
    let (g, e₂, h₂) = >>=-eq-ok (normalize_graph base c.graph) _ h₁ in
    let (_, e₃, h₃) = >>=-eq-ok (refuse (is_empty c.tenants) no_tenants) _ h₂ in
    let (ts, e₄, h₄) = >>=-eq-ok (normalize_tenants limit [] c.tenants) _ h₃ in
    let (apps, e₅, h₅) = >>=-eq-ok (normalize_apps (tids_of ts) c.apps) _ h₄ in
    let (cs, e₆, h₆) = >>=-eq-ok (normalize_consents (tids_of ts) c.consents) _ h₅ in
    let (us, e₇, h₇) = >>=-eq-ok (normalize_users d (tids_of ts) [] c.users) _ h₆ in
    let (a, b) = finish-own _ c' h₇ in
    (
      a ∙ normalize_consents-kept (tids_of ts) c.consents cs nc e₆,
      b ∙ normalize_users-own d (tids_of ts) [] c.users us nu e₇,
    )

pub users-IsNormal :
    (tids : List Text) (us : List User) → AreGuids tids → All (IsUser tids) us → All IsNormal us
users-IsNormal tids [] g h = tt
users-IsNormal tids (u ∷ us) g (p, h) = (
  record {
    tid = is_guid-stable u.tid (All-mem (λ t. is_guid t ≡ true) u.tid tids p.tenant g);
    oid = p.oid;
    named = p.display;
  },
  users-IsNormal tids us g h,
)
