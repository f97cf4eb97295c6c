-- ===== src/Entra/Normalize/Users.antt =====
-- What normalizing the apps, the consents and the users establishes.
use mock_oidc.Prelude.{
  true, All, refuse-ok, guard-ok, >>=-eq-ok, ok-injective, arith, ◌≡◌, guard, false, refuse, [],
  is_empty, ◌∷◌, List, subst, ok, ◌||◌, not, Bool, ◌++◌,
}
use mock_oidc.Text.{Text, mem, lower, trim_space, ◌==◌, txt}
use mock_oidc.Entra.Types.{App, Consent, User}
use mock_oidc.Entra.Guid.{is_guid, Digest, oid_namespace, uuid_v5}
use mock_oidc.Entra.Guid.Derived.{IsSha1, uuid_v5-is_guid}
use mock_oidc.Entra.Normalize.{
  normalize_claims, normalize_apps, normalize_consents, normalize_wids, normalize_user,
  normalize_users, user_key, keys_of, injectable_errors,
}
use mock_oidc.Entra.Graphconfig.{or_text}
use mock_oidc.Entra.Normalize.Tenants.{or_text-nonempty}
use mock_oidc.Entra.Wellformed.{Distinct, Unseen, Unseen-cons, IsApp, IsConsent, IsUser}
use mock_oidc.Entra.Errors.{
  consent_incomplete, app_without_client_id, wid_not_a_guid, app_unknown_tid, user_without_name,
  user_unknown_tid, duplicate_username, bad_user_error, bad_mfa, oid_not_a_guid,
}

pub normalize_consents-IsConsent :
    (tids : List Text) (cs cs' : List Consent)
    → normalize_consents tids cs ≡ ok cs'
    → All (IsConsent tids) cs'
unfolding normalize_consents
normalize_consents-IsConsent tids [] cs' h = ground arith
normalize_consents-IsConsent tids (c ∷ cs) cs' h =
    let bad = is_empty c.client_id || not (mem (lower (trim_space c.tid)) tids) in
    let (_, e, h₁) = >>=-eq-ok (refuse bad consent_incomplete) _ h in
    let (rest, e₁, h₂) = >>=-eq-ok (normalize_consents tids cs) _ h₁ in
    let ready = refuse-ok bad consent_incomplete e in
    let head : IsConsent tids (record { client_id = c.client_id; tid = lower (trim_space c.tid) }) =
      record { client = ground arith; tenant = ground arith } in
    subst (λ l. All (IsConsent tids) l) (ok-injective h₂)
      (head, normalize_consents-IsConsent tids cs rest e₁)

pub normalize_apps-IsApp :
    (tids : List Text) (as' bs : List App) → normalize_apps tids as' ≡ ok bs → All (IsApp tids) bs
unfolding normalize_apps
normalize_apps-IsApp tids [] bs h = ground arith
normalize_apps-IsApp tids (a ∷ as') bs h =
    let client : Text = trim_space a.client_id in
    let tid : Text = lower (trim_space a.tid) in
    let (_, e, h₁) = >>=-eq-ok (refuse (is_empty client) app_without_client_id) _ h in
    let (_, e₁, h₂) =
      >>=-eq-ok (guard (is_empty tid || mem tid tids) (app_unknown_tid client tid)) _ h₁ in
    let (claims, _, h₃) = >>=-eq-ok (normalize_claims client [] a.claims) _ h₂ in
    let (rest, e₃, h₄) = >>=-eq-ok (normalize_apps tids as') _ h₃ in
    subst (λ l. All (IsApp tids) l) (ok-injective h₄)
      (
        record {
          client = refuse-ok (is_empty client) app_without_client_id e;
          tenant = guard-ok (is_empty tid || mem tid tids) (app_unknown_tid client tid) e₁;
        },
        normalize_apps-IsApp tids as' rest e₃,
      )

normalize_wids-guid :
    (name : Text) (ws vs : List Text)
    → normalize_wids name ws ≡ ok vs
    → All (λ w. is_guid w ≡ true) vs
unfolding normalize_wids
normalize_wids-guid name [] vs h = ground arith
normalize_wids-guid name (w ∷ ws) vs h =
    let w' : Text = lower (trim_space w) in
    let (_, e, h₁) = >>=-eq-ok (guard (is_guid w') (wid_not_a_guid name)) _ h in
    let (rest, e₁, h₂) = >>=-eq-ok (normalize_wids name ws) _ h₁ in
    subst (λ l. All (λ v. is_guid v ≡ true) l) (ok-injective h₂)
      (guard-ok (is_guid w') (wid_not_a_guid name) e, normalize_wids-guid name ws rest e₁)

or_text-is_guid :
    (s r : Text)
    → (is_empty s || is_guid s) ≡ true
    → is_guid r ≡ true
    → is_guid (or_text s r) ≡ true
or_text-is_guid [] r h k = k
or_text-is_guid (c ∷ s) r h k = h

normalize_user-IsUser :
    (d : Digest)
    → IsSha1 d
    → (tids seen : List Text) (u u' : User) → normalize_user d tids seen u ≡ ok u'
    → IsUser tids u' × (mem (user_key u'.tid u'.username) seen ≡ false)
unfolding normalize_user
normalize_user-IsUser d law tids seen u u' h =
    let tid : Text = lower (trim_space u.tid) in
    let oid : Text = lower u.oid in
    let derived : Text = uuid_v5 d oid_namespace (tid ++ (b':' ∷ u.username)) in
    let key : Text = user_key tid u.username in
    let known : Bool = mem u.error injectable_errors in
    let mfa : Bool = is_empty u.mfa || u.mfa == txt "passkey" in
    let (_, e₁, h₁) = >>=-eq-ok (refuse (is_empty u.username) user_without_name) _ h in
    let (_, e₂, h₂) = >>=-eq-ok (guard (mem tid tids) (user_unknown_tid u.username tid)) _ h₁ in
    let (_, e₃, h₃) = >>=-eq-ok (refuse (mem key seen) (duplicate_username u.username tid)) _ h₂ in
    let (_, e₄, h₄) = >>=-eq-ok (guard known (bad_user_error u.username)) _ h₃ in
    let (_, e₅, h₅) = >>=-eq-ok (guard mfa (bad_mfa u.username)) _ h₄ in
    let (_, e₆, h₆) =
      >>=-eq-ok (guard (is_empty oid || is_guid oid) (oid_not_a_guid u.username)) _ h₅ in
    let (ws, e₇, h₇) = >>=-eq-ok (normalize_wids u.username u.wids) _ h₆ in
    let named = refuse-ok (is_empty u.username) user_without_name e₁ in
    subst (λ (x : User). IsUser tids x × (mem (user_key x.tid x.username) seen ≡ false))
      (ok-injective h₇)
      (
        record {
          named = named;
          tenant = guard-ok (mem tid tids) (user_unknown_tid u.username tid) e₂;
          error = guard-ok known (bad_user_error u.username) e₄;
          mfa = guard-ok mfa (bad_mfa u.username) e₅;
          oid =
              or_text-is_guid oid derived
                (guard-ok (is_empty oid || is_guid oid) (oid_not_a_guid u.username) e₆)
                (uuid_v5-is_guid d law oid_namespace (tid ++ (b':' ∷ u.username)));
          display = or_text-nonempty u.name u.username named;
          wids = normalize_wids-guid u.username u.wids ws e₇;
        },
        refuse-ok (mem key seen) (duplicate_username u.username tid) e₃,
      )

pub normalize_users-IsUser :
    (d : Digest)
    → IsSha1 d
    → (tids seen : List Text) (us us' : List User) → normalize_users d tids seen us ≡ ok us'
    → All (IsUser tids) us' × Unseen seen (keys_of us') × Distinct (keys_of us')
unfolding normalize_users
normalize_users-IsUser d law tids seen [] us' h = ground arith
normalize_users-IsUser d law tids seen (u ∷ us) us' h =
    let (u₁, e, h₁) = >>=-eq-ok (normalize_user d tids seen u) _ h in
    let key : Text = user_key u₁.tid u₁.username in
    let (us₁, e₁, h₂) = >>=-eq-ok (normalize_users d tids (key ∷ seen) us) _ h₁ in
    let (p, q) = normalize_user-IsUser d law tids seen u u₁ e in
    let (a, v, w) = normalize_users-IsUser d law tids (key ∷ seen) us us₁ e₁ in
    let (x, y) = Unseen-cons key seen (keys_of us₁) v in
    subst (λ k. All (IsUser tids) k × Unseen seen (keys_of k) × Distinct (keys_of k))
      (ok-injective h₂) ((p, a), (q, x), (y, w))
