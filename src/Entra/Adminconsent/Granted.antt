-- ===== src/Entra/Adminconsent/Granted.antt =====
-- Who can give a client consent.
use mock_oidc.Prelude.{
  true, inr, false, and-true, inl, ◌≡◌, sym, refl, ok, none, ◌⊎◌, Option-cases, some, Bool-cases,
  ◌∙◌, Result-cases, ◌&&◌, arith,
}
use mock_oidc.Entra.Lookup.{tenant, user}
use mock_oidc.Oauth2.Request.{Request, Library, form_param, query_param}
use mock_oidc.Entra.Authorize.{posted_user}
use mock_oidc.Entra.Adminconsent.{admin_consent_post, decide, require_consent_params, answer_post}
use mock_oidc.Entra.Handler.{Scope, Handler}
use mock_oidc.Entra.Types.{User, Tenant}
use mock_oidc.Text.{Text, txt, ◌==◌, lower}
use mock_oidc.Entra.Consents.{grant, has}
use mock_oidc.Entra.Consents.Keys.{NoBar}
use mock_oidc.Entra.Consents.Relation.{grant-has}
use mock_oidc.Text.Laws.{eq_iff}
use mock_oidc.Entra.Authorize.Posted.{posted_user-some}

-- The posted account is an administrator of the tenant, who did not cancel.
pub record IsAccepted (r : Request) (sc : Scope) (h : Handler) (t : Tenant) : Type 0 where
  pub account : User
  pub posted : user h.conf (form_param (txt "tid") r) (form_param (txt "username") r) ≡ some account
  pub admin : account.admin ≡ true
  pub home : tenant h.conf account.tid ≡ some t
  pub not_cancelled : (form_param (txt "action") r == txt "cancel") ≡ false
  pub complete : require_consent_params r ≡ none

-- What a post to the page does to the consents: it is an acceptance, or it does nothing.
abbrev Outcome : Library → Request → Scope → Handler → Type 0
Outcome lib r sc h =
    ((t : Tenant) × IsAccepted r sc h t
      × ((admin_consent_post lib r sc h).1.consents
          ≡ grant (query_param (txt "client_id") r) t.tid h.consents))
    ⊎ ((admin_consent_post lib r sc h).1 ≡ h)

decided-Outcome :
    (lib : Library) (r : Request) (sc : Scope) (h : Handler) (u : User)
    → require_consent_params r ≡ none
    → (form_param (txt "action") r == txt "cancel") ≡ false
    → posted_user h.conf r sc ≡ ok u
    → Outcome lib r sc h
unfolding admin_consent_post answer_post decide
decided-Outcome lib r sc h u e f p = elim (Bool-cases u.admin) [
  | inr a ↦ inr (rw (e, f, p, a) refl)
  | inl a ↦ elim (Option-cases (tenant h.conf u.tid)) [
    | inl g ↦ inr (rw (e, f, p, a, g) refl)
    | inr (t, g) ↦ inl (
      t,
      record {
        account = u;
        posted = posted_user-some h.conf r sc u p;
        admin = a;
        home = g;
        not_cancelled = f;
        complete = e;
      },
      rw (e, f, p, a, g) refl,
    )
  ]
]

outcome : (lib : Library) (r : Request) (sc : Scope) (h : Handler) → Outcome lib r sc h
unfolding admin_consent_post answer_post decide
outcome lib r sc h = elim (Option-cases (require_consent_params r)) [
  | inr (e', e) ↦ inr (rw e refl)
  | inl e ↦ elim (Bool-cases (form_param (txt "action") r == txt "cancel")) [
    | inl f ↦ inr (rw (e, f) refl)
    | inr f ↦ elim (Result-cases (posted_user h.conf r sc)) [
      | inl (x, p) ↦ inr (rw (e, f, p) refl)
      | inr (u, p) ↦ decided-Outcome lib r sc h u e f p
    ]
  ]
]

-- If a post to the admin consent page gives a client consent in a tenant where it had none, it names
-- that client, and an administrator of that tenant accepted it without cancelling. The ids of the
-- configured tenants, and the tenant asked about, are free of bars.
pub admin_consent_post-IsAccepted :
    (lib : Library) (r : Request) (sc : Scope) (h : Handler) (client tid : Text)
    → ((seg : Text) (t : Tenant) → tenant h.conf seg ≡ some t → NoBar (lower t.tid))
    → NoBar (lower tid)
    → has client tid h.consents ≡ false
    → has client tid (admin_consent_post lib r sc h).1.consents ≡ true
    → (t : Tenant) × IsAccepted r sc h t
      × (lower t.tid ≡ lower tid)
      × (query_param (txt "client_id") r ≡ client)
admin_consent_post-IsAccepted lib r sc h client tid bars bar before after =
    elim (outcome lib r sc h) [
      | inr same ↦ cc (rw (same, before) at after)
      | inl (t, a, g) ↦
          let e =
            sym (
              grant-has h.consents (query_param (txt "client_id") r) t.tid client tid
                (bars a.account.tid t a.home) bar)
            ∙ (rw g at after) in
          let both : (query_param (txt "client_id") r == client && lower t.tid == lower tid)
              ≡ true =
            ground (arith, e, before) in
          let (p, q) =
            and-true (query_param (txt "client_id") r == client) (lower t.tid == lower tid) both in
          (
            t,
            a,
            (eq_iff (lower t.tid) (lower tid)).0 q,
            (eq_iff (query_param (txt "client_id") r) client).0 p,
          )
    ]
