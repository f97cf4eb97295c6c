-- ===== src/Entra/Authorize/Posted.antt =====
-- What stands behind a code that a posted account has stored.
use mock_oidc.Entra.Lookup.{user}
use mock_oidc.Prelude.{
  ℕ, Bool-cases, ok, ◌∙◌, inr, some, ◌≡◌, refl, ◌&&◌, ap, true, Bool, ◌||◌, inl, Option-cases, not,
  Option, is_empty, sym, none, ok-injective, Result-cases,
}
use mock_oidc.Entra.Authorize.{
  posted_user, submit, post_checked, authorize_post, post_parsed, refused_request,
}
use mock_oidc.Entra.Types.{User, Config, Tenant}
use mock_oidc.Oauth2.Request.{Library, Request, form_param}
use mock_oidc.Text.{◌==◌, Text, txt}
use mock_oidc.Entra.Handler.{Scope, Handler, AuthCode, Response}
use mock_oidc.Oauth2.Authrequest.{AuthRequest, parse_auth_request}
use mock_oidc.Text.Laws.{eq_iff}
use mock_oidc.Assoc.{lookup}
use mock_oidc.Entra.Authorize.Issued.{Stored, IsIssued, issue_code-stored}

-- Where the path names a tenant, the account is one of that tenant.
abbrev pub InPath : Option Tenant → User → Type 0
InPath none u = Unit {0}
InPath (some t) u = u.tid ≡ t.tid

posted_user-InPath :
    (c : Config) (r : Request) (sc : Scope) (u : User)
    → posted_user c r sc ≡ ok u
    → InPath sc.tenant u
unfolding posted_user
posted_user-InPath c r sc u h =
    elim (Option-cases (user c (form_param (txt "tid") r) (form_param (txt "username") r))) [
      | inl e ↦ cc (rw (e, posted_user) at h)
      | inr (v, e) ↦ elim (Option-cases sc.tenant) [
        | inl f ↦ rw f tt
        | inr (t, f) ↦ elim (Bool-cases (v.tid == t.tid)) [
          | inl g ↦
              let same : v ≡ u = ok-injective (rw (e, f, g, posted_user) at h) in
              rw f (ap (λ (x : User). x.tid) (sym same) ∙ (eq_iff v.tid t.tid).0 g)
          | inr g ↦ cc (rw (e, f, g, posted_user) at h)
        ]
      ]
    ]

pub posted_user-some :
    (c : Config) (r : Request) (sc : Scope) (u : User)
    → posted_user c r sc ≡ ok u
    → user c (form_param (txt "tid") r) (form_param (txt "username") r) ≡ some u
unfolding posted_user
posted_user-some c r sc u h =
    elim (Option-cases (user c (form_param (txt "tid") r) (form_param (txt "username") r))) [
      | inl e ↦ cc (rw (e, posted_user) at h)
      | inr (v, e) ↦ elim (Option-cases sc.tenant) [
        | inl f ↦ e ∙ ap (λ x. some x) (ok-injective (rw (e, f, posted_user) at h))
        | inr (t, f) ↦ elim (Bool-cases (v.tid == t.tid)) [
          | inl g ↦ e ∙ ap (λ x. some x) (ok-injective (rw (e, f, g, posted_user) at h))
          | inr g ↦ cc (rw (e, f, g, posted_user) at h)
        ]
      ]
    ]

-- A passkey account is asked for its passkey, unless it has an injected error.
abbrev pub passkey_pending : User → Bool
passkey_pending u = u.mfa == txt "passkey" && is_empty u.error

submit-stored :
    (lib : Library) (code : Text) (r : Request) (ar : AuthRequest) (sc : Scope) (now : ℕ)
    (h : Handler) (u : User) (c : AuthCode)
    → lookup code h.codes ≡ none
    → lookup code (submit lib code r ar sc now h (ok u)).1.codes ≡ some c
    → ((form_param (txt "action") r == txt "passkey-approve" || not (passkey_pending u)) ≡ true)
      × (t : Tenant) × IsIssued ar sc now h c u t
unfolding submit
submit-stored lib code r ar sc now h u c n k =
    elim (Bool-cases (form_param (txt "action") r == txt "passkey-approve")) [
      | inl e ↦
          let (t, i) = issue_code-stored lib code ar sc now h u c n (rw (e, submit) at k) in
          (rw e refl, t, i)
      | inr e ↦ elim (Bool-cases (form_param (txt "action") r == txt "passkey-deny")) [
        | inl f ↦ cc (n, rw (e, f, submit) at k)
        | inr f ↦ elim (Bool-cases (passkey_pending u)) [
          | inl g ↦ cc (n, rw (e, f, g, submit) at k)
          | inr g ↦
              let (t, i) =
                issue_code-stored lib code ar sc now h u c n (rw (e, f, g, submit) at k) in
              (rw (e, g) refl, t, i)
        ]
      ]
    ]

-- The account that the form names, and what its code was stored for.
abbrev pub Posted : Library → Request → Scope → ℕ → Handler → AuthCode → Type 0
Posted lib r sc now h c =
    (u : User) × (user h.conf (form_param (txt "tid") r) (form_param (txt "username") r) ≡ some u)
    × InPath sc.tenant u
    × ((form_param (txt "action") r == txt "passkey-approve" || not (passkey_pending u)) ≡ true)
    × Stored lib r sc now h c u

post_checked-stored :
    (lib : Library) (code : Text) (r : Request) (ar : AuthRequest) (sc : Scope) (now : ℕ)
    (h : Handler) (c : AuthCode) (o : Option Response)
    → lookup code h.codes ≡ none
    → parse_auth_request r.query ≡ ok ar
    → refused_request lib ar ≡ o
    → lookup code (post_checked lib code r ar sc now h o).1.codes ≡ some c
    → Posted lib r sc now h c
unfolding post_checked submit
post_checked-stored lib code r ar sc now h c (some res) n e f k = cc
post_checked-stored lib code r ar sc now h c none n e f k =
    elim (Result-cases (posted_user h.conf r sc)) [
      | inl (x, p) ↦ cc (n, rw (p, post_checked, submit) at k)
      | inr (u, p) ↦
          let (a, t, i) = submit-stored lib code r ar sc now h u c n (rw (p, post_checked) at k) in
          (
            u,
            posted_user-some h.conf r sc u p,
            posted_user-InPath h.conf r sc u p,
            a,
            (ar, t, e, f, i),
          )
    ]

-- If a POST on the authorize endpoint stores a code that was not stored, then the stored record is for
-- the account that the form names, for this request and path and for ten minutes. That account is in the
-- tenant of the path, where the path has one; it has no injected interaction_required or access_denied,
-- its tenant exists, with consent for the client where it demands consent, and if it has a passkey and no
-- injected error, the passkey was approved. The request parsed, and asks for the code flow in a supported
-- mode.
pub authorize_post-IsIssued :
    (lib : Library) (code : Text) (r : Request) (sc : Scope) (now : ℕ) (h : Handler) (c : AuthCode)
    → lookup code h.codes ≡ none
    → lookup code (authorize_post lib code r sc now h).1.codes ≡ some c
    → Posted lib r sc now h c
unfolding authorize_post post_parsed
authorize_post-IsIssued lib code r sc now h c n k =
    elim (Result-cases (parse_auth_request r.query)) [
      | inl (x, e) ↦ cc (n, rw (e, authorize_post, post_parsed) at k)
      | inr (ar, e) ↦
          post_checked-stored lib code r ar sc now h c (refused_request lib ar) n e refl
            (rw (e, authorize_post, post_parsed) at k)
    ]
