-- ===== src/Entra/Authorize/Issued.antt =====
-- What stands behind a code that a sign-in has stored.
use mock_oidc.Prelude.{
  ℕ, Option-cases, some, sym, inr, ap, ◌≡◌, ◌&&◌, not, Bool-cases, false, inl, ◌+◌, none, some-eq,
  Option, refl, ◌||◌, Result, ok, err,
}
use mock_oidc.Oauth2.Authrequest.{AuthRequest, parse_auth_request}
use mock_oidc.Entra.Authorize.{
  issue_code, choose, authorize_get, AuthHints, authorize_parsed, refused_request, silent,
  authorize_checked, forces_picker, resolved, hint_matches, read_hints,
}
use mock_oidc.Entra.Handler.{Scope, put, Handler, AuthCode, code_ttl, Response}
use mock_oidc.Oauth2.Request.{Library, Request, OauthError}
use mock_oidc.Text.{Text, ◌==◌, txt}
use mock_oidc.Entra.Types.{User, Tenant}
use mock_oidc.Assoc.{lookup}
use mock_oidc.Entra.Lookup.{tenant}
use mock_oidc.Entra.Consents.{has}
use mock_oidc.Text.Laws.{==-refl}

-- The account, the tenant and the consent behind a stored code.
pub record IsIssued (ar : AuthRequest) (sc : Scope) (now : ℕ) (h : Handler) (c : AuthCode)
    (u : User) (t : Tenant) : Type 0 where
  pub request : c.req ≡ ar
  pub account : c.username ≡ u.username
  pub tenant_id : c.tid ≡ t.tid
  pub path : c.segment ≡ sc.segment
  pub until : c.expires ≡ now + code_ttl
  pub home : tenant h.conf u.tid ≡ some t
  pub signed_in : (u.error == txt "interaction_required") ≡ false
  pub assigned : (u.error == txt "access_denied") ≡ false
  pub consented : (t.consent_required && not (has ar.client_id t.tid h.consents)) ≡ false

pub issue_code-stored :
    (lib : Library) (code : Text) (ar : AuthRequest) (sc : Scope) (now : ℕ) (h : Handler) (u : User)
    (c : AuthCode)
    → lookup code h.codes ≡ none
    → lookup code (issue_code lib code ar sc now h.conf u h).1.codes ≡ some c
    → (t : Tenant) × IsIssued ar sc now h c u t
unfolding issue_code put
issue_code-stored lib code ar sc now h u c n k =
    elim (Bool-cases (u.error == txt "interaction_required")) [
      | inl e ↦ cc (n, rw (e, issue_code) at k)
      | inr e ↦ elim (Bool-cases (u.error == txt "access_denied")) [
        | inl f ↦ cc (n, rw (e, f, issue_code) at k)
        | inr f ↦ elim (Option-cases (tenant h.conf u.tid)) [
          | inl g ↦ cc (n, rw (e, f, g, issue_code) at k)
          | inr (t, g) ↦
              elim (Bool-cases (t.consent_required && not (has ar.client_id t.tid h.consents))) [
                | inl m ↦ cc (n, rw (e, f, g, m, issue_code) at k)
                | inr m ↦
                    let same = some-eq (rw (e, f, g, m, issue_code, put, ==-refl code) at k) in
                    (
                      t,
                      record {
                        request = ap (λ (x : AuthCode). x.req) (sym same);
                        account = ap (λ (x : AuthCode). x.username) (sym same);
                        tenant_id = ap (λ (x : AuthCode). x.tid) (sym same);
                        path = ap (λ (x : AuthCode). x.segment) (sym same);
                        until = ap (λ (x : AuthCode). x.expires) (sym same);
                        home = g;
                        signed_in = e;
                        assigned = f;
                        consented = m;
                      },
                    )
              ]
        ]
      ]
    ]

-- A step of either authorize handler that stored the code, and what it had checked.
abbrev pub Stored : Library → Request → Scope → ℕ → Handler → AuthCode → User → Type 0
Stored lib r sc now h c u =
    (ar : AuthRequest) × (t : Tenant) × (parse_auth_request r.query ≡ ok ar)
    × (refused_request lib ar ≡ none)
    × IsIssued ar sc now h c u t

choose-stored :
    (lib : Library) (code : Text) (r : Request) (ar : AuthRequest) (sc : Scope) (now : ℕ)
    (hints : AuthHints) (o : Option User) (h : Handler) (c : AuthCode)
    → lookup code h.codes ≡ none
    → lookup code (choose lib code r ar sc now hints o h).1.codes ≡ some c
    → (u : User) × (t : Tenant) × (o ≡ some u) × IsIssued ar sc now h c u t
unfolding choose
choose-stored lib code r ar sc now hints none h c n k = elim (Bool-cases (silent hints)) [
  | inl e ↦ cc (n, rw (e, choose) at k)
  | inr e ↦ cc (n, rw (e, choose) at k)
]
choose-stored lib code r ar sc now hints (some u) h c n k =
    elim (Bool-cases (silent hints || not (forces_picker hints))) [
      | inl e ↦
          let (t, i) = issue_code-stored lib code ar sc now h u c n (rw (e, choose) at k) in
          (u, t, refl, i)
      | inr e ↦ cc (n, rw (e, choose) at k)
    ]

-- If a GET on the authorize endpoint stores a code that was not stored, then the request parsed, it asks
-- for the code flow in a supported mode, the account is the only one that the hint names, and the stored
-- record is that account's, for this request and path and for ten minutes: the account has no injected
-- interaction_required or access_denied, and its tenant exists, with consent for the client where it
-- demands consent.
pub authorize_get-IsIssued :
    (lib : Library) (code : Text) (r : Request) (sc : Scope) (now : ℕ) (h : Handler) (c : AuthCode)
    → lookup code h.codes ≡ none
    → lookup code (authorize_get lib code r sc now h).1.codes ≡ some c
    → (u : User) × (resolved h.conf.ignore_login_hint (hint_matches h.conf sc (read_hints r))
        ≡ some u)
      × Stored lib r sc now h c u
unfolding authorize_get authorize_parsed authorize_checked
authorize_get-IsIssued lib code r sc now h c n k = go (parse_auth_request r.query) refl k
  where
    checked :
        (ar : AuthRequest) (o : Option Response)
        → parse_auth_request r.query ≡ ok ar
        → refused_request lib ar ≡ o
        → lookup code (authorize_checked lib code r ar sc now h o).1.codes ≡ some c
        → (u : User) × (resolved h.conf.ignore_login_hint (hint_matches h.conf sc (read_hints r))
            ≡ some u)
          × Stored lib r sc now h c u
    checked ar (some res) e f k = cc
    checked ar none e f k =
        let (u, t, one, i) =
          choose-stored lib code r ar sc now (read_hints r)
            (resolved h.conf.ignore_login_hint (hint_matches h.conf sc (read_hints r))) h c n k in
        (u, one, (ar, t, e, f, i))

    go :
        (p : Result OauthError AuthRequest)
        → parse_auth_request r.query ≡ p
        → lookup code (authorize_parsed lib code r sc now h p).1.codes ≡ some c
        → (u : User) × (resolved h.conf.ignore_login_hint (hint_matches h.conf sc (read_hints r))
            ≡ some u)
          × Stored lib r sc now h c u
    go (err x) e k = cc
    go (ok ar) e k = checked ar (refused_request lib ar) e refl k
