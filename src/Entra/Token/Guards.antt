-- ===== src/Entra/Token/Guards.antt =====
-- What a redemption has checked.
use mock_oidc.Prelude.{
  ℕ, none, guard-ok, Option, ok-injective, ◌⊎◌, guard, subst, neither-false, refuse-ok, refl,
  refuse, ◌≡◌, ok, ltb, >>=-eq-ok, true, false, not, some, ◌&&◌, arith, Result, ◌≢◌, inr, inl, err,
  Option-cases, ◌||◌, Bool-cases, or-not-false,
}
use mock_oidc.Oauth2.Request.{
  Library, code_unknown, code_other_segment, code_other_client, code_other_redirect,
  code_verifier_mismatch, Request, OauthError, form_param,
}
use mock_oidc.Entra.Token.{check_code, pkce_ok, user, redeem, exchange, token}
use mock_oidc.Entra.Handler.{Scope, Handler, AuthCode, Tokens, issued, take_code}
use mock_oidc.Oauth2.Tokenrequest.{TokenRequest, parse_token_request}
use mock_oidc.Entra.Types.{User, Config}
use mock_oidc.Text.{◌==◌, txt, Text, trim_space}
use mock_oidc.Assoc.{lookup, lookup-delete-same}
use mock_oidc.Entra.Lookup.{enabled}
use mock_oidc.Text.Laws.{eq_iff}
use mock_oidc.Entra.Appcreds.{client_credentials, app_token}
use mock_oidc.Entra.Guid.{Digest}
use mock_oidc.Entra.Graphconfig.{app_only_on}

-- The facts behind an answer with tokens: the code, its record, and every check of it.
pub record IsRedeemed (lib : Library) (sc : Scope) (now : ℕ) (h h' : Handler) (tr : TokenRequest)
    (c : AuthCode) (u : User) : Type 0 where
  pub stored : lookup tr.code h.codes ≡ some c
  pub fresh : ltb c.expires now ≡ false
  pub segment : ((sc.segment == c.segment) ≡ true) ⊎ ((sc.segment == c.tid) ≡ true)
  pub client : tr.client_id ≡ c.req.client_id
  pub redirect : tr.redirect_uri ≡ c.req.redirect_uri
  pub verifier : pkce_ok lib c.req tr.code_verifier ≡ true
  pub found : user h.conf c.tid c.username ≡ some u
  pub usable : (enabled u ≡ true) × ((u.error == txt "invalid_grant") ≡ false)
  pub spent : lookup tr.code h'.codes ≡ none

check_code-ok :
    (lib : Library) (sc : Scope) (tr : TokenRequest) (now : ℕ) (o : Option AuthCode) (c : AuthCode)
    → check_code lib sc tr now o ≡ ok c
    → (o ≡ some c)
      × (ltb c.expires now ≡ false)
      × (((sc.segment == c.segment) ≡ true) ⊎ ((sc.segment == c.tid) ≡ true))
      × (tr.client_id ≡ c.req.client_id)
      × (tr.redirect_uri ≡ c.req.redirect_uri)
      × (pkce_ok lib c.req tr.code_verifier ≡ true)
unfolding check_code
check_code-ok lib sc tr now none c h = cc
check_code-ok lib sc tr now (some k) c h =
    let (_, e₁, h₁) = >>=-eq-ok (refuse (ltb k.expires now) code_unknown) _ h in
    let (_, e₂, h₂) =
      >>=-eq-ok
        (refuse (not (sc.segment == k.segment) && not (sc.segment == k.tid)) code_other_segment) _
        h₁ in
    let (_, e₃, h₃) = >>=-eq-ok (guard (tr.client_id == k.req.client_id) code_other_client) _ h₂ in
    let (_, e₄, h₄) =
      >>=-eq-ok (guard (tr.redirect_uri == k.req.redirect_uri) code_other_redirect) _ h₃ in
    let (_, e₅, h₅) =
      >>=-eq-ok (guard (pkce_ok lib k.req tr.code_verifier) code_verifier_mismatch) _ h₄ in
    subst
      (λ (x : AuthCode).
        (◌≡◌ {A = Option AuthCode} (some k) (some x))
        × (ltb x.expires now ≡ false)
        × (((sc.segment == x.segment) ≡ true) ⊎ ((sc.segment == x.tid) ≡ true))
        × (tr.client_id ≡ x.req.client_id)
        × (tr.redirect_uri ≡ x.req.redirect_uri)
        × (pkce_ok lib x.req tr.code_verifier ≡ true))
      (ok-injective h₅)
      (
        refl,
        refuse-ok _ _ e₁,
        neither-false _ _ (refuse-ok _ _ e₂),
        (eq_iff _ _).0 (guard-ok _ _ e₃),
        (eq_iff _ _).0 (guard-ok _ _ e₄),
        guard-ok _ _ e₅,
      )

client_credentials_issue_nothing :
    (r : Request) (sc : Scope) (cfg : Config) (now : ℕ) (ts : Tokens)
    → client_credentials r sc cfg now ≢ issued ts
unfolding client_credentials app_token
client_credentials_issue_nothing r sc cfg now ts h = ground arith

redeem-issued :
    (d : Digest) (lib : Library) (uti : Text) (cfg : Config) (r : Request) (now : ℕ)
    (res : Result OauthError AuthCode) (ts : Tokens)
    → redeem d lib uti cfg r now res ≡ issued ts
    → (c : AuthCode) × (u : User) × (res ≡ ok c)
      × (user cfg c.tid c.username ≡ some u)
      × (enabled u ≡ true)
      × ((u.error == txt "invalid_grant") ≡ false)
unfolding redeem
redeem-issued d lib uti cfg r now (err e) ts h = cc
redeem-issued d lib uti cfg r now (ok c) ts h = elim (Option-cases (user cfg c.tid c.username)) [
  | inl e ↦ cc (rw (e, redeem) at h)
  | inr (u, e) ↦ elim (Bool-cases (u.error == txt "invalid_grant" || not (enabled u))) [
    | inl bad ↦ cc (rw (e, bad, redeem) at h)
    | inr fine ↦ let (active, clean) = or-not-false _ _ fine in (c, u, refl, e, active, clean)
  ]
]

exchange-issued :
    (d : Digest) (lib : Library) (uti : Text) (r : Request) (sc : Scope) (now : ℕ) (h : Handler)
    (p : Result OauthError TokenRequest) (ts : Tokens)
    → (exchange d lib uti r sc now h p).0 ≡ issued ts
    → (tr : TokenRequest) × (c : AuthCode) × (u : User) × (p ≡ ok tr)
      × IsRedeemed lib sc now h (exchange d lib uti r sc now h p).1 tr c u
unfolding exchange take_code
exchange-issued d lib uti r sc now h (err e) ts k = cc
exchange-issued d lib uti r sc now h (ok tr) ts k =
    let (c, u, e, found, active, clean) =
      redeem-issued d lib uti h.conf r now (check_code lib sc tr now (lookup tr.code h.codes)) ts
        k in
    let (stored, fresh, segment, client, redirect, verifier) =
      check_code-ok lib sc tr now (lookup tr.code h.codes) c e in
    (
      tr,
      c,
      u,
      refl,
      record {
        stored = stored;
        fresh = fresh;
        segment = segment;
        client = client;
        redirect = redirect;
        verifier = verifier;
        found = found;
        usable = (active, clean);
        spent = lookup-delete-same tr.code h.codes;
      },
    )

-- If the /token endpoint answers with a user's tokens, the request parsed, its code was stored and not
-- expired, the path is the one the code was issued on or the account's tenant, the client and the
-- redirect URI are those the code was issued for, the code verifier passes PKCE, the account exists, is
-- enabled and has no injected invalid_grant, and the code is gone afterwards.
pub token-IsRedeemed :
    (d : Digest) (lib : Library) (uti : Text) (r : Request) (sc : Scope) (now : ℕ) (h : Handler)
    (ts : Tokens)
    → (token d lib uti r sc now h).0 ≡ issued ts
    → (tr : TokenRequest) × (c : AuthCode) × (u : User) × (parse_token_request lib r ≡ ok tr)
      × IsRedeemed lib sc now h (token d lib uti r sc now h).1 tr c u
unfolding token
token-IsRedeemed d lib uti r sc now h ts k =
    let gt : Text = trim_space (form_param (txt "grant_type") r) in
    elim (Bool-cases (gt == txt "authorization_code")) [
      | inl e ↦
          rw e (
            exchange-issued d lib uti r sc now h (parse_token_request lib r) ts
              (rw (e, token) at k))
      | inr e ↦ elim (Bool-cases (gt == txt "client_credentials" && app_only_on h.conf)) [
        | inl f ↦
            elim (client_credentials_issue_nothing r sc h.conf now ts (rw (e, f, token) at k)) [ ]
        | inr f ↦ cc (rw (e, f, token) at k)
      ]
    ]
