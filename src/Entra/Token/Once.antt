-- ===== src/Entra/Token/Once.antt =====
-- The redemptions of one authorization code, among sign-ins and changes of the configuration.
use mock_oidc.Prelude.{
  ℕ, Bool-cases, ◌∙◌, ap, List, ◌&&◌, ◌+◌, Result, if◌then◌else◌, ◌≤◌, ◌∷◌, Bool, not, inl, arith,
  refl, sym, subst, ok, and-true, ◌≡◌, ltb, false, true, filter, inr, All, [], err, ◌≢◌, none,
}
use mock_oidc.Text.{Text, ◌==◌, trim_space, txt}
use mock_oidc.Entra.Handler.{
  Response, put, take_code, failed, Scope, Handler, redirected, AuthCode, picker, passkey, issued,
  app_issued, panicked,
}
use mock_oidc.Entra.Guid.{Digest}
use mock_oidc.Entra.Token.{exchange, token}
use mock_oidc.Oauth2.Request.{Request, OauthError, Library, form_param}
use mock_oidc.Oauth2.Tokenrequest.{TokenRequest, parse_token_request}
use mock_oidc.Assoc.{lookup, lookup-filter}
use mock_oidc.Entra.Types.{Config}
use mock_oidc.Entra.Token.Guards.{token-IsRedeemed}
use mock_oidc.Entra.Graphconfig.{app_only_on}
use mock_oidc.Text.Laws.{eq_iff}

-- A /token request, a code stored by a sign-in, or a new snapshot of the configuration.
pub data Event : Type 0 where
  posted : Text → Request → Scope → ℕ → Event
  signed_in : Text → AuthCode → ℕ → Event
  configured : Config → Event

abbrev pub is_issued : Response → Bool
is_issued (failed e) = false
is_issued (redirected uri f) = false
is_issued (picker s ts) = false
is_issued (passkey u) = false
is_issued (issued ts) = true
is_issued (app_issued n c) = false
is_issued panicked = false

abbrev presented : Text → Result OauthError TokenRequest → Bool
presented k (ok tr) = tr.code == k
presented k (err e) = false

abbrev pub state_after : Digest → Library → Event → Handler → Handler
state_after d lib (posted uti r sc now) h = (token d lib uti r sc now h).1
state_after d lib (signed_in code c now) h = record h { codes = put code c now h.codes }
state_after d lib (configured conf) h = record h { conf = conf }

-- The event answers tokens for the code.
abbrev pub redeems : Digest → Library → Text → Event → Handler → Bool
redeems d lib k (posted uti r sc now) h =
    is_issued (token d lib uti r sc now h).0 && presented k (parse_token_request lib r)
redeems d lib k (signed_in code c now) h = false
redeems d lib k (configured conf) h = false

-- How often the code is redeemed.
unfoldable pub redemptions : Digest → Library → Text → List Event → Handler → ℕ
redemptions d lib k [] h = 0
redemptions d lib k (e ∷ es) h =
    (if redeems d lib k e h then 1 else 0) + redemptions d lib k es (state_after d lib e h)

-- No sign-in draws the code again.
abbrev pub Fresh : Text → Event → Type 0
Fresh k (posted uti r sc now) = Unit
Fresh k (signed_in code c now) = (code == k) ≡ false
Fresh k (configured conf) = Unit

exchange-none :
    (d : Digest) (lib : Library) (uti : Text) (r : Request) (sc : Scope) (now : ℕ) (h : Handler)
    (p : Result OauthError TokenRequest) (k : Text)
    → lookup k h.codes ≡ none
    → lookup k (exchange d lib uti r sc now h p).1.codes ≡ none
unfolding exchange take_code
exchange-none d lib uti r sc now h (err e) k n = n
exchange-none d lib uti r sc now h (ok tr) k n =
    lookup-filter (λ p. not (p.0 == tr.code)) k h.codes n

token-none :
    (d : Digest) (lib : Library) (uti : Text) (r : Request) (sc : Scope) (now : ℕ) (h : Handler)
    (k : Text)
    → lookup k h.codes ≡ none
    → lookup k (token d lib uti r sc now h).1.codes ≡ none
unfolding token
token-none d lib uti r sc now h k n =
    let gt : Text = trim_space (form_param (txt "grant_type") r) in
    elim (Bool-cases (gt == txt "authorization_code")) [
      | inl e ↦ rw e (exchange-none d lib uti r sc now h (parse_token_request lib r) k n)
      | inr e ↦ elim (Bool-cases (gt == txt "client_credentials" && app_only_on h.conf)) [
        | inl f ↦ rw (e, f) n
        | inr f ↦ rw (e, f) n
      ]
    ]

after-none :
    (d : Digest) (lib : Library) (k : Text) (e : Event) (h : Handler)
    → Fresh k e
    → lookup k h.codes ≡ none
    → lookup k (state_after d lib e h).codes ≡ none
unfolding put
after-none d lib k (posted uti r sc now) h f n = token-none d lib uti r sc now h k n
after-none d lib k (signed_in code c now) h f n = rw f (
    lookup-filter (λ (p : Text × AuthCode). not (p.0 == code)) k
      (filter (λ (p : Text × AuthCode). not (ltb p.1.expires now)) h.codes)
      (lookup-filter (λ (p : Text × AuthCode). not (ltb p.1.expires now)) k h.codes n))
after-none d lib k (configured conf) h f n = n

-- A redemption finds the code stored, and leaves it out of the store.
redeems-spends :
    (d : Digest) (lib : Library) (k : Text) (e : Event) (h : Handler)
    → redeems d lib k e h ≡ true
    → (lookup k h.codes ≢ none) × (lookup k (state_after d lib e h).codes ≡ none)
redeems-spends d lib k (signed_in code c now) h r = cc
redeems-spends d lib k (configured conf) h r = cc
redeems-spends d lib k (posted uti r sc now) h t =
    let (a, b) = and-true (is_issued (token d lib uti r sc now h).0) _ t in
    go (token d lib uti r sc now h).0 refl a b
  where
    go :
        (res : Response)
        → (token d lib uti r sc now h).0 ≡ res
        → is_issued res ≡ true
        → presented k (parse_token_request lib r) ≡ true
        → (lookup k h.codes ≢ none) × (lookup k (token d lib uti r sc now h).1.codes ≡ none)
    go (failed x) e a b = cc
    go (redirected x f) e a b = cc
    go (picker x f) e a b = cc
    go (passkey u) e a b = cc
    go (app_issued n c) e a b = cc
    go panicked e a b = cc
    go (issued ts) e a b =
        let (tr, c, u, p, i) = token-IsRedeemed d lib uti r sc now h ts e in
        let same : tr.code ≡ k = (eq_iff tr.code k).0 (ap (λ x. presented k x) (sym p) ∙ b) in
        (
          λ n. cc (i.stored, n, same),
          subst (λ (x : Text). lookup x (token d lib uti r sc now h).1.codes ≡ none) same i.spent,
        )

redemptions-none :
    (d : Digest) (lib : Library) (k : Text) (es : List Event) (h : Handler)
    → All (Fresh k) es
    → lookup k h.codes ≡ none
    → redemptions d lib k es h ≡ 0
unfolding redemptions
redemptions-none d lib k [] h f n = refl
redemptions-none d lib k (e ∷ es) h (p, f) n = elim (Bool-cases (redeems d lib k e h)) [
  | inl t ↦ elim ((redeems-spends d lib k e h t).0 n) [ ]
  | inr t ↦ rw t (
      omega
        (arith, redemptions-none d lib k es (state_after d lib e h) f (after-none d lib k e h p n)))
]

-- If no sign-in in the sequence draws the code (a drawn code is random), then at most one of its events
-- answers tokens for the code, whatever codes are stored at the start and whatever requests, sign-ins and
-- changes of the configuration are interleaved.
pub redeemed_once :
    (d : Digest) (lib : Library) (k : Text) (es : List Event) (h : Handler)
    → All (Fresh k) es
    → redemptions d lib k es h ≤ 1
unfolding redemptions
redeemed_once d lib k [] h f = omega arith
redeemed_once d lib k (e ∷ es) h (p, f) = elim (Bool-cases (redeems d lib k e h)) [
  | inl t ↦
      rw (t, redemptions-none d lib k es (state_after d lib e h) f (redeems-spends d lib k e h t).1)
        (omega arith)
  | inr t ↦ rw t (omega (arith, redeemed_once d lib k es (state_after d lib e h) f))
]
