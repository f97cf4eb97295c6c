-- ===== src/Entra/Verify/Sound.antt =====
-- What stands behind an authenticated Graph caller.
use mock_oidc.Prelude.{
  ℕ, inl, some, true, ap, ok-injective, Option-cases, inr, ◌≡◌, ◌⊎◌, Option, is_empty, ok,
  Bool-cases, sym, none, false, some-eq, guard-ok, >>=-eq-ok, and-true, guard, ◌∙◌, refuse,
  refuse-ok, ◌&&◌,
}
use mock_oidc.Entra.Verify.{
  Jws, verify_jws, caller_in, Caller, Parts, claim_string, user_by_oid, expired, claim_time,
  too_early, validate_access_token, check_claims, invalid_token,
}
use mock_oidc.Entra.Keys.{KeySet, SigningKey, by_kid}
use mock_oidc.Entra.Types.{Config, Tenant, User}
use mock_oidc.Text.{Text, lower, txt, ◌==◌}
use mock_oidc.Assoc.{Assoc}
use mock_oidc.Entra.Claims.{Claim, graph_app_id, issuer}
use mock_oidc.Text.Laws.{eq_iff}
use mock_oidc.Entra.Lookup.{enabled, tenant}
use mock_oidc.Entra.Graphconfig.{clock_skew}

-- The token's header and claims, the key that signed it, and each check of the claims.
pub record IsAuthentic (j : Jws) (ks : KeySet) (cfg : Config) (origin : Text) (now : ℕ)
    (bearer : Text) (c : Caller) : Type 0 where
  pub parts : Parts
  pub key : SigningKey
  pub decodes : j.decode bearer ≡ some parts
  pub rs256 : parts.alg ≡ txt "RS256"
  pub published : by_kid parts.kid ks ≡ some key
  pub signature : j.verify key bearer ≡ true
  pub claims : c.claims ≡ parts.claims
  pub audience : claim_string c.claims (txt "aud") ≡ graph_app_id
  pub version : claim_string c.claims (txt "ver") ≡ txt "2.0"
  pub issued_here :
      claim_string c.claims (txt "iss")
      ≡ issuer origin cfg.base_path (lower (claim_string c.claims (txt "tid")))
  pub fresh : expired now (clock_skew cfg) (claim_time c.claims (txt "exp")) ≡ false
  pub begun : too_early now (clock_skew cfg) (claim_time c.claims (txt "nbf")) ≡ false
  pub tenant_exists : tenant cfg (lower (claim_string c.claims (txt "tid"))) ≡ some c.tenant
  pub account :
      ((is_empty (lower (claim_string c.claims (txt "oid"))) ≡ true) × (c.user ≡ none))
      ⊎ ((u : User) × (user_by_oid cfg
              (lower (claim_string c.claims (txt "tid")))
              (lower (claim_string c.claims (txt "oid")))
            ≡ some u)
          × (enabled u ≡ true)
          × (c.user ≡ some u))

verify_jws-some :
    (j : Jws) (ks : KeySet) (jwt : Text) (c : Assoc Claim)
    → verify_jws j ks jwt ≡ some c
    → (p : Parts) × (k : SigningKey) × (j.decode jwt ≡ some p)
      × (p.alg ≡ txt "RS256")
      × (by_kid p.kid ks ≡ some k)
      × (j.verify k jwt ≡ true)
      × (p.claims ≡ c)
unfolding verify_jws
verify_jws-some j ks jwt c h = elim (Option-cases (j.decode jwt)) [
  | inl e ↦ cc (rw (e, verify_jws) at h)
  | inr (p, e) ↦ elim (Bool-cases (p.alg == txt "RS256")) [
    | inr f ↦ cc (rw (e, f, verify_jws) at h)
    | inl f ↦ elim (Option-cases (by_kid p.kid ks)) [
      | inl g ↦ cc (rw (e, f, g, verify_jws) at h)
      | inr (k, g) ↦ elim (Bool-cases (j.verify k jwt)) [
        | inr v ↦ cc (rw (e, f, g, v, verify_jws) at h)
        | inl v ↦ (
          p,
          k,
          e,
          (eq_iff p.alg (txt "RS256")).0 f,
          g,
          v,
          some-eq (rw (e, f, g, v, verify_jws) at h),
        )
      ]
    ]
  ]
]

-- The caller of the claims, or an error.
caller_in-ok :
    (cfg : Config) (c : Assoc Claim) (tid : Text) (o : Option Tenant) (r : Caller)
    → caller_in cfg c tid o ≡ ok r
    → (o ≡ some r.tenant)
      × (r.claims ≡ c)
      × (((is_empty (lower (claim_string c (txt "oid"))) ≡ true) × (r.user ≡ none))
          ⊎ ((u : User) × (user_by_oid cfg tid (lower (claim_string c (txt "oid"))) ≡ some u)
              × (enabled u ≡ true)
              × (r.user ≡ some u)))
unfolding caller_in
caller_in-ok cfg c tid none r h = cc
caller_in-ok cfg c tid (some t) r h =
    elim (Bool-cases (is_empty (lower (claim_string c (txt "oid"))))) [
      | inl e ↦
          let same = ok-injective (rw (e, caller_in) at h) in
          (
            ap (λ (x : Caller). some x.tenant) same,
            ap (λ (x : Caller). x.claims) (sym same),
            inl (e, ap (λ (x : Caller). x.user) (sym same)),
          )
      | inr e ↦ elim (Option-cases (user_by_oid cfg tid (lower (claim_string c (txt "oid"))))) [
        | inl f ↦ cc (rw (e, f, caller_in) at h)
        | inr (u, f) ↦ elim (Bool-cases (enabled u)) [
          | inr g ↦ cc (rw (e, f, g, caller_in) at h)
          | inl g ↦
              let same = ok-injective (rw (e, f, g, caller_in) at h) in
              (
                ap (λ (x : Caller). some x.tenant) same,
                ap (λ (x : Caller). x.claims) (sym same),
                inr (u, f, g, ap (λ (x : Caller). x.user) (sym same)),
              )
        ]
      ]
    ]

-- If a bearer token is accepted, it decodes to a token with alg RS256 whose kid is published and whose
-- signature verifies with that key; it has the Graph audience, ver 2.0 and this origin's issuer for its
-- tenant; with the configured skew it is neither expired nor early; its tenant exists; and it either
-- names no user and the caller has none, or the caller is the tenant's enabled user with its oid.
pub validate_access_token-IsAuthentic :
    (j : Jws) (ks : KeySet) (cfg : Config) (origin : Text) (now : ℕ) (bearer : Text) (r : Caller)
    → validate_access_token j ks cfg origin now bearer ≡ ok r
    → IsAuthentic j ks cfg origin now bearer r
unfolding validate_access_token check_claims
validate_access_token-IsAuthentic j ks cfg origin now bearer r h =
    elim (Bool-cases (is_empty bearer)) [
      | inl e ↦ cc (rw (e, validate_access_token) at h)
      | inr e ↦ elim (Option-cases (verify_jws j ks bearer)) [
        | inl f ↦ cc (rw (e, f, validate_access_token, check_claims) at h)
        | inr (c, f) ↦ go c f (rw (e, f, validate_access_token) at h)
      ]
    ]
  where
    go :
        (c : Assoc Claim)
        → verify_jws j ks bearer ≡ some c
        → check_claims cfg origin now (some c) ≡ ok r
        → IsAuthentic j ks cfg origin now bearer r
    go c f k =
        let (p, key, decodes, rs256, published, signature, same) =
          verify_jws-some j ks bearer c f in
        let tid : Text = lower (claim_string c (txt "tid")) in
        let (_, e₁, k₁) =
          >>=-eq-ok
            (guard
              (claim_string c (txt "aud") == graph_app_id
                && claim_string c (txt "ver") == txt "2.0")
              invalid_token)
            _ k in
        let (_, e₂, k₂) = >>=-eq-ok (refuse (is_empty tid) invalid_token) _ k₁ in
        let (_, e₃, k₃) =
          >>=-eq-ok
            (guard (claim_string c (txt "iss") == issuer origin cfg.base_path tid) invalid_token) _
            k₂ in
        let (_, e₄, k₄) =
          >>=-eq-ok (refuse (expired now (clock_skew cfg) (claim_time c (txt "exp"))) invalid_token)
            _ k₃ in
        let (_, e₅, k₅) =
          >>=-eq-ok
            (refuse (too_early now (clock_skew cfg) (claim_time c (txt "nbf"))) invalid_token) _
            k₄ in
        let (found, own, account) = caller_in-ok cfg c tid (tenant cfg tid) r k₅ in
        let (aud, ver) =
          and-true (claim_string c (txt "aud") == graph_app_id)
            (claim_string c (txt "ver") == txt "2.0") (guard-ok _ _ e₁) in
        record {
          parts = p;
          key = key;
          decodes = decodes;
          rs256 = rs256;
          published = published;
          signature = signature;
          claims = own ∙ sym same;
          audience = rw own ((eq_iff _ _).0 aud);
          version = rw own ((eq_iff _ _).0 ver);
          issued_here = rw own ((eq_iff _ _).0 (guard-ok _ _ e₃));
          fresh = rw own (refuse-ok _ _ e₄);
          begun = rw own (refuse-ok _ _ e₅);
          tenant_exists = rw own found;
          account = rw own account;
        }
