-- ===== src/Entra/Verify/Minted.antt =====
-- Tokens that this server signs, at its own Graph surface.
use mock_oidc.Prelude.{ℕ, ℤ, ◌≤ℤ◌, refl, some, ◌≡◌, false, ◌+ℤ◌, pos, ap, ok, ◌∙◌}
use mock_oidc.Entra.Keys.{KeySet, SigningKey, by_kid}
use mock_oidc.Entra.Verify.{
  string_of, number_of, claim_string, claim_time, expired, too_early, verify_jws,
  validate_access_token, Jws, IsSigned,
}
use mock_oidc.Entra.Types.{Config}
use mock_oidc.Entra.Guid.{Digest}
use mock_oidc.Entra.Claims.{
  TokenInput, access_token_claims, Claim, fixed_claims, pairwise_sub, graph_app_id, issuer,
}
use mock_oidc.Oauth2.Request.{Library}
use mock_oidc.Text.{Text, txt, ◌==◌}
use mock_oidc.Assoc.{Assoc}
use mock_oidc.Clock.{expires_at, expires_at-fits, max_seconds, unix}
use mock_oidc.Entra.Claims.Fixed.{access-fixed}
use mock_oidc.Entra.Graphconfig.{clock_skew}
use mock_oidc.Text.Laws.{==-refl}
use mock_oidc.Entra.Verify.Reading.{IsCurrent, IsRead, caller-read, checks-read, minted_caller}

-- A lifetime in seconds that a duration holds.
abbrev pub IsHeld : ℤ → Type 0
IsHeld expiry = (pos 0 ≤ℤ expiry) × (expiry ≤ℤ pos max_seconds)

module _ (d : Digest) (lib : Library) (uti : Text) (i : TokenInput) where
  abbrev claims : Assoc Claim
  claims = access_token_claims d lib uti i

  aud-minted : claim_string claims (txt "aud") ≡ graph_app_id
  unfolding claim_string access_token_claims txt ◌==◌
  aud-minted = refl

  appid-minted : claim_string claims (txt "appid") ≡ i.client_id
  unfolding claim_string access_token_claims txt ◌==◌
  appid-minted = refl

  azp-minted : claim_string claims (txt "azp") ≡ i.client_id
  unfolding claim_string access_token_claims txt ◌==◌
  azp-minted = refl

  iss-minted : claim_string claims (txt "iss") ≡ issuer i.origin i.base_path i.tenant.tid
  unfolding claim_string fixed_claims txt ◌==◌
  iss-minted = ap string_of (
      access-fixed d lib uti i (txt "iss") (refl, (refl, (refl, (refl, tt))))
        (refl, (refl, (refl, (refl, (refl, (refl, (refl, (refl, (refl, (refl, tt)))))))))))

  ver-minted : claim_string claims (txt "ver") ≡ txt "2.0"
  unfolding claim_string fixed_claims txt ◌==◌
  ver-minted = ap string_of (
      access-fixed d lib uti i (txt "ver") (refl, (refl, (refl, (refl, tt))))
        (refl, (refl, (refl, (refl, (refl, (refl, (refl, (refl, (refl, (refl, tt)))))))))))

  tid-minted : claim_string claims (txt "tid") ≡ i.tenant.tid
  unfolding claim_string fixed_claims txt ◌==◌
  tid-minted = ap string_of (
      access-fixed d lib uti i (txt "tid") (refl, (refl, (refl, (refl, tt))))
        (refl, (refl, (refl, (refl, (refl, (refl, (refl, (refl, (refl, (refl, tt)))))))))))

  oid-minted : claim_string claims (txt "oid") ≡ i.user.oid
  unfolding claim_string fixed_claims txt ◌==◌
  oid-minted = ap string_of (
      access-fixed d lib uti i (txt "oid") (refl, (refl, (refl, (refl, tt))))
        (refl, (refl, (refl, (refl, (refl, (refl, (refl, (refl, (refl, (refl, tt)))))))))))

  sub-minted : claim_string claims (txt "sub") ≡ pairwise_sub lib i.client_id i.user.oid
  unfolding claim_string fixed_claims txt ◌==◌
  sub-minted = ap string_of (
      access-fixed d lib uti i (txt "sub") (refl, (refl, (refl, (refl, tt))))
        (refl, (refl, (refl, (refl, (refl, (refl, (refl, (refl, (refl, (refl, tt)))))))))))

  exp-minted : claim_time claims (txt "exp") ≡ some (expires_at i.now i.expiry)
  unfolding claim_time fixed_claims txt ◌==◌
  exp-minted = ap number_of (
      access-fixed d lib uti i (txt "exp") (refl, (refl, (refl, (refl, tt))))
        (refl, (refl, (refl, (refl, (refl, (refl, (refl, (refl, (refl, (refl, tt)))))))))))

  nbf-minted : claim_time claims (txt "nbf") ≡ some (pos (unix i.now))
  unfolding claim_time fixed_claims txt ◌==◌
  nbf-minted = ap number_of (
      access-fixed d lib uti i (txt "nbf") (refl, (refl, (refl, (refl, tt))))
        (refl, (refl, (refl, (refl, (refl, (refl, (refl, (refl, (refl, (refl, tt)))))))))))

  IsRead-minted :
      (cfg : Config) (now : ℕ)
      → IsCurrent cfg i
      → IsHeld i.expiry
      → expired now (clock_skew cfg) (some (pos (unix i.now) +ℤ i.expiry)) ≡ false
      → too_early now (clock_skew cfg) (some (pos (unix i.now))) ≡ false
      → IsRead cfg i.origin now i.tenant i.user i.client_id claims
  IsRead-minted cfg now cur held fresh begun = record {
    aud = aud-minted;
    ver = ver-minted;
    tid = tid-minted;
    iss = iss-minted ∙ ap (λ b. issuer i.origin b i.tenant.tid) cur.base;
    oid = oid-minted;
    appid = appid-minted;
    azp = azp-minted;
    exp =
        ap (expired now (clock_skew cfg))
          (exp-minted ∙ ap (λ x. some x) (expires_at-fits i.now i.expiry held.0 held.1))
        ∙ fresh;
    nbf = ap (too_early now (clock_skew cfg)) nbf-minted ∙ begun;
  }

  signed-decoded :
      (j : Jws) (ks : KeySet) (k : SigningKey)
      → IsSigned j k claims
      → by_kid k.kid ks ≡ some k
      → verify_jws j ks (j.sign k claims) ≡ some claims
  unfolding verify_jws
  signed-decoded j ks k law e = rw (law.decoded, ==-refl (txt "RS256"), e, law.verified) refl

pub minted-accepted :
    (j : Jws) (ks : KeySet) (cfg : Config) (d : Digest) (lib : Library) (uti : Text)
    (i : TokenInput) (now : ℕ) (k : SigningKey)
    → IsSigned j k (access_token_claims d lib uti i)
    → by_kid k.kid ks ≡ some k
    → IsCurrent cfg i
    → IsHeld i.expiry
    → expired now (clock_skew cfg) (some (pos (unix i.now) +ℤ i.expiry)) ≡ false
    → too_early now (clock_skew cfg) (some (pos (unix i.now))) ≡ false
    → validate_access_token j ks cfg i.origin now (j.sign k (access_token_claims d lib uti i))
      ≡ ok (minted_caller d lib uti i)
unfolding validate_access_token
minted-accepted j ks cfg d lib uti i now k law e cur held fresh begun =
    let r = IsRead-minted d lib uti i cfg now cur held fresh begun in
    let c = access_token_claims d lib uti i in
    rw (law.not_empty, signed-decoded d lib uti i j ks k law e)
      (checks-read cfg i.origin now i.tenant i.user i.client_id c r cur.guid cur.home
        ∙ caller-read cfg i.origin now i.tenant i.user i.client_id c r cur.oid cur.account
            cur.active
        ∙ rw (sub-minted d lib uti i) refl)
