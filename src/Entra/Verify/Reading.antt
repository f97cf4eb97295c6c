-- ===== src/Entra/Verify/Reading.antt =====
-- What the checks of an access token read of its claims, and what they give then.
use mock_oidc.Prelude.{ℕ}
use mock_oidc.Prelude.{ℕ, refl, some, ◌≡◌, true, [], ◌∷◌, false, is_empty, ok, Bool, if◌then◌else◌}
use mock_oidc.Entra.Verify.{
  Caller, claim_string, claim_time, check_claims, caller_in, expired, too_early,
}
use mock_oidc.Entra.Types.{Config, Tenant, User}
use mock_oidc.Entra.Guid.{Digest, is_guid}
use mock_oidc.Entra.Claims.{
  TokenInput, access_token_claims, Claim, pairwise_sub, graph_app_id, issuer,
}
use mock_oidc.Oauth2.Request.{Library}
use mock_oidc.Text.{Text, txt}
use mock_oidc.Entra.Lookup.{tenant, user_by_oid, enabled}
use mock_oidc.Assoc.{Assoc}
use mock_oidc.Entra.Graphconfig.{clock_skew}
use mock_oidc.Text.Laws.{==-refl}
use mock_oidc.Entra.Guid.Stable.{is_guid-lower}

-- What the minting and the verifying side share: the account's tenant and its object id resolve to it.
pub record IsCurrent (cfg : Config) (i : TokenInput) : Type 0 where
  pub base : i.base_path ≡ cfg.base_path
  pub guid : is_guid i.tenant.tid ≡ true
  pub home : tenant cfg i.tenant.tid ≡ some i.tenant
  pub oid : is_guid i.user.oid ≡ true
  pub account : user_by_oid cfg i.tenant.tid i.user.oid ≡ some i.user
  pub active : enabled i.user ≡ true

-- The caller of the token.
abbrev pub minted_caller : Digest → Library → Text → TokenInput → Caller
minted_caller d lib uti i = record {
  claims = access_token_claims d lib uti i;
  tenant = i.tenant;
  user = some i.user;
  oid = i.user.oid;
  sub = pairwise_sub lib i.client_id i.user.oid;
  client_id = i.client_id;
}

is_guid-nonempty : (s : Text) → is_guid s ≡ true → is_empty s ≡ false
unfolding is_guid
is_guid-nonempty [] h = cc h
is_guid-nonempty (c ∷ s) h = refl

-- What the checks read of a claim set.
pub record IsRead (cfg : Config) (origin : Text) (now : ℕ) (t : Tenant) (u : User) (client : Text)
    (c : Assoc Claim) : Type 0 where
  pub aud : claim_string c (txt "aud") ≡ graph_app_id
  pub ver : claim_string c (txt "ver") ≡ txt "2.0"
  pub tid : claim_string c (txt "tid") ≡ t.tid
  pub iss : claim_string c (txt "iss") ≡ issuer origin cfg.base_path t.tid
  pub oid : claim_string c (txt "oid") ≡ u.oid
  pub appid : claim_string c (txt "appid") ≡ client
  pub azp : claim_string c (txt "azp") ≡ client
  pub exp : expired now (clock_skew cfg) (claim_time c (txt "exp")) ≡ false
  pub nbf : too_early now (clock_skew cfg) (claim_time c (txt "nbf")) ≡ false

same_client : (b : Bool) (s : Text) → (if b then s else s) ≡ s
same_client true s = refl
same_client false s = refl

pub caller-read :
    (cfg : Config) (origin : Text) (now : ℕ) (t : Tenant) (u : User) (client : Text)
    (c : Assoc Claim)
    → IsRead cfg origin now t u client c
    → is_guid u.oid ≡ true
    → user_by_oid cfg t.tid u.oid ≡ some u
    → enabled u ≡ true
    → caller_in cfg c t.tid (some t)
      ≡ ok (record {
        claims = c;
        tenant = t;
        user = some u;
        oid = u.oid;
        sub = claim_string c (txt "sub");
        client_id = client;
      })
unfolding caller_in
caller-read cfg origin now t u client c r g a h =
    rw
      (
        r.oid,
        is_guid-lower u.oid g,
        is_guid-nonempty u.oid g,
        a,
        h,
        r.appid,
        r.azp,
        same_client (is_empty client) client,
      )
      (rw (r.oid, is_guid-lower u.oid g) refl)

pub checks-read :
    (cfg : Config) (origin : Text) (now : ℕ) (t : Tenant) (u : User) (client : Text)
    (c : Assoc Claim)
    → IsRead cfg origin now t u client c
    → is_guid t.tid ≡ true
    → tenant cfg t.tid ≡ some t
    → check_claims cfg origin now (some c) ≡ caller_in cfg c t.tid (some t)
unfolding check_claims
checks-read cfg origin now t u client c r g h =
    rw
      (
        r.aud,
        r.ver,
        ==-refl graph_app_id,
        ==-refl (txt "2.0"),
        r.tid,
        is_guid-lower t.tid g,
        is_guid-nonempty t.tid g,
        r.iss,
        ==-refl (issuer origin cfg.base_path t.tid),
        r.exp,
        r.nbf,
        h,
      )
      refl
