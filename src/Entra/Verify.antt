-- ===== src/Entra/Verify.antt =====
-- internal/entra/verify.go: authenticating a Graph request. The encoding, the JSON and the RSA
-- signature of a compact JWS are the library's; times are in seconds.
pub mod Sound
pub mod Reading
pub mod Minted
use mock_oidc.Entra.Lookup.{tenant, enabled, user_by_oid}
use mock_oidc.Entra.Graphconfig.{clock_skew}
use mock_oidc.Prelude.{
  ℕ, leb_ℤ, none, if◌then◌else◌, Bool, take, pos, err, drop, [], ◌&&◌, not, false, Option, ◌-ℤ◌,
  refuse, ltb_ℤ, length, is_some, ltb, ◌>>◌, ok, some, ℤ, true, ◌||◌, Result, is_empty, guard,
  ◌>>=◌, ◌+ℤ◌, ◌≡◌,
}
use mock_oidc.Text.{Text, txt, ◌==◌, lower, equal_fold, trim_space}
use mock_oidc.Entra.Keys.{SigningKey, KeySet, by_kid}
use mock_oidc.Assoc.{Assoc, lookup}
use mock_oidc.Entra.Claims.{
  Claim, text, graph_app_id, number, issuer, flag, texts, overage_source, overage_names,
}
use mock_oidc.Entra.Types.{Config, Tenant, User}

-- Header and claims of a JWS, for three base64url parts with JSON objects in the first two.
pub record Parts : Type 0 where
  pub alg : Text
  pub kid : Text
  pub claims : Assoc Claim

-- `sign` is token.SignJWT with the RS256 key, `verify` rsa.VerifyPKCS1v15 of the signed part.
pub record Jws : Type 0 where
  pub decode : Text → Option Parts
  pub sign : SigningKey → Assoc Claim → Text
  pub verify : SigningKey → Text → Bool

-- What the key signs of these claims decodes to them, with the key's kid, and verifies with the key.
pub record IsSigned (j : Jws) (k : SigningKey) (c : Assoc Claim) : Type 0 where
  pub decoded : j.decode (j.sign k c) ≡ some (record { alg = txt "RS256"; kid = k.kid; claims = c })
  pub verified : j.verify k (j.sign k c) ≡ true
  pub not_empty : is_empty (j.sign k c) ≡ false

-- The answers of the Graph surface that are no success.
pub data GraphError : Type 0 where
  invalid_token : GraphError
  resource_not_found : Text → GraphError
  denied : Text → GraphError
  unsupported_query : Text → GraphError
  image_not_found : GraphError
  bad_request : GraphError

pub record Caller : Type 0 where
  pub claims : Assoc Claim
  pub tenant : Tenant
  -- none for an app-only token
  pub user : Option User
  pub oid : Text
  pub sub : Text
  pub client_id : Text

-- Caller.Delegated
abbrev pub delegated : Caller → Bool
delegated c = is_some c.user

abbrev signed_by : Jws → Text → Parts → Option SigningKey → Option (Assoc Claim)
signed_by j jwt p none = none
signed_by j jwt p (some k) = if j.verify k jwt then some p.claims else none

abbrev checked : Jws → KeySet → Text → Option Parts → Option (Assoc Claim)
checked j ks jwt none = none
checked j ks jwt (some p) =
    if p.alg == txt "RS256" then signed_by j jwt p (by_kid p.kid ks) else none

-- KeySet.Verify, without the header
unfoldable pub verify_jws : Jws → KeySet → Text → Option (Assoc Claim)
verify_jws j ks jwt = checked j ks jwt (j.decode jwt)

abbrev pub string_of : Option Claim → Text
string_of none = []
string_of (some (text s)) = s
string_of (some (number n)) = []
string_of (some (flag b)) = []
string_of (some (texts ss)) = []
string_of (some overage_names) = []
string_of (some (overage_source s)) = []

-- claimString
unfoldable pub claim_string : Assoc Claim → Text → Text
claim_string c name = string_of (lookup name c)

abbrev pub number_of : Option Claim → Option ℤ
number_of none = none
number_of (some (text s)) = none
number_of (some (number n)) = some n
number_of (some (flag b)) = none
number_of (some (texts ss)) = none
number_of (some overage_names) = none
number_of (some (overage_source s)) = none

-- claimTime
unfoldable pub claim_time : Assoc Claim → Text → Option ℤ
claim_time c name = number_of (lookup name c)

-- !hasExp || now-skew >= exp
abbrev pub expired : ℕ → ℤ → Option ℤ → Bool
expired now skew none = true
expired now skew (some exp) = leb_ℤ exp (pos now -ℤ skew)

-- hasNbf && nbf > now+skew
abbrev pub too_early : ℕ → ℤ → Option ℤ → Bool
too_early now skew none = false
too_early now skew (some nbf) = ltb_ℤ (pos now +ℤ skew) nbf

-- c.ClientID
abbrev pub client_of_claims : Assoc Claim → Text
client_of_claims c =
    if is_empty (claim_string c (txt "appid"))
    then claim_string c (txt "azp")
    else claim_string c (txt "appid")

abbrev pub caller_for : Assoc Claim → Tenant → Option User → Caller
caller_for c t u = record {
  claims = c;
  tenant = t;
  user = u;
  oid = lower (claim_string c (txt "oid"));
  sub = claim_string c (txt "sub");
  client_id = client_of_claims c;
}

abbrev enabled_caller : Assoc Claim → Tenant → Option User → Result GraphError Caller
enabled_caller c t none = err invalid_token
enabled_caller c t (some u) = if enabled u then ok (caller_for c t (some u)) else err invalid_token

unfoldable pub caller_in : Config → Assoc Claim → Text → Option Tenant → Result GraphError Caller
caller_in cfg c tid none = err invalid_token
caller_in cfg c tid (some t) =
    if is_empty (lower (claim_string c (txt "oid")))
    then ok (caller_for c t none)
    else enabled_caller c t (user_by_oid cfg tid (lower (claim_string c (txt "oid"))))

-- The checks of the claims; `origin` is IssuerOrigin of the request.
unfoldable pub check_claims : Config → Text → ℕ → Option (Assoc Claim) → Result GraphError Caller
check_claims cfg origin now none = err invalid_token
check_claims cfg origin now (some c) =
    let tid : Text = lower (claim_string c (txt "tid")) in
    do
      guard (claim_string c (txt "aud") == graph_app_id && claim_string c (txt "ver") == txt "2.0")
          invalid_token
      refuse (is_empty tid) invalid_token
      guard (claim_string c (txt "iss") == issuer origin cfg.base_path tid) invalid_token
      refuse (expired now (clock_skew cfg) (claim_time c (txt "exp"))) invalid_token
      refuse (too_early now (clock_skew cfg) (claim_time c (txt "nbf"))) invalid_token
      caller_in cfg c tid (tenant cfg tid)

-- Handler.ValidateAccessToken
unfoldable pub validate_access_token :
    Jws → KeySet → Config → Text → ℕ → Text → Result GraphError Caller
validate_access_token j ks cfg origin now bearer =
    if is_empty bearer
    then err invalid_token
    else check_claims cfg origin now (verify_jws j ks bearer)

-- BearerToken, of the Authorization header
unfoldable pub bearer_token : Text → Text
bearer_token h =
    if ltb (length h) 7 || not (equal_fold (take 7 h) (txt "Bearer "))
    then []
    else trim_space (drop 7 h)
