-- ===== src/Entra/Claims.antt =====
-- internal/entra/claims.go: the claims of the tokens. A claims map is the list of its entries, the
-- latest first; `now` is in nanoseconds, a claim of a time in seconds. SHA-256 with base64url is the library's, and the random `uti` is
-- an argument.
pub mod Fixed
pub mod Groups
use mock_oidc.Prelude.{
  ℕ, length, [], some, ℤ, map, nat_eq, pos, is_empty, if◌then◌else◌, take, not, Bool, ltb_ℤ, none,
  ◌++◌, Option, ◌&&◌, ◌∷◌, List, ◌||◌,
}
use mock_oidc.Text.{Text, txt, mem, ◌==◌, cut_prefix, join, lower}
use mock_oidc.Oauth2.Request.{Library}
use mock_oidc.Entra.Guid.{Digest, group_object_id}
use mock_oidc.Assoc.{Assoc, insert}
use mock_oidc.Clock.{expires_at, unix}
use mock_oidc.Entra.Types.{Tenant, Config, User, ClaimMapping, App}
use mock_oidc.Entra.Lookup.{member_groups, preferred_username}
use mock_oidc.Entra.Rule.Comparisons.{attr_of_name}
use mock_oidc.Entra.Normalize.{claim_sources}
use mock_oidc.Entra.Rule.{attribute}

pub data Claim : Type 0 where
  text : Text → Claim
  number : ℤ → Claim
  flag : Bool → Claim
  texts : List Text → Claim
  -- the overage markers, with the endpoint for src1
  overage_names : Claim
  overage_source : Text → Claim

abbrev pub graph_app_id : Text
graph_app_id = txt "00000003-0000-0000-c000-000000000000"

pub record TokenInput : Type 0 where
  pub graph_base : Text
  pub overage_self_hosted : Bool
  pub origin : Text
  pub base_path : Text
  pub tenant : Tenant
  pub user : User
  pub client_id : Text
  pub nonce : Text
  pub scopes : List Text
  pub now : ℕ
  pub expiry : ℤ
  pub mapped_claims : Assoc Text

-- Issuer
unfoldable pub issuer : Text → Text → Text → Text
issuer origin base_path tid = origin ++ (b'/' ∷ base_path ++ (b'/' ∷ tid ++ txt "/v2.0"))

-- PairwiseSub
unfoldable pub pairwise_sub : Library → Text → Text → Text
pairwise_sub lib client_id oid = lib.s256 (client_id ++ (b':' ∷ oid))

-- hasScope
unfoldable pub has_scope : List Text → Text → Bool
has_scope scopes s = mem s scopes

-- overageEndpoint
unfoldable pub overage_endpoint : TokenInput → Text
overage_endpoint i =
    if not i.overage_self_hosted
      || is_empty i.origin
      || is_empty i.base_path
      || is_empty i.graph_base
    then txt "https://graph.microsoft.com/v1.0/users/" ++ (i.user.oid ++ txt "/getMemberObjects")
    else i.origin
      ++ (b'/' ∷ i.base_path
          ++ (b'/' ∷ i.graph_base
              ++ (txt "/v1.0/users/" ++ (i.user.oid ++ txt "/getMemberObjects"))))

-- The loop of addGroups.
unfoldable pub group_values : Digest → Tenant → List Text → List Text
group_values d t gs =
    map (λ g. if t.group_claim_format == txt "object_id" then group_object_id d t.tid g else g) gs

-- addGroups
unfoldable pub add_groups : Digest → TokenInput → Assoc Claim → Assoc Claim
add_groups d i c =
    let groups : List Text = member_groups i.user in
    if is_empty groups
    then c
    else if ltb_ℤ i.tenant.group_limit (pos (length groups))
    then insert (txt "_claim_sources") (overage_source (overage_endpoint i))
        (insert (txt "_claim_names") overage_names c)
    else insert (txt "groups") (texts (group_values d i.tenant groups)) c

-- `if v is set { c[name] = v }`
abbrev pub add : Bool → Text → Claim → Assoc Claim → Assoc Claim
add b name v c = if b then insert name v c else c

-- The claims that every token has.
unfoldable pub fixed_claims : Library → Text → TokenInput → Assoc Claim
fixed_claims lib uti i =
    (txt "iss", text (issuer i.origin i.base_path i.tenant.tid))
    ∷ (txt "aud", text i.client_id)
    ∷ (txt "iat", number (pos (unix i.now)))
    ∷ (txt "nbf", number (pos (unix i.now)))
    ∷ (txt "exp", number (expires_at i.now i.expiry))
    ∷ (txt "tid", text i.tenant.tid)
    ∷ (txt "oid", text i.user.oid)
    ∷ (txt "sub", text (pairwise_sub lib i.client_id i.user.oid))
    ∷ (txt "ver", text (txt "2.0"))
    ∷ (txt "name", text i.user.name)
    ∷ (txt "preferred_username", text (preferred_username i.tenant i.user))
    ∷ (txt "uti", text (take 22 uti))
    ∷ []

abbrev edov : Option Bool → Assoc Claim → Assoc Claim
edov none c = c
edov (some b) c = insert (txt "xms_edov") (flag b) c

-- baseClaims
unfoldable pub base_claims : Digest → Library → Text → TokenInput → Assoc Claim
base_claims d lib uti i =
    let c = fixed_claims lib uti i in
    let c =
      add (not (is_empty i.user.email) && has_scope i.scopes (txt "email")) (txt "email")
        (text i.user.email) c in
    let c = edov i.user.email_verified c in
    let c = add (not (is_empty i.user.amr)) (txt "amr") (texts i.user.amr) c in
    let c = add (not (is_empty i.user.given_name)) (txt "given_name") (text i.user.given_name) c in
    let c = add (not (is_empty i.user.surname)) (txt "family_name") (text i.user.surname) c in
    let c = add (not (is_empty i.user.roles)) (txt "roles") (texts i.user.roles) c in
    let c = add (not (is_empty i.user.wids)) (txt "wids") (texts i.user.wids) c in add_groups d i c

-- `for name, v := range in.MappedClaims`
unfoldable pub add_mapped : Assoc Text → Assoc Claim → Assoc Claim
add_mapped [] c = c
add_mapped ((name, v) ∷ m) c = insert name (text v) (add_mapped m c)

-- IDTokenClaims
unfoldable pub id_token_claims : Digest → Library → Text → TokenInput → Assoc Claim
id_token_claims d lib uti i =
    add_mapped i.mapped_claims
      (add (not (is_empty i.nonce)) (txt "nonce") (text i.nonce) (base_claims d lib uti i))

-- strings.LastIndex(s, "/"), and what stands after it; none where there is no slash
unfoldable pub after_last_slash : Text → Option Text
after_last_slash [] = none
after_last_slash (c ∷ s) = elim (after_last_slash s) [
  | some r ↦ some r
  | none ↦ if nat_eq c b'/' then some s else none
]

-- The text after the first "://".
unfoldable pub after_scheme : Text → Option Text
after_scheme [] = none
after_scheme (c ∷ s) =
    let rest = after_scheme s in
    elim (cut_prefix (c ∷ s) (txt "://")) [ some r ↦ some r | none ↦ rest ]

-- StripScopePrefix: a last slash beyond the scheme's own is one that the rest has.
unfoldable pub strip_scope_prefix : Text → Text
strip_scope_prefix s = elim (after_scheme s) [
  | none ↦ s
  | some rest ↦ elim (after_last_slash rest) [ none ↦ s | some name ↦ name ]
]

abbrev scope_names : List Text → List Text
scope_names [] = []
scope_names (s ∷ ss) =
    let name = strip_scope_prefix s in
    let rest = scope_names ss in
    if s == txt "offline_access" || is_empty name then rest else name ∷ rest

-- ScopeValue
unfoldable pub scope_value : List Text → Text
scope_value scopes = join (scope_names scopes) (b' ' ∷ [])

-- AccessTokenClaims
unfoldable pub access_token_claims : Digest → Library → Text → TokenInput → Assoc Claim
access_token_claims d lib uti i = insert (txt "appid") (text i.client_id) (
    insert (txt "azp") (text i.client_id) (
      insert (txt "scp") (text (scope_value i.scopes))
        (insert (txt "aud") (text graph_app_id) (base_claims d lib uti i))))

abbrev attr_value : Tenant → User → Option Text → Text
attr_value t u none = []
attr_value t u (some name) = elim (attr_of_name name) [ none ↦ [] | some a ↦ attribute t u a ]

-- The value of a mapped source; the configuration's validation leaves only known names.
abbrev source_value : Tenant → User → Text → Text
source_value t u source =
    if mem source claim_sources then attr_value t u (cut_prefix source (txt "user.")) else []

unfoldable pub map_claims : Tenant → User → List ClaimMapping → Assoc Text → Assoc Text
map_claims t u [] out = out
map_claims t u (m ∷ ms) out =
    let v = source_value t u (lower m.source) in
    map_claims t u ms (if is_empty v then out else insert m.name v out)

unfoldable pub mapped_by : Tenant → User → Text → List App → Assoc Text → Assoc Text
mapped_by t u client_id [] out = out
mapped_by t u client_id (a ∷ apps) out = mapped_by t u client_id apps (
    if not (a.client_id == client_id) || not (is_empty a.tid) && not (a.tid == u.tid)
    then out
    else map_claims t u a.claims out)

-- Config.MappedClaims, for a user whose tenant is given
unfoldable pub mapped_claims : Config → Tenant → Text → User → Assoc Text
mapped_claims c t client_id u = mapped_by t u client_id c.apps []
