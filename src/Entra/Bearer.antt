-- ===== src/Entra/Bearer.antt =====
-- A bearer token at a concrete tenant: minted with the current key, verified, and its claims.
use mock_oidc.Entra.Lookup.{member_groups, dedup, tenant, user_by_oid, enabled, users_in}
use mock_oidc.Prelude.{
  All, List, Option, is_empty, none, some, pos, ◌∷◌, ok, refl, [], ◌≡◌, true, arith, false,
}
use mock_oidc.Entra.Graphconfig.{clock_skew, graph_on}
use mock_oidc.Entra.Keys.{KeySet, SigningKey, by_kid, active, rotations, new_key_set}
use mock_oidc.Entra.Types.{User, Config}
use mock_oidc.Entra.Claims.{
  texts, base_claims, fixed_claims, add_groups, has_scope, TokenInput, Claim, access_token_claims,
}
use mock_oidc.Assoc.{Assoc, lookup}
use mock_oidc.Entra.Directory.{group_ids_of}
use mock_oidc.Entra.Verify.{Jws, validate_access_token, expired, too_early}
use mock_oidc.Entra.Guid.{is_guid, is_hex_digit, hex_run, dash}
use mock_oidc.Entra.Verify.Sound.{IsAuthentic, validate_access_token-IsAuthentic}
use mock_oidc.Entra.Claims.Groups.{groups_claim-group_ids_of}
use mock_oidc.Text.Decimal.{atoi, itoa, atoi-itoa}
use mock_oidc.Text.{Text, mem, txt, ◌==◌, lower, lower_rune, trim_space, trim_left, trim, is_space}
use mock_oidc.Entra.Sessions.{account, directory, home, library}
use mock_oidc.Entra.Tests.{digest}
use mock_oidc.Entra.Verify.Reading.{minted_caller, IsCurrent}
use mock_oidc.Entra.Verify.Minted.{IsHeld, minted-accepted}
use mock_oidc.Entra.Keys.Rotation.{IsRetired, rotations-IsRetired}

abbrev pub ks : KeySet
ks = record { keys = record { kid = txt "entra-1"; secret = 7 } ∷ []; seq = 1 }

abbrev pub key : SigningKey
key = record { kid = txt "entra-1"; secret = 7 }

abbrev pub member : User
member = record account {
  oid = txt "33333333-3333-4333-8333-333333333333";
  groups = txt "sales" ∷ [];
}

abbrev pub company : Config
company = record directory { users = member ∷ [] }

abbrev input : TokenInput
input = record {
  graph_base = txt "graph";
  overage_self_hosted = false;
  origin = txt "http://localhost";
  base_path = txt "entra";
  tenant = home;
  user = member;
  client_id = txt "app";
  nonce = [];
  scopes = txt "openid" ∷ [];
  now = 100000000000;
  expiry = pos 3600;
  mapped_claims = [];
}

abbrev minted : Assoc Claim
minted = access_token_claims digest library [] input

-- A stand-in whose only token is the one minted above.
abbrev pub jws : Jws
jws = record {
  decode = λ t. some (record { alg = txt "RS256"; kid = txt "entra-1"; claims = minted });
  sign = λ k c. b'x' ∷ [];
  verify = λ k t. true;
}

pub current : IsCurrent company input
unfolding is_guid txt is_hex_digit hex_run dash tenant lower ◌==◌ lower_rune user_by_oid users_in
    enabled trim_space trim_left trim is_space
current = record {
  base = refl;
  guid = refl;
  home = refl;
  oid = refl;
  account = refl;
  active = refl;
}

found : by_kid (txt "entra-1") ks ≡ some key
unfolding by_kid txt ◌==◌
found = refl

pub fresh : expired 3700 (clock_skew company) (some (pos 3700)) ≡ false
unfolding clock_skew graph_on
fresh = refl

pub begun : too_early 3700 (clock_skew company) (some (pos 100)) ≡ false
unfolding clock_skew graph_on
begun = refl

pub held : IsHeld (pos 3600)
held = (omega arith, omega arith)

minted-accepted_example :
    validate_access_token jws ks company (txt "http://localhost") 3700 (b'x' ∷ [])
    ≡ ok (minted_caller digest library [] input)
minted-accepted_example =
    minted-accepted jws ks company digest library [] input 3700 key
      (record { decoded = refl; verified = refl; not_empty = refl }) found current held fresh begun

validate_access_token-IsAuthentic_example :
    IsAuthentic jws ks company
      (txt "http://localhost")
      3700
      (b'x' ∷ [])
      (minted_caller digest library [] input)
validate_access_token-IsAuthentic_example =
    validate_access_token-IsAuthentic jws ks company (txt "http://localhost") 3700 (b'x' ∷ [])
      (minted_caller digest library [] input) minted-accepted_example

abbrev by_id : TokenInput
by_id = record input {
  tenant = record home { group_claim_format = txt "object_id"; group_limit = pos 200 };
}

abbrev company_by_id : Config
company_by_id = record company { tenants = by_id.tenant ∷ [] }

abbrev claim_in : Option Claim → Claim
claim_in (some v) = v
claim_in none = texts []

abbrev groups_claim : Claim
groups_claim = claim_in (lookup (txt "groups") (access_token_claims digest library [] by_id))

by_id_home : tenant company_by_id member.tid ≡ some by_id.tenant
unfolding tenant lower txt ◌==◌
by_id_home = refl

one_group : All (λ n. is_empty n ≡ false) (member_groups member)
unfolding member_groups txt dedup mem
one_group = (refl, tt)

by_id_claimed :
    lookup (txt "groups") (access_token_claims digest library [] by_id) ≡ some groups_claim
unfolding access_token_claims base_claims fixed_claims add_groups member_groups txt ◌==◌ has_scope
    mem
by_id_claimed = refl

groups_claim-group_ids_of_example :
    (ids : List Text) × (groups_claim ≡ texts ids)
    × ((id : Text) → mem id ids ≡ mem id (group_ids_of digest company_by_id member))
    × (lookup (txt "_claim_names") (access_token_claims digest library [] by_id) ≡ none)
    × (lookup (txt "_claim_sources") (access_token_claims digest library [] by_id) ≡ none)
groups_claim-group_ids_of_example =
    groups_claim-group_ids_of digest library [] by_id company_by_id groups_claim by_id_home refl tt
      one_group by_id_claimed

rotations-IsRetired_example :
    (a : SigningKey) × (active (rotations (5 ∷ 6 ∷ []) (new_key_set 4)).keys ≡ some a)
    × IsRetired (rotations (5 ∷ 6 ∷ []) (new_key_set 4)) a 8 9
rotations-IsRetired_example = rotations-IsRetired 4 (5 ∷ 6 ∷ []) 8 9

-- The digits of a kid and of a skip token are read back.
atoi-itoa_example : atoi (itoa 120) ≡ some (pos 120)
atoi-itoa_example = atoi-itoa 120 (omega arith)
