-- ===== src/Entra/Server/Tests.antt =====
-- The whole emulation at concrete inputs.
use mock_oidc.Prelude.{[], some, ◌∷◌, ◌≡◌, none, true, refl, false}
use mock_oidc.Entra.Server.{Outside, ServerRequest, Draw}
use mock_oidc.Entra.Wellformed.{IsWellFormed}
use mock_oidc.Entra.Admin.{Emulator, admin_delete_tenant, MintInput, minting, new_emulator}
use mock_oidc.Text.{trim_space, txt, trim, trim_left, is_space}
use mock_oidc.Entra.Admin.Deletion.{IsErased, admin_delete_tenant-IsErased}
use mock_oidc.Entra.Keys.{active, SigningKey, by_kid}
use mock_oidc.Assoc.{Assoc}
use mock_oidc.Entra.Verify.{Jws}
use mock_oidc.Entra.Tests.{
  digest, store_before, fabrikam, seed, store_before-IsWellFormed, digest-IsSha1, demo,
  seed_is_normal,
}
use mock_oidc.Entra.Server.Invariant.{
  steps, requested, tenant_removed, restored, steps-IsWellFormed,
}
use mock_oidc.Entra.Store.{execute, mutate, delete_tenant, norm_tid}
use mock_oidc.Entra.Bearer.{company, ks, member}
use mock_oidc.Entra.Claims.{Claim, access_token_claims}
use mock_oidc.Entra.Sessions.{library, home}
use mock_oidc.Entra.Graph.Tests.{acceptance}
use mock_oidc.Json.{done}

-- A stand-in that decodes nothing.
abbrev opaque : Jws
opaque = record { decode = λ t. none; sign = λ k c. b'x' ∷ []; verify = λ k t. false }

abbrev outside : Outside
outside = record { digest = digest; library = library; jws = opaque; schemas = λ s. done }

abbrev rotation : ServerRequest
rotation = record {
  method = txt "POST";
  path = txt "/entra/_entra/rotate-keys";
  oauth = acceptance;
  authorization = [];
  body = [];
  body_is_json = true;
}

abbrev draw : Draw
draw = record { code = txt "k"; uti = []; secret = 9; now = 5 }

steps-IsWellFormed_example :
    IsWellFormed
      (steps outside
        (requested draw rotation ∷ tenant_removed (txt fabrikam) ∷ restored ∷ [])
        (new_emulator seed 3)).store.cur
    × (a : SigningKey) × (active
          (steps outside
            (requested draw rotation ∷ tenant_removed (txt fabrikam) ∷ restored ∷ [])
            (new_emulator seed 3)).keys.keys
        ≡ some a)
    × (by_kid a.kid
          (steps outside
            (requested draw rotation ∷ tenant_removed (txt fabrikam) ∷ restored ∷ [])
            (new_emulator seed 3)).keys
        ≡ some a)
steps-IsWellFormed_example =
    steps-IsWellFormed outside digest-IsSha1 demo seed 3
      (requested draw rotation ∷ tenant_removed (txt fabrikam) ∷ restored ∷ []) seed_is_normal

abbrev running : Emulator
running = record {
  store = store_before;
  keys = ks;
  consents = record { seed = []; granted = [] };
  codes = [];
}

no_space : trim_space (txt fabrikam) ≡ txt fabrikam
unfolding trim_space trim trim_left is_space txt
no_space = refl

fabrikam_removed : (admin_delete_tenant digest (txt fabrikam) running).0 ≡ none
unfolding admin_delete_tenant execute mutate delete_tenant store_before seed norm_tid
fabrikam_removed = refl

admin_delete_tenant-IsErased_example :
    IsErased digest (txt fabrikam) running (admin_delete_tenant digest (txt fabrikam) running).1
admin_delete_tenant-IsErased_example =
    admin_delete_tenant-IsErased digest (txt fabrikam) running store_before-IsWellFormed no_space
      fabrikam_removed

abbrev serving : Emulator
serving = record {
  store = record { seed = company; cur = company };
  keys = ks;
  consents = record { seed = []; granted = [] };
  codes = [];
}

abbrev wanted : MintInput
wanted = record {
  tid = txt "11111111-1111-4111-8111-111111111111";
  username = txt "ada";
  client_id = txt "app";
  scope = [];
}

abbrev claims_minted : Assoc Claim
claims_minted =
    access_token_claims digest library []
      (minting company (txt "http://localhost") 100000000000 wanted home member)

abbrev signer : Jws
signer = record {
  decode = λ t. some (record { alg = txt "RS256"; kid = txt "entra-1"; claims = claims_minted });
  sign = λ k c. b'x' ∷ [];
  verify = λ k t. true;
}
