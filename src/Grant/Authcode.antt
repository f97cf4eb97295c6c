-- ===== src/Grant/Authcode.antt =====
-- internal/grant/authcode.go: the codes of the built-in issuer. The random code and the jti of the
-- refresh token are arguments.
use mock_oidc.Grant.Refresh.{refresh_token}
use mock_oidc.Prelude.{
  inr, if◌then◌else◌, ok, is_empty, Result, Bool-cases, Bool, Option, inl, none, ◌||◌, Option-cases,
  err, ◌≡◌, some, refl,
}
use mock_oidc.Assoc.{Assoc, insert, lookup, lookup-delete-same, delete}
use mock_oidc.Oauth2.Request.{Library}
use mock_oidc.Text.{Text, ◌==◌, txt}
use mock_oidc.Grant.{
  Callbacks, Login, GrantError, unknown_code, Granted, unsupported_flow, invalid_pkce,
}
use mock_oidc.Oauth2.Authrequest.{AuthRequest, implies_code_flow}
use mock_oidc.Oauth2.Tokenrequest.{TokenRequest}

-- AuthorizationCode, with the manager that it holds
pub record Codes (C : Type 0) : Type 0 where
  pub code_to_auth : Assoc AuthRequest
  pub code_to_login : Assoc Login
  pub refresh : Assoc C

-- verifyPKCE: an absent verifier passes
unfoldable pub verify_pkce : Library → AuthRequest → TokenRequest → Bool
verify_pkce lib ar tr =
    is_empty tr.code_verifier
    || (if ar.code_challenge_method == txt "S256"
        then lib.s256 tr.code_verifier
        else tr.code_verifier)
      == ar.code_challenge

abbrev with_login_of : Text → Option Login → Assoc Login → Assoc Login
with_login_of code none m = m
with_login_of code (some lg) m = insert code lg m

module _ {C : Type 0} where
  -- AuthorizationCode.AuthorizationCodeResponse
  unfoldable pub authorization_code_response :
      Text → AuthRequest → Option Login → Codes C → Result GrantError Text × Codes C
  authorization_code_response code ar lg h =
      if implies_code_flow ar
      then (
        ok code,
        record h {
          code_to_auth = insert code ar h.code_to_auth;
          code_to_login = with_login_of code lg h.code_to_login;
        },
      )
      else (err unsupported_flow, h)

  -- effective: the callback with the login of the code
  abbrev pub effective : Callbacks C → C → Option Login → C
  effective cbs cb none = cb
  effective cbs cb (some lg) = cbs.with_login lg cb

  abbrev pub loaded :
      Library
      → (Text → Text → Text)
      → Callbacks C
      → Text
      → TokenRequest
      → C
      → Codes C
      → Option AuthRequest
      → Result GrantError (Granted C) × Codes C
  loaded lib plain_jwt cbs jti tr cb h none = (err unknown_code, h)
  loaded lib plain_jwt cbs jti tr cb h (some ar) =
      let cb' = effective cbs cb (lookup tr.code h.code_to_login) in
      let rt = refresh_token plain_jwt jti cb' ar.nonce h.refresh in
      let spent : Codes C = record h {
        code_to_auth = delete tr.code h.code_to_auth;
        code_to_login = delete tr.code h.code_to_login;
      } in
      if verify_pkce lib ar tr
      then (
        ok (record { callback = cb'; nonce = ar.nonce; refresh_token = rt.0 }),
        record spent { refresh = rt.1 },
      )
      else (err invalid_pkce, spent)

  -- AuthorizationCode.TokenResponse
  unfoldable pub token_response :
      Library
      → (Text → Text → Text)
      → Callbacks C
      → Text
      → TokenRequest
      → C
      → Codes C
      → Result GrantError (Granted C) × Codes C
  token_response lib plain_jwt cbs jti tr cb h =
      loaded lib plain_jwt cbs jti tr cb h (lookup tr.code h.code_to_auth)

  -- Whatever a redemption answers, its code can not be redeemed again: the next redemption of the same
  -- code is answered with an unknown code, and changes nothing.
  pub token_response-once :
      (lib : Library) (plain_jwt : Text → Text → Text) (cbs : Callbacks C) (jti jti' : Text)
      (tr tr' : TokenRequest) (cb cb' : C) (h : Codes C)
      → tr'.code ≡ tr.code
      → token_response lib plain_jwt cbs jti' tr' cb'
          (token_response lib plain_jwt cbs jti tr cb h).1
        ≡ (err unknown_code, (token_response lib plain_jwt cbs jti tr cb h).1)
  unfolding token_response
  token_response-once lib plain_jwt cbs jti jti' tr tr' cb cb' h same =
      elim (Option-cases (lookup tr.code h.code_to_auth)) [
        | inl e ↦ rw (e, same, e) refl
        | inr (ar, e) ↦ elim (Bool-cases (verify_pkce lib ar tr)) [
          | inl g ↦ rw (e, g, same, lookup-delete-same tr.code h.code_to_auth) refl
          | inr g ↦ rw (e, g, same, lookup-delete-same tr.code h.code_to_auth) refl
        ]
      ]
