-- ===== src/Oauth2/Authrequest.antt =====
-- internal/oauth2/authrequest.go: parsing an /authorize request.
use mock_oidc.Prelude.{
  guard, is_empty, ◌>>◌, all, refuse, any, ok, [], ◌&&◌, ◌||◌, Bool, ◌∷◌, Result, List, false,
}
use mock_oidc.Text.{Text, ◌==◌, txt, fields, mem}
use mock_oidc.Oauth2.Request.{
  Form, OauthError, get, missing_parameter, unsupported_response, missing_nonce,
}

pub record AuthRequest : Type 0 where
  pub response_type : List Text
  pub client_id : Text
  pub redirect_uri : Text
  pub scope : List Text
  pub state : Text
  pub nonce : Text
  pub code_challenge : Text
  pub code_challenge_method : Text
  pub prompt : List Text
  pub response_mode : Text

abbrev response_types : List Text
response_types = txt "code" ∷ txt "id_token" ∷ txt "token" ∷ txt "none" ∷ []

abbrev pub present : Text → Form → Result OauthError (Unit {0})
present name q = refuse (is_empty (get name q)) (missing_parameter name)

-- ParseAuthRequest
unfoldable pub parse_auth_request : Form → Result OauthError AuthRequest
parse_auth_request q =
    let rts : List Text = fields (get (txt "response_type") q) in
    do
      present (txt "response_type") q
      guard (all (λ v. mem v response_types) rts) unsupported_response
      present (txt "scope") q
      present (txt "client_id") q
      present (txt "redirect_uri") q
      refuse (mem (txt "id_token") rts && is_empty (get (txt "nonce") q)) missing_nonce
      ok (record {
        response_type = rts;
        client_id = get (txt "client_id") q;
        redirect_uri = get (txt "redirect_uri") q;
        scope = fields (get (txt "scope") q);
        state = get (txt "state") q;
        nonce = get (txt "nonce") q;
        code_challenge = get (txt "code_challenge") q;
        code_challenge_method = get (txt "code_challenge_method") q;
        prompt = fields (get (txt "prompt") q);
        response_mode = get (txt "response_mode") q;
      })

-- AuthRequest.ImpliesCodeFlow
unfoldable pub implies_code_flow : AuthRequest → Bool
implies_code_flow ar = elim ar.response_type [
  | [] ↦ false
  | rt ∷ rest ↦ is_empty rest && rt == txt "code"
]

-- AuthRequest.IsPrompt
unfoldable pub is_prompt : AuthRequest → Bool
is_prompt ar =
    any (λ p. p == txt "login" || p == txt "consent" || p == txt "select_account") ar.prompt
