-- ===== src/Entra/Claims/Fixed.antt =====
-- The claims that every token of a sign-in carries, read back from its claim set.
use mock_oidc.Prelude.{
  All, List, ◌≡◌, pos, not, ltb_ℤ, Bool-cases, Bool, ◌∷◌, Option, inl, false, ◌∙◌, none, ◌&&◌,
  is_empty, length, inr, true, refl, [], some,
}
use mock_oidc.Text.{Text, txt, ◌==◌}
use mock_oidc.Entra.Claims.{
  add_groups, base_claims, access_token_claims, Claim, TokenInput, add, edov, fixed_claims,
  has_scope, flag, overage_source, overage_endpoint, overage_names, text, texts, graph_app_id,
  group_values, scope_value,
}
use mock_oidc.Assoc.{Assoc, lookup, lookup-insert-other, insert}
use mock_oidc.Entra.Guid.{Digest}
use mock_oidc.Oauth2.Request.{Library}
use mock_oidc.Entra.Lookup.{member_groups}

-- The names of the claims that a token may have besides.
abbrev pub optional : List Text
optional =
    txt "email"
    ∷ txt "xms_edov"
    ∷ txt "amr"
    ∷ txt "given_name"
    ∷ txt "family_name"
    ∷ txt "roles"
    ∷ txt "wids"
    ∷ txt "_claim_sources"
    ∷ txt "_claim_names"
    ∷ txt "groups"
    ∷ []

-- The name is none of these.
abbrev pub Apart : Text → List Text → Type 0
Apart k names = All (λ n. (n == k) ≡ false) names

pub add-other :
    (b : Bool) (k k' : Text) (v : Claim) (c : Assoc Claim)
    → (k == k') ≡ false
    → lookup k' (add b k v c) ≡ lookup k' c
add-other true k k' v c e = lookup-insert-other k k' v c e
add-other false k k' v c e = refl

pub edov-other :
    (o : Option Bool) (k' : Text) (c : Assoc Claim)
    → (txt "xms_edov" == k') ≡ false
    → lookup k' (edov o c) ≡ lookup k' c
edov-other none k' c e = refl
edov-other (some b) k' c e = lookup-insert-other (txt "xms_edov") k' (flag b) c e

add_groups-other :
    (d : Digest) (i : TokenInput) (k : Text) (c : Assoc Claim)
    → (txt "_claim_sources" == k) ≡ false
    → (txt "_claim_names" == k) ≡ false
    → (txt "groups" == k) ≡ false
    → lookup k (add_groups d i c) ≡ lookup k c
unfolding add_groups
add_groups-other d i k c p q r = elim (Bool-cases (is_empty (member_groups i.user))) [
  | inl e ↦ rw e refl
  | inr e ↦ elim (Bool-cases (ltb_ℤ i.tenant.group_limit (pos (length (member_groups i.user))))) [
    | inl f ↦
        rw (e, f)
          (lookup-insert-other (txt "_claim_sources") k (overage_source (overage_endpoint i))
              (insert (txt "_claim_names") overage_names c) p
            ∙ lookup-insert-other (txt "_claim_names") k overage_names c q)
    | inr f ↦
        rw (e, f)
          (lookup-insert-other (txt "groups") k
            (texts (group_values d i.tenant (member_groups i.user))) c r)
  ]
]

-- The claims before addGroups.
abbrev pub personal : Library → Text → TokenInput → Assoc Claim
personal lib uti i =
    let u = i.user in
    let c = fixed_claims lib uti i in
    let c =
      add (not (is_empty u.email) && has_scope i.scopes (txt "email")) (txt "email") (text u.email)
        c in
    let c = edov u.email_verified c in
    let c = add (not (is_empty u.amr)) (txt "amr") (texts u.amr) c in
    let c = add (not (is_empty u.given_name)) (txt "given_name") (text u.given_name) c in
    let c = add (not (is_empty u.surname)) (txt "family_name") (text u.surname) c in
    let c = add (not (is_empty u.roles)) (txt "roles") (texts u.roles) c in
    add (not (is_empty u.wids)) (txt "wids") (texts u.wids) c

abbrev pub personal_names : List Text
personal_names =
    txt "email"
    ∷ txt "xms_edov"
    ∷ txt "amr"
    ∷ txt "given_name"
    ∷ txt "family_name"
    ∷ txt "roles"
    ∷ txt "wids"
    ∷ []

pub personal-fixed :
    (lib : Library) (uti : Text) (i : TokenInput) (k : Text)
    → Apart k personal_names
    → lookup k (personal lib uti i) ≡ lookup k (fixed_claims lib uti i)
personal-fixed lib uti i k (email, (edov', (amr, (given, (family, (roles, (wids, _))))))) =
    let u = i.user in
    let c₀ = fixed_claims lib uti i in
    let b = not (is_empty u.email) && has_scope i.scopes (txt "email") in
    let c₁ = add b (txt "email") (text u.email) c₀ in
    let c₂ = edov u.email_verified c₁ in
    let c₃ = add (not (is_empty u.amr)) (txt "amr") (texts u.amr) c₂ in
    let c₄ = add (not (is_empty u.given_name)) (txt "given_name") (text u.given_name) c₃ in
    let c₅ = add (not (is_empty u.surname)) (txt "family_name") (text u.surname) c₄ in
    let c₆ = add (not (is_empty u.roles)) (txt "roles") (texts u.roles) c₅ in
    add-other (not (is_empty u.wids)) (txt "wids") k (texts u.wids) c₆ wids
    ∙ add-other (not (is_empty u.roles)) (txt "roles") k (texts u.roles) c₅ roles
    ∙ add-other (not (is_empty u.surname)) (txt "family_name") k (text u.surname) c₄ family
    ∙ add-other (not (is_empty u.given_name)) (txt "given_name") k (text u.given_name) c₃ given
    ∙ add-other (not (is_empty u.amr)) (txt "amr") k (texts u.amr) c₂ amr
    ∙ edov-other u.email_verified k c₁ edov'
    ∙ add-other b (txt "email") k (text u.email) c₀ email

-- A name that is no optional claim's is read from the fixed claims.
pub base_claims-fixed :
    (d : Digest) (lib : Library) (uti : Text) (i : TokenInput) (k : Text)
    → Apart k optional
    → lookup k (base_claims d lib uti i) ≡ lookup k (fixed_claims lib uti i)
unfolding base_claims
base_claims-fixed d lib uti i k
      (email, (edov', (amr, (given, (family, (roles, (wids, (sources, (names, (groups, _)))))))))) =
    add_groups-other d i k (personal lib uti i) sources names groups
    ∙ personal-fixed lib uti i k (email, (edov', (amr, (given, (family, (roles, (wids, tt)))))))

abbrev pub own_names : List Text
own_names = txt "appid" ∷ txt "azp" ∷ txt "scp" ∷ txt "aud" ∷ []

-- A name that is not one of an access token's own is read from the base claims.
pub access-base :
    (d : Digest) (lib : Library) (uti : Text) (i : TokenInput) (k : Text)
    → Apart k own_names
    → lookup k (access_token_claims d lib uti i) ≡ lookup k (base_claims d lib uti i)
unfolding access_token_claims
access-base d lib uti i k (appid, (azp, (scp, (aud, _)))) =
    let c₀ = base_claims d lib uti i in
    let c₁ = insert (txt "aud") (text graph_app_id) c₀ in
    let c₂ = insert (txt "scp") (text (scope_value i.scopes)) c₁ in
    let c₃ = insert (txt "azp") (text i.client_id) c₂ in
    lookup-insert-other (txt "appid") k (text i.client_id) c₃ appid
    ∙ lookup-insert-other (txt "azp") k (text i.client_id) c₂ azp
    ∙ lookup-insert-other (txt "scp") k (text (scope_value i.scopes)) c₁ scp
    ∙ lookup-insert-other (txt "aud") k (text graph_app_id) c₀ aud

pub access-fixed :
    (d : Digest) (lib : Library) (uti : Text) (i : TokenInput) (k : Text)
    → Apart k own_names
    → Apart k optional
    → lookup k (access_token_claims d lib uti i) ≡ lookup k (fixed_claims lib uti i)
access-fixed d lib uti i k h g = access-base d lib uti i k h ∙ base_claims-fixed d lib uti i k g
