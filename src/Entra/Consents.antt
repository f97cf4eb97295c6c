-- ===== src/Entra/Consents.antt =====
-- internal/entra/consent.go: the admin consents, a map from client and tenant. The mutex makes each
-- operation one step.
pub mod Keys
pub mod Relation
mod Tests
use mock_oidc.Prelude.{ℕ, Bool, ◌∷◌, List, ◌++◌, [], not, is_some, map}
use mock_oidc.Entra.Types.{Consent}
use mock_oidc.Text.{Text, lower, has_suffix}
use mock_oidc.Assoc.{Assoc, insert, lookup, keep, delete}
use mock_oidc.Sorting.{sort_by}

pub record ConsentStore : Type 0 where
  pub seed : List Consent
  pub granted : Assoc Consent

-- consentKey
unfoldable pub consent_key : Text → Text → Text
consent_key client_id tid = client_id ++ (b'|' ∷ lower tid)

-- ConsentStore.Grant
unfoldable pub grant : Text → Text → ConsentStore → ConsentStore
grant client_id tid s = record s {
  granted =
      insert (consent_key client_id tid) (record { client_id = client_id; tid = lower tid })
        s.granted;
}

-- ConsentStore.Has
unfoldable pub has : Text → Text → ConsentStore → Bool
has client_id tid s = is_some (lookup (consent_key client_id tid) s.granted)

-- The loop of Reset.
unfoldable pub grant_all : List Consent → ConsentStore → ConsentStore
grant_all [] s = s
grant_all (c ∷ cs) s = grant_all cs (grant c.client_id c.tid s)

-- ConsentStore.Reset
unfoldable pub reset : ConsentStore → ConsentStore
reset s = grant_all s.seed (record s { granted = [] })

-- NewConsentStore
unfoldable pub new_consent_store : List Consent → ConsentStore
new_consent_store seed = reset (record { seed = seed; granted = [] })

-- ConsentStore.Remove
unfoldable pub remove : Text → Text → ConsentStore → ConsentStore
remove client_id tid s = record s { granted = delete (consent_key client_id tid) s.granted }

-- ConsentStore.RemoveTenant
unfoldable pub remove_tenant : Text → ConsentStore → ConsentStore
remove_tenant tid s = record s {
  granted = keep (λ k. not (has_suffix k (b'|' ∷ lower tid))) s.granted;
}

-- ConsentStore.List: by tenant, and within it by client
unfoldable pub list_consents : ConsentStore → List Consent
list_consents s =
    sort_by (λ (c : Consent). c.tid)
      (sort_by (λ (c : Consent). c.client_id) (map (λ (p : Text × Consent). p.1) s.granted))
