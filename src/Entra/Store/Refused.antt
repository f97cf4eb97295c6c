-- ===== src/Entra/Store/Refused.antt =====
-- Creating a tenant of internal/entra/store.go under an id that is taken.
use mock_oidc.Prelude.{
  List, [], ◌∷◌, ◌++◌, All, Result, ok, err, some, ◌≡◌, refl, true, false, subst, ◌∙◌, map,
}
use mock_oidc.Text.{Text, mem, ◌==◌}
use mock_oidc.Entra.Types.{Config, Tenant}
use mock_oidc.Entra.Errors.{ConfigError}
use mock_oidc.Entra.Guid.{Digest}
use mock_oidc.Entra.Guid.Derived.{IsSha1}
use mock_oidc.Entra.Guid.Stable.{is_guid-stable}
use mock_oidc.Entra.Wellformed.{IsWellFormed, Distinct}
use mock_oidc.Entra.Normalize.{normalize, tids_of}
use mock_oidc.Entra.Normalize.Valid.{normalize-IsWellFormed}
use mock_oidc.Entra.Normalize.Keys.{norm, normalize-SameIds, AreGuids, IsWellFormed-AreGuids}
use mock_oidc.Entra.Store.{Store, publish, mutate, execute, tenant_created, create_tenant}

last-apart :
    (x y : Text) (xs : List Text) → All (λ z. (x == z) ≡ false) (xs ++ y ∷ []) → (x == y) ≡ false
last-apart x y [] (p, h) = p
last-apart x y (z ∷ xs) (p, h) = last-apart x y xs h

last-Distinct : (xs : List Text) (y : Text) → Distinct (xs ++ y ∷ []) → mem y xs ≡ false
unfolding mem
last-Distinct [] y h = refl
last-Distinct (x ∷ xs) y (p, h) =
    let rest = last-Distinct xs y h in rw (last-apart x y xs p, rest) refl

norm-append :
    (ts : List Tenant) (t : Tenant)
    → AreGuids (tids_of ts)
    → map norm (tids_of (ts ++ t ∷ [])) ≡ tids_of ts ++ norm t.tid ∷ []
norm-append [] t h = refl
norm-append (x ∷ ts) t (p, h) = cc (is_guid-stable x.tid p, norm-append ts t h)

-- If SHA-1 gives twenty bytes and the snapshot is well-formed, creating a tenant whose trimmed id is that of
-- a tenant of the snapshot, up to letter case, reports an error and leaves the store as it was.
pub tenant_created-refused :
    (d : Digest) (s : Store) (t : Tenant)
    → IsSha1 d
    → IsWellFormed s.cur
    → mem (norm t.tid) (tids_of s.cur.tenants) ≡ true
    → (e : ConfigError) × (execute d (tenant_created t) s ≡ (some e, s))
unfolding execute mutate create_tenant
tenant_created-refused d s t law w taken = go (normalize d created) refl
  where
    created : Config
    created = record s.cur { tenants = s.cur.tenants ++ t ∷ [] }

    go :
        (r : Result ConfigError Config)
        → normalize d created ≡ r
        → (e : ConfigError) × (publish s r ≡ (some e, s))
    go (err e) k = (e, refl)
    go (ok c) k =
        let guids = (IsWellFormed-AreGuids s.cur w).0 in
        let ids = (normalize-SameIds d created c k).tenants ∙ norm-append s.cur.tenants t guids in
        let valid = normalize-IsWellFormed d law created c k in
        let free =
          last-Distinct (tids_of s.cur.tenants) (norm t.tid) (subst Distinct ids valid.tids) in
        cc (taken, free)
