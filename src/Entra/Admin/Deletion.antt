-- ===== src/Entra/Admin/Deletion.antt =====
-- Deleting a tenant through the admin API.
use mock_oidc.Prelude.{◌≡◌, refl, false, subst, none, sym, Option, some, ◌∙◌}
use mock_oidc.Text.{Text, lower, trim_space, ◌==◌}
use mock_oidc.Entra.Admin.{admin_delete_tenant, Emulator, without_consents}
use mock_oidc.Entra.Store.{norm_tid, execute, tenant_deleted, Store}
use mock_oidc.Entra.Guid.{Digest}
use mock_oidc.Entra.Store.Cascade.{IsCascade, tenant_deleted-IsCascade}
use mock_oidc.Entra.Wellformed.{IsWellFormed}
use mock_oidc.Entra.Consents.Keys.{NoBar}
use mock_oidc.Entra.Consents.{remove_tenant, has}
use mock_oidc.Entra.Errors.{ConfigError}
use mock_oidc.Entra.Consents.Relation.{remove_tenant-has}
use mock_oidc.Text.Laws.{==-refl}

-- The tenant is gone with its users, and no client has consent in it; the other consents are as before.
pub record IsErased (d : Digest) (tid : Text) (before after : Emulator) : Type 0 where
  pub cascade : IsCascade d (lower tid) before.store.cur after.store.cur
  pub no_consent :
      (client tid' : Text)
      → lower tid' ≡ lower tid
      → NoBar (lower tid)
      → has client tid' after.consents ≡ false
  pub other_consents :
      (client tid' : Text)
      → (lower tid' == lower tid) ≡ false
      → NoBar (lower tid)
      → NoBar (lower tid')
      → has client tid' after.consents ≡ has client tid' before.consents
  pub keys : after.keys ≡ before.keys
  pub codes : after.codes ≡ before.codes

-- What a successful deletion does to the parts.
deleted :
    (d : Digest) (tid : Text) (e : Emulator)
    → (admin_delete_tenant d tid e).0 ≡ none
    → ((execute d (tenant_deleted tid) e.store).0 ≡ none)
      × ((admin_delete_tenant d tid e).1 ≡ record e {
        store = (execute d (tenant_deleted tid) e.store).1;
        consents = remove_tenant tid e.consents;
      })
unfolding admin_delete_tenant
deleted d tid e h = outcome (execute d (tenant_deleted tid) e.store) h
  where
    outcome :
        (r : Option ConfigError × Store)
        → (without_consents tid e r).0 ≡ none
        → (r.0 ≡ none)
          × ((without_consents tid e r).1
              ≡ record e { store = r.1; consents = remove_tenant tid e.consents })
    outcome (some x, s) h = cc
    outcome (none, s) h = (refl, refl)

-- If deleting a tenant through the admin API succeeds, on a well-formed configuration and with an id
-- without surrounding spaces, then the tenant, its users and its seeded consents leave the snapshot, no
-- client has consent in it, consents in other tenants stay, and keys and pending codes are as before.
-- The ids that the consents are asked about are free of bars.
pub admin_delete_tenant-IsErased :
    (d : Digest) (tid : Text) (e : Emulator)
    → IsWellFormed e.store.cur
    → trim_space tid ≡ tid
    → (admin_delete_tenant d tid e).0 ≡ none
    → IsErased d tid e (admin_delete_tenant d tid e).1
unfolding norm_tid
admin_delete_tenant-IsErased d tid e w plain h =
    let (done', same) = deleted d tid e h in
    subst (λ (x : Emulator). IsErased d tid e x) (sym same)
      (record {
        cascade =
            subst
              (λ (t : Text).
                IsCascade d (lower t) e.store.cur (execute d (tenant_deleted tid) e.store).1.cur)
              plain (tenant_deleted-IsCascade d e.store tid w done');
        no_consent = λ client tid' eq bar.
            remove_tenant-has e.consents tid client tid' bar (subst NoBar (sym eq) bar)
            ∙ rw (eq, ==-refl (lower tid)) refl;
        other_consents = λ client tid' ne bar bar'.
            remove_tenant-has e.consents tid client tid' bar bar' ∙ rw ne refl;
        keys = refl;
        codes = refl;
      })
