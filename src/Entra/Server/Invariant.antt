-- ===== src/Entra/Server/Invariant.antt =====
-- The invariant of the emulation, over requests and admin actions.
use mock_oidc.Prelude.{ℕ}
use mock_oidc.Prelude.{ℕ, ◌≡◌, List, [], ok, ◌∷◌, none, some, Option, subst, sym}
use mock_oidc.Entra.Admin.{
  Emulator, admin_rotate_keys, admin_edit, admin_delete_tenant, admin_revoke_consent,
  admin_reset_to_seed, new_emulator, without_consents,
}
use mock_oidc.Entra.Server.{Outside, Draw, ServerRequest}
use mock_oidc.Entra.Server.Handle.{handle}
use mock_oidc.Entra.Keys.Rotation.{
  IsKeySet, rotate-IsKeySet, new_key_set-IsKeySet, signing_key, active-published,
}
use mock_oidc.Text.{Text}
use mock_oidc.Entra.Store.{Command, execute, Store, tenant_deleted}
use mock_oidc.Entra.Store.Published.{IsSound, execute-IsSound}
use mock_oidc.Entra.Guid.Derived.{IsSha1}
use mock_oidc.Entra.Errors.{ConfigError}
use mock_oidc.Entra.Types.{Config}
use mock_oidc.Entra.Normalize.{normalize}
use mock_oidc.Entra.Wellformed.{IsWellFormed}
use mock_oidc.Entra.Keys.{SigningKey, active, by_kid}
use mock_oidc.Entra.Normalize.Valid.{normalize-IsWellFormed}
use mock_oidc.Entra.Server.Kept.{handle-IsKept}

-- A step of the running server: a request, or an action of the admin UI.
pub data Step : Type 0 where
  requested : Draw → ServerRequest → Step
  edited : Command → Step
  tenant_removed : Text → Step
  consent_revoked : Text → Text → Step
  restored : Step
  rotated : ℕ → Step

unfoldable pub step : Outside → Step → Emulator → Emulator
step o (requested w r) e = (handle o w r e).1
step o (edited cmd) e = (admin_edit o.digest cmd e).1
step o (tenant_removed tid) e = (admin_delete_tenant o.digest tid e).1
step o (consent_revoked client tid) e = admin_revoke_consent client tid e
step o restored e = admin_reset_to_seed e
step o (rotated secret) e = admin_rotate_keys secret e

unfoldable pub steps : Outside → List Step → Emulator → Emulator
steps o [] e = e
steps o (s ∷ ss) e = steps o ss (step o s e)

-- The seed and the snapshot are well-formed, and the signing keys are one or two in a row.
record IsRunning (e : Emulator) : Type 0 where
  sound : IsSound e.store
  key_set : IsKeySet e.keys

module _ (o : Outside) (law : IsSha1 o.digest) where
  executed-IsSound :
      (cmd : Command) (e : Emulator) → IsRunning e → IsSound (execute o.digest cmd e.store).1
  executed-IsSound cmd e h = execute-IsSound o.digest law cmd e.store h.sound

  step-IsRunning : (s : Step) (e : Emulator) → IsRunning e → IsRunning (step o s e)
  unfolding step admin_edit admin_delete_tenant admin_revoke_consent admin_reset_to_seed
      admin_rotate_keys
  step-IsRunning (requested w r) e h =
      let kept = handle-IsKept o w r e in
      record { sound = subst IsSound (sym kept.store) h.sound; key_set = kept.keys h.key_set }
  step-IsRunning (edited cmd) e h = record { sound = executed-IsSound cmd e h; key_set = h.key_set }
  step-IsRunning (tenant_removed tid) e h =
      removed (execute o.digest (tenant_deleted tid) e.store)
        (executed-IsSound (tenant_deleted tid) e h)
    where
      removed :
          (r : Option ConfigError × Store) → IsSound r.1 → IsRunning (without_consents tid e r).1
      removed (some x, s) k = record { sound = k; key_set = h.key_set }
      removed (none, s) k = record { sound = k; key_set = h.key_set }
  step-IsRunning (consent_revoked client tid) e h = record { sound = h.sound; key_set = h.key_set }
  step-IsRunning restored e h = record {
    sound = record { seed = h.sound.seed; cur = h.sound.seed };
    key_set = h.key_set;
  }
  step-IsRunning (rotated secret) e h = record {
    sound = h.sound;
    key_set = rotate-IsKeySet secret e.keys h.key_set;
  }

  steps-IsRunning : (ss : List Step) (e : Emulator) → IsRunning e → IsRunning (steps o ss e)
  unfolding steps
  steps-IsRunning [] e h = h
  steps-IsRunning (s ∷ ss) e h = steps-IsRunning ss (step o s e) (step-IsRunning s e h)

  -- If SHA-1 gives twenty bytes and the emulation starts from a normalized configuration, then after
  -- every sequence of requests and admin actions the configuration is well-formed, and there is a key
  -- that signs and that its kid finds among the published keys.
  pub steps-IsWellFormed :
      (c seed : Config) (secret : ℕ) (ss : List Step)
      → normalize o.digest c ≡ ok seed
      → IsWellFormed (steps o ss (new_emulator seed secret)).store.cur
        × (a : SigningKey) × (active (steps o ss (new_emulator seed secret)).keys.keys ≡ some a)
        × (by_kid a.kid (steps o ss (new_emulator seed secret)).keys ≡ some a)
  unfolding new_emulator
  steps-IsWellFormed c seed secret ss h =
      let valid = normalize-IsWellFormed o.digest law c seed h in
      let start : IsRunning (new_emulator seed secret) = record {
        sound = record { seed = valid; cur = valid };
        key_set = new_key_set-IsKeySet secret;
      } in
      let run = steps-IsRunning ss (new_emulator seed secret) start in
      let (a, s, p) = signing_key (steps o ss (new_emulator seed secret)).keys run.key_set in
      (
        run.sound.cur,
        a,
        s,
        active-published (steps o ss (new_emulator seed secret)).keys a run.key_set s,
      )
