-- ===== src/Entra/Store/Published.antt =====
-- The invariant of the store of internal/entra/store.go.
use mock_oidc.Prelude.{
  [], ◌>>=◌, Bool-cases, refl, inl, inr, ok, Result, >>=-eq-ok, List, ◌≡◌, ◌∷◌, err,
}
use mock_oidc.Entra.Types.{Config}
use mock_oidc.Entra.Guid.{Digest}
use mock_oidc.Entra.Guid.Derived.{IsSha1}
use mock_oidc.Entra.Errors.{ConfigError}
use mock_oidc.Entra.Normalize.{normalize}
use mock_oidc.Entra.Normalize.Valid.{normalize-IsWellFormed}
use mock_oidc.Entra.Wellformed.{IsWellFormed}
use mock_oidc.Entra.Store.{
  Store, new_store, publish, mutate, Command, execute, run, reset, graph_enabled, tenant_created,
  tenant_updated, tenant_deleted, user_created, user_updated, user_deleted, renames,
}

-- The store's invariant: the seed and the snapshot are well-formed.
pub record IsSound (s : Store) : Type 0 where
  pub seed : IsWellFormed s.seed
  pub cur : IsWellFormed s.cur

module _ (d : Digest) (law : IsSha1 d) where
  mutate-IsSound :
      (fn : Config → Result ConfigError Config) (s : Store) → IsSound s → IsSound (mutate d fn s).1
  unfolding mutate
  mutate-IsSound fn s h = go (fn s.cur >>= normalize d) refl
    where
      go :
          (r : Result ConfigError Config) → (fn s.cur >>= normalize d) ≡ r → IsSound (publish s r).1
      go (err e) k = h
      go (ok c) k =
          let (a, _, k₁) = >>=-eq-ok (fn s.cur) (normalize d) k in
          record { seed = h.seed; cur = normalize-IsWellFormed d law a c k₁ }

  pub execute-IsSound : (cmd : Command) (s : Store) → IsSound s → IsSound (execute d cmd s).1
  unfolding execute
  execute-IsSound reset s h = record { seed = h.seed; cur = h.seed }
  execute-IsSound (graph_enabled b) s h = mutate-IsSound _ s h
  execute-IsSound (tenant_created t) s h = mutate-IsSound _ s h
  execute-IsSound (tenant_updated tid t) s h = elim (Bool-cases (renames t.tid tid)) [
    | inl e ↦ rw e h
    | inr e ↦ rw e (mutate-IsSound _ s h)
  ]
  execute-IsSound (tenant_deleted tid) s h = mutate-IsSound _ s h
  execute-IsSound (user_created u) s h = mutate-IsSound _ s h
  execute-IsSound (user_updated tid username u) s h = elim (Bool-cases (renames u.tid tid)) [
    | inl e ↦ rw e h
    | inr e ↦ rw e (mutate-IsSound _ s h)
  ]
  execute-IsSound (user_deleted tid username) s h = mutate-IsSound _ s h

  run-IsSound : (cmds : List Command) (s : Store) → IsSound s → IsSound (run d cmds s)
  unfolding run
  run-IsSound [] s h = h
  run-IsSound (cmd ∷ cmds) s h = run-IsSound cmds (execute d cmd s).1 (execute-IsSound cmd s h)

  -- If SHA-1 gives twenty bytes and the seed is a configuration that `normalize` returned, the
  -- snapshot is well-formed after every sequence of operations, failed ones and resets included.
  pub run-IsWellFormed :
      (c seed : Config) (cmds : List Command)
      → normalize d c ≡ ok seed
      → IsWellFormed (run d cmds (new_store seed)).cur
  run-IsWellFormed c seed cmds h =
      let valid = normalize-IsWellFormed d law c seed h in
      (run-IsSound cmds (new_store seed) (record { seed = valid; cur = valid })).cur
