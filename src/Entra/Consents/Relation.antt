-- ===== src/Entra/Consents/Relation.antt =====
-- The consent store against the relation it keeps: which client has consent in which tenant.
use mock_oidc.Prelude.{
  if◌then◌else◌, List, any, refl, ◌&&◌, none, sym, Option, Bool, [], false, inr, ◌∙◌, ◌||◌,
  Bool-cases, not, is_some, ◌∷◌, inl, ap, true, ◌≡◌, All, subst, arith,
}
use mock_oidc.Text.{Text, ◌==◌, lower, has_suffix}
use mock_oidc.Entra.Consents.{
  ConsentStore, consent_key, grant, remove, has, remove_tenant, reset, grant_all, new_consent_store,
}
use mock_oidc.Entra.Types.{Consent}
use mock_oidc.Entra.Consents.Keys.{NoBar, joined-eq, has_suffix-joined}
use mock_oidc.Assoc.{lookup-delete-other, lookup-keep, lookup}
use mock_oidc.Text.Laws.{==-sym}

-- The operations of the store.
pub data ConsentCommand : Type 0 where
  granted : Text → Text → ConsentCommand
  revoked : Text → Text → ConsentCommand
  tenant_removed : Text → ConsentCommand
  restored : ConsentCommand

unfoldable pub execute : ConsentCommand → ConsentStore → ConsentStore
execute (granted client tid) s = grant client tid s
execute (revoked client tid) s = remove client tid s
execute (tenant_removed tid) s = remove_tenant tid s
execute restored s = reset s

unfoldable pub run : List ConsentCommand → ConsentStore → ConsentStore
run [] s = s
run (cmd ∷ cmds) s = run cmds (execute cmd s)

-- One client in one tenant; tenant ids differ by more than letter case.
abbrev pub same : Text → Text → Text → Text → Bool
same client tid client' tid' = client == client' && lower tid == lower tid'

abbrev pub seeded : List Consent → Text → Text → Bool
seeded cs client tid = any (λ (c : Consent). same c.client_id c.tid client tid) cs

abbrev pub Relation : Type 0
Relation = Text → Text → Bool

-- What the operations do to the relation.
unfoldable pub effect : List Consent → ConsentCommand → Relation → Relation
effect seed (granted client tid) r client' tid' = same client tid client' tid' || r client' tid'
effect seed (revoked client tid) r client' tid' =
    not (same client tid client' tid') && r client' tid'
effect seed (tenant_removed tid) r client' tid' = not (lower tid' == lower tid) && r client' tid'
effect seed restored r client' tid' = seeded seed client' tid'

unfoldable pub effects : List Consent → List ConsentCommand → Relation → Relation
effects seed [] r = r
effects seed (cmd ∷ cmds) r = effects seed cmds (effect seed cmd r)

-- No tenant id of the command has a bar.
abbrev pub Plain : ConsentCommand → Type 0
Plain (granted client tid) = NoBar (lower tid)
Plain (revoked client tid) = NoBar (lower tid)
Plain (tenant_removed tid) = NoBar (lower tid)
Plain restored = Unit

-- The store answers as the relation says, for tenant ids without a bar.
abbrev Agrees : ConsentStore → Relation → Type 0
Agrees s r = (client tid : Text) → NoBar (lower tid) → has client tid s ≡ r client tid

key-eq :
    (client tid client' tid' : Text)
    → NoBar (lower tid)
    → NoBar (lower tid')
    → (consent_key client tid == consent_key client' tid') ≡ same client tid client' tid'
unfolding consent_key
key-eq client tid client' tid' h h' = joined-eq client client' (lower tid) (lower tid') h h'

if-is_some :
    {A : Type 0} (b : Bool) (o : Option A) → is_some (if b then o else none) ≡ (b && is_some o)
if-is_some true o = refl
if-is_some false o = refl

pub grant-has :
    (s : ConsentStore) (client tid client' tid' : Text)
    → NoBar (lower tid)
    → NoBar (lower tid')
    → has client' tid' (grant client tid s) ≡ (same client tid client' tid' || has client' tid' s)
unfolding grant has
grant-has s client tid client' tid' h h' =
    let e = key-eq client tid client' tid' h h' in
    elim (Bool-cases (consent_key client tid == consent_key client' tid')) [
      | inl t ↦ rw (t, sym e ∙ t) refl
      | inr t ↦
          rw (t, sym e ∙ t)
            (ap (λ o. is_some o)
              (lookup-delete-other (consent_key client tid) (consent_key client' tid') s.granted
                (==-sym (consent_key client' tid') (consent_key client tid) ∙ t)))
    ]

remove-has :
    (s : ConsentStore) (client tid client' tid' : Text)
    → NoBar (lower tid)
    → NoBar (lower tid')
    → has client' tid' (remove client tid s)
      ≡ (not (same client tid client' tid') && has client' tid' s)
unfolding remove has
remove-has s client tid client' tid' h h' =
    let key = consent_key client tid in
    let key' = consent_key client' tid' in
    ap (λ o. is_some o) (lookup-keep (λ k. not (k == key)) key' s.granted)
    ∙ if-is_some (not (key' == key)) (lookup key' s.granted)
    ∙ ap (λ b. not b && is_some (lookup key' s.granted))
        (==-sym key' key ∙ key-eq client tid client' tid' h h')

pub remove_tenant-has :
    (s : ConsentStore) (tid client' tid' : Text)
    → NoBar (lower tid)
    → NoBar (lower tid')
    → has client' tid' (remove_tenant tid s) ≡ (not (lower tid' == lower tid) && has client' tid' s)
unfolding remove_tenant has consent_key
remove_tenant-has s tid client' tid' h h' =
    let key' = consent_key client' tid' in
    ap (λ o. is_some o) (lookup-keep (λ k. not (has_suffix k (b'|' ∷ lower tid))) key' s.granted)
    ∙ if-is_some (not (has_suffix key' (b'|' ∷ lower tid))) (lookup key' s.granted)
    ∙ ap (λ b. not b && is_some (lookup key' s.granted))
        (has_suffix-joined client' (lower tid') (lower tid) h' h)

-- No tenant id of the seed has a bar.
abbrev pub PlainSeed : List Consent → Type 0
PlainSeed cs = All (λ (c : Consent). NoBar (lower c.tid)) cs

grant_all-has :
    (cs : List Consent) (s : ConsentStore) (client' tid' : Text)
    → PlainSeed cs
    → NoBar (lower tid')
    → has client' tid' (grant_all cs s) ≡ (seeded cs client' tid' || has client' tid' s)
unfolding grant_all
grant_all-has [] s client' tid' h h' = refl
grant_all-has (c ∷ cs) s client' tid' (p, h) h' =
    grant_all-has cs (grant c.client_id c.tid s) client' tid' h h'
    ∙ ap (λ b. seeded cs client' tid' || b) (grant-has s c.client_id c.tid client' tid' p h')
    ∙ ground arith

grant_all-seed : (cs : List Consent) (s : ConsentStore) → (grant_all cs s).seed ≡ s.seed
unfolding grant_all grant
grant_all-seed [] s = refl
grant_all-seed (c ∷ cs) s = grant_all-seed cs (grant c.client_id c.tid s)

reset-has :
    (s : ConsentStore) (client' tid' : Text)
    → PlainSeed s.seed
    → NoBar (lower tid')
    → has client' tid' (reset s) ≡ seeded s.seed client' tid'
unfolding reset has
reset-has s client' tid' h h' =
    grant_all-has s.seed (record s { granted = [] }) client' tid' h h' ∙ ground arith

execute-seed : (cmd : ConsentCommand) (s : ConsentStore) → (execute cmd s).seed ≡ s.seed
unfolding execute grant remove remove_tenant reset
execute-seed (granted client tid) s = refl
execute-seed (revoked client tid) s = refl
execute-seed (tenant_removed tid) s = refl
execute-seed restored s = grant_all-seed s.seed (record s { granted = [] })

execute-Agrees :
    (cmd : ConsentCommand) (s : ConsentStore) (r : Relation)
    → PlainSeed s.seed
    → Plain cmd
    → Agrees s r
    → Agrees (execute cmd s) (effect s.seed cmd r)
unfolding execute effect
execute-Agrees (granted client tid) s r hs h a client' tid' h' =
    grant-has s client tid client' tid' h h'
    ∙ ap (λ b. same client tid client' tid' || b) (a client' tid' h')
execute-Agrees (revoked client tid) s r hs h a client' tid' h' =
    remove-has s client tid client' tid' h h'
    ∙ ap (λ b. not (same client tid client' tid') && b) (a client' tid' h')
execute-Agrees (tenant_removed tid) s r hs h a client' tid' h' =
    remove_tenant-has s tid client' tid' h h'
    ∙ ap (λ b. not (lower tid' == lower tid) && b) (a client' tid' h')
execute-Agrees restored s r hs h a client' tid' h' = reset-has s client' tid' hs h'

run-Agrees :
    (cmds : List ConsentCommand) (s : ConsentStore) (r : Relation)
    → PlainSeed s.seed
    → All Plain cmds
    → Agrees s r
    → Agrees (run cmds s) (effects s.seed cmds r)
unfolding run effects
run-Agrees [] s r hs h a = a
run-Agrees (cmd ∷ cmds) s r hs (p, h) a =
    let e = execute-seed cmd s in
    subst
      (λ (seed : List Consent).
        Agrees (run cmds (execute cmd s)) (effects seed cmds (effect s.seed cmd r)))
      e
      (run-Agrees cmds (execute cmd s) (effect s.seed cmd r) (subst PlainSeed (sym e) hs) h
        (execute-Agrees cmd s r hs p a))

-- If no tenant id of the seed, of the commands and of the question has a bar (a GUID has none), then
-- after every sequence of grants, revocations, tenant removals and resets on a new store, a client has
-- consent in a tenant exactly when the relation says so: the seed's pairs, changed by each command in
-- turn, where tenant ids count up to letter case.
pub run-refines :
    (seed : List Consent) (cmds : List ConsentCommand) (client tid : Text)
    → PlainSeed seed
    → All Plain cmds
    → NoBar (lower tid)
    → has client tid (run cmds (new_consent_store seed))
      ≡ effects seed cmds (seeded seed) client tid
unfolding new_consent_store reset
run-refines seed cmds client tid hs h k =
    let s : ConsentStore = record { seed = seed; granted = [] } in
    let e = grant_all-seed seed s in
    subst
      (λ (x : List Consent).
        has client tid (run cmds (reset s)) ≡ effects x cmds (seeded seed) client tid)
      e
      (run-Agrees cmds (reset s) (seeded seed) (subst PlainSeed (sym e) hs) h
        (λ client' tid' h'. reset-has s client' tid' hs h') client tid k)
