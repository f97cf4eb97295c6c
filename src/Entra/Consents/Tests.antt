-- ===== src/Entra/Consents/Tests.antt =====
-- The consent store at concrete tenants.
use mock_oidc.Entra.Consents.Relation.{
  granted, ConsentCommand, tenant_removed, effects, seeded, run-refines,
}
use mock_oidc.Prelude.{refl, ◌∷◌, List, [], ◌≡◌}
use mock_oidc.Text.{lower, lower_rune, txt}
use mock_oidc.Entra.Consents.{has, new_consent_store}
use mock_oidc.Entra.Consents.Keys.{NoBar}
use mock_oidc.Entra.Consents.Relation.{run}

plain_t1 : NoBar (lower (txt "t1"))
unfolding lower lower_rune txt
plain_t1 = (refl, (refl, tt))

plain_t2 : NoBar (lower (txt "T2"))
unfolding lower lower_rune txt
plain_t2 = (refl, (refl, tt))

abbrev commands : List ConsentCommand
commands = granted (txt "app") (txt "T2") ∷ tenant_removed (txt "t1") ∷ []

run-refines_example :
    has (txt "app") (txt "T2") (run commands (new_consent_store []))
    ≡ effects [] commands (seeded []) (txt "app") (txt "T2")
run-refines_example =
    run-refines [] commands (txt "app") (txt "T2") tt (plain_t2, (plain_t1, tt)) plain_t2
