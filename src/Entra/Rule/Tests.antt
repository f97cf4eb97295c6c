-- ===== src/Entra/Rule/Tests.antt =====
-- Membership rules at concrete sources.
use mock_oidc.Prelude.{err, refl, ◌≢◌, ◌≡◌, some, ok, []}
use mock_oidc.Text.{txt}
use mock_oidc.Entra.Types.{
  department, job_title, eq, contains, and_rule, not_rule, direct_reports, string_compare, nil,
  cons,
}
use mock_oidc.Entra.Rule.Lexer.{out_of_fuel}
use mock_oidc.Entra.Rule.Parser.{parse_rule}
use mock_oidc.Entra.Rule.Fuel.{parse_rule_total}

conjunction :
    parse_rule (txt "user.department -eq \"Sales\" -AND -not (user.jobTitle -contains \"lead\")")
    ≡ ok (
        and_rule (
          cons
            (string_compare department eq (some (txt "Sales")) [])
            (cons (not_rule (string_compare job_title contains (some (txt "lead")) [])) nil)))
unfolding parse_rule txt
conjunction = refl

manager_rule :
    parse_rule (txt "direct Reports for \"5D1C3B36-6f0e-4d4e-9a39-2d2f1f5e0c01\"")
    ≡ ok (direct_reports (txt "5d1c3b36-6f0e-4d4e-9a39-2d2f1f5e0c01"))
unfolding parse_rule txt
manager_rule = refl

parse_rule_total_example : parse_rule (txt "user.mail -eq") ≢ err out_of_fuel
parse_rule_total_example = parse_rule_total (txt "user.mail -eq")
