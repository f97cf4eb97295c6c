-- ===== src/Entra/Rule.antt =====
-- The evaluation of dynamic membership rules, internal/entra/rule.go.
pub mod Lexer
pub mod Comparisons
pub mod Parser
pub mod Progress
pub mod Fuel
pub mod Negation
mod Tests
use mock_oidc.Prelude.{
  ℕ, zero, suc, ◌+◌, ◌-◌, ◌*◌, ◌/◌, ◌%◌, ◌^◌, ◌≤◌, ◌<◌, String, ◌≡◌, refl, sym, ap, ◌∙◌, subst,
  ◌≡⟨◌⟩◌, ◌∎, ◌≢◌, ◌↔◌, ◌⊎◌, inl, inr, Bool, true, false, not, ◌&&◌, ◌||◌, Option, none, some, List,
  [], ◌∷◌, ◌++◌, map, reverse, append-nil, append_assoc, arith, ltb, leb, nat_eq, if◌then◌else◌,
  nat_eq_iff, Bool-cases, Option-cases, is_some, and-true, or-true, length, take, drop, is_empty,
  any, all, filter, find?, length-append, length-take, length-drop, take-append-drop, drop-drop,
  All, All-append, All-map, ℤ, pos, negsuc, pos_part, neg_part, ◌+ℤ◌, ◌-ℤ◌, ◌≤ℤ◌, leb_ℤ, ltb_ℤ,
  Result, ok, err, ◌>>=◌, ◌>>◌, guard, refuse, >>=-eq-ok,
}
use mock_oidc.Text
use mock_oidc.Text.{Text, ◌==◌, lower, equal_fold, has_prefix}
use mock_oidc.Entra.Types.{
  Attr, department, company_name, employee_id, job_title, office_location, display_name, mail,
  user_principal_name, extension_attribute1, extension_attribute2, extension_attribute3, Op, eq, ne,
  starts_with, not_starts_with, contains, not_contains, is_in, not_in, Rule, or_rule, and_rule,
  not_rule, direct_reports, string_compare, bool_compare, Rules, nil, cons, Config, Tenant, User,
}
use mock_oidc.Entra.Lookup.{manager_of, principal_name, enabled}

-- The functions of `userAttrs`.
unfoldable pub attribute : Tenant → User → Attr → Text
unfolding principal_name
attribute t u department = u.department
attribute t u company_name = u.company_name
attribute t u employee_id = u.employee_id
attribute t u job_title = u.job_title
attribute t u office_location = u.office_location
attribute t u display_name = u.name
attribute t u mail = u.email
attribute t u user_principal_name = principal_name t u
attribute t u extension_attribute1 = u.extension_attributes.extension_attribute1
attribute t u extension_attribute2 = u.extension_attributes.extension_attribute2
attribute t u extension_attribute3 = u.extension_attributes.extension_attribute3

abbrev pub bool_eq : Bool → Bool → Bool
bool_eq true b = b
bool_eq false b = not b

-- An unset value is null, and an unset attribute is null.
abbrev equals : Text → Option Text → Bool
equals got none = is_empty got
equals got (some v) = not (is_empty got) && equal_fold got v

-- The operand of the operators that need one; the parser supplies it.
abbrev operand : Option Text → Text
operand none = []
operand (some v) = v

-- stringCompare.match after the attribute has been read
unfoldable pub compare_string : Text → Op → Option Text → List Text → Bool
unfolding lower equal_fold has_prefix Text.contains ◌==◌
compare_string got eq value values = bool_eq (equals got value) true
compare_string got ne value values = bool_eq (equals got value) false
compare_string got starts_with value values =
    not (is_empty got) && has_prefix (lower got) (lower (operand value))
compare_string got not_starts_with value values =
    not (has_prefix (lower got) (lower (operand value))) || is_empty got
compare_string got contains value values =
    not (is_empty got) && Text.contains (lower got) (lower (operand value))
compare_string got not_contains value values =
    not (Text.contains (lower got) (lower (operand value))) || is_empty got
compare_string got is_in value values =
    bool_eq (any (λ v. not (is_empty got) && lower got == v) values) true
compare_string got not_in value values =
    bool_eq (any (λ v. not (is_empty got) && lower got == v) values) false

-- directReportsRule.match
abbrev pub reports_to : Option User → Text → Bool
reports_to none oid = false
reports_to (some m) oid = m.oid == oid

-- rule.match; `matches_any` and `matches_all` are the loops of `orRule` and `andRule`.
unfoldable mutual
  unfolding manager_of attribute compare_string ◌==◌

  pub matches : Config → Tenant → User → Rule → Bool
  matches c t u (or_rule rs) = matches_any c t u rs
  matches c t u (and_rule rs) = matches_all c t u rs
  matches c t u (not_rule r) = not (matches c t u r)
  matches c t u (direct_reports oid) = reports_to (manager_of c u) oid
  matches c t u (string_compare attr op value values) =
      compare_string (attribute t u attr) op value values
  matches c t u (bool_compare e value) = bool_eq (bool_eq (enabled u) value) e

  pub matches_any : Config → Tenant → User → Rules → Bool
  matches_any c t u nil = false
  matches_any c t u (cons r rs) = matches c t u r || matches_any c t u rs

  pub matches_all : Config → Tenant → User → Rules → Bool
  matches_all c t u nil = true
  matches_all c t u (cons r rs) = matches c t u r && matches_all c t u rs
