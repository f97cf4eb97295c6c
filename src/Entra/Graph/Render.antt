-- ===== src/Entra/Graph/Render.antt =====
-- internal/entra/graph.go: users and groups as JSON entities. Where a user has no tenant, no UPN
-- and no e-mail address, the code reads a nil pointer.
use mock_oidc.Entra.Lookup.{tenant, enabled, principal_name}
use mock_oidc.Entra.Directory.{DirGroup}
use mock_oidc.Prelude.{some, none, if◌then◌else◌, map, List, ◌∷◌, [], Option, is_empty}
use mock_oidc.Text.{Text, txt}
use mock_oidc.Entra.Types.{Tenant, Config, User}
use mock_oidc.Json.{Fields, Json, field, null, strings, string, boolean, object, done}

-- nullable
abbrev pub nullable : Text → Json
nullable s = if is_empty s then null else string s

abbrev pub upn_of : Option Tenant → User → Text
upn_of none u = if is_empty u.upn then u.email else u.upn
upn_of (some t) u = principal_name t u

-- graphUser
unfoldable pub graph_user : Config → User → Fields
graph_user c u = field (txt "id") (string u.oid) (
    field (txt "displayName") (string u.name) (
      field (txt "userPrincipalName") (string (upn_of (tenant c u.tid) u)) (
        field (txt "mail") (nullable u.email) (
          field (txt "givenName") (nullable u.given_name) (
            field (txt "surname") (nullable u.surname) (
              field (txt "jobTitle") (nullable u.job_title) (
                field (txt "officeLocation") (nullable u.office_location) (
                  field (txt "mobilePhone") (nullable u.mobile_phone) (
                    field (txt "businessPhones") (strings u.business_phones) (
                      field (txt "preferredLanguage") (nullable u.preferred_language) (
                        field (txt "accountEnabled") (boolean (enabled u)) (
                          field (txt "department") (nullable u.department) (
                            field (txt "companyName") (nullable u.company_name) (
                              field (txt "employeeId") (nullable u.employee_id) (
                                field (txt "onPremisesExtensionAttributes")
                                  (object (
                                    field (txt "extensionAttribute1")
                                      (nullable u.extension_attributes.extension_attribute1)
                                      (field (txt "extensionAttribute2")
                                        (nullable u.extension_attributes.extension_attribute2)
                                        (field (txt "extensionAttribute3")
                                          (nullable u.extension_attributes.extension_attribute3)
                                          done))))
                                  done)))))))))))))))

abbrev dynamic_type : Text → Json
dynamic_type rule = strings (if is_empty rule then [] else txt "DynamicMembership" ∷ [])

abbrev processing : Text → Json
processing rule = if is_empty rule then null else string (txt "On")

-- graphGroup
unfoldable pub graph_group : DirGroup → Fields
graph_group g = field (txt "id") (string g.oid) (
    field (txt "displayName") (string g.name) (
      field (txt "description") (nullable g.description) (
        field (txt "mail") (nullable g.mail) (
          field (txt "mailNickname") (nullable g.mail_nickname) (
            field (txt "mailEnabled") (boolean g.mail_enabled) (
              field (txt "securityEnabled") (boolean g.security_enabled) (
                field (txt "groupTypes") (dynamic_type g.membership_rule) (
                  field (txt "membershipRule") (nullable g.membership_rule) (
                    field (txt "membershipRuleProcessingState") (processing g.membership_rule)
                      done)))))))))

-- graphUsers
unfoldable pub graph_users : Config → List User → List Fields
graph_users c us = map (graph_user c) us

-- graphGroups
unfoldable pub graph_groups : List DirGroup → List Fields
graph_groups gs = map graph_group gs
