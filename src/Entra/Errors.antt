-- ===== src/Entra/Errors.antt =====
-- The errors of internal/entra/config.go, graphconfig.go and store.go: a constructor for each message,
-- with the names that it quotes. `nil_dereference` is a Go panic.
use mock_oidc.Text.{Text}
use mock_oidc.Entra.Rule.Lexer.{RuleError}

pub data ConfigError : Type 0 where
  bad_base_path bad_graph_base_path reserved_graph_base_path guid_graph_base_path :
      Text → ConfigError
  bad_overage_endpoint negative_clock_skew no_tenants nil_dereference : ConfigError
  tid_not_a_guid duplicate_tid bad_group_claim_format : Text → ConfigError
  group_without_name : Text → ConfigError
  duplicate_group group_oid_not_a_guid : Text → Text → ConfigError
  bad_membership_rule : Text → Text → RuleError → ConfigError
  app_without_client_id consent_incomplete user_without_name : ConfigError
  app_unknown_tid user_unknown_tid duplicate_username : Text → Text → ConfigError
  claim_without_name : Text → ConfigError
  reserved_claim duplicate_claim unsupported_source : Text → Text → ConfigError
  bad_user_error bad_mfa oid_not_a_guid wid_not_a_guid own_manager : Text → ConfigError
  unknown_manager static_member_of_dynamic : Text → Text → ConfigError
  tid_cannot_be_changed not_found : ConfigError
