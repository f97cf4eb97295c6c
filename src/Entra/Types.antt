-- ===== src/Entra/Types.antt =====
-- The data of internal/entra/config.go, graphconfig.go and rule.go. A pointer that may be nil is an
-- `Option`, and Go's `int` and `int64` are ℤ. A snapshot is a value, so the deep copies of the code
-- (`cloneConfig`, `copyBool`) are not modelled.
use mock_oidc.Prelude.{Bool, Option, List, ℤ}
use mock_oidc.Text.{Text}

-- The user attributes that rules read.
pub data Attr : Type 0 where
  department company_name employee_id job_title office_location display_name mail : Attr
  user_principal_name extension_attribute1 extension_attribute2 extension_attribute3 : Attr

pub data Op : Type 0 where
  eq ne starts_with not_starts_with contains not_contains is_in not_in : Op

-- A compiled membership rule; `value` none is the literal null.
mutual
  pub data Rule : Type 0 where
    or_rule : Rules → Rule
    and_rule : Rules → Rule
    not_rule : Rule → Rule
    direct_reports : Text → Rule
    string_compare : Attr → Op → Option Text → List Text → Rule
    bool_compare : Bool → Bool → Rule

  pub data Rules : Type 0 where
    nil : Rules
    cons : Rule → Rules → Rules

pub record GraphConfig : Type 0 where
  pub enabled : Option Bool
  pub base_path : Text
  pub overage_endpoint : Text
  pub user_info : Option Bool
  pub app_only : Bool
  pub default_page_size : ℤ
  pub max_page_size : ℤ
  pub clock_skew : Option ℤ

pub record ClaimMapping : Type 0 where
  pub name : Text
  pub source : Text

pub record App : Type 0 where
  pub client_id : Text
  pub tid : Text
  pub roles : List Text
  pub claims : List ClaimMapping

pub record Group : Type 0 where
  pub name : Text
  pub description : Text
  pub mail_nickname : Text
  pub mail : Text
  pub oid : Text
  pub security_enabled : Option Bool
  pub mail_enabled : Option Bool
  pub membership_rule : Text
  pub rule : Option Rule

pub record Tenant : Type 0 where
  pub tid : Text
  pub name : Text
  pub domains : List Text
  pub group_claim_format : Text
  pub group_limit : ℤ
  pub consent_required : Bool
  pub groups : List Group

pub record Consent : Type 0 where
  pub client_id : Text
  pub tid : Text

pub record ExtAttrs : Type 0 where
  pub extension_attribute1 : Text
  pub extension_attribute2 : Text
  pub extension_attribute3 : Text

pub record User : Type 0 where
  pub username : Text
  pub tid : Text
  pub oid : Text
  pub name : Text
  pub email : Text
  pub email_verified : Option Bool
  pub groups : List Text
  pub amr : List Text
  pub admin : Bool
  pub error : Text
  pub mfa : Text
  pub given_name : Text
  pub surname : Text
  pub upn : Text
  pub account_enabled : Option Bool
  pub job_title : Text
  pub office_location : Text
  pub business_phones : List Text
  pub mobile_phone : Text
  pub preferred_language : Text
  pub roles : List Text
  pub wids : List Text
  pub manager : Text
  pub department : Text
  pub company_name : Text
  pub employee_id : Text
  pub extension_attributes : ExtAttrs
  pub dynamic_groups : List Text

pub record Config : Type 0 where
  pub base_path : Text
  pub default_group_limit : ℤ
  pub token_expiry : ℤ
  pub ignore_login_hint : Bool
  pub graph : Option GraphConfig
  pub tenants : List Tenant
  pub consents : List Consent
  pub apps : List App
  pub users : List User
