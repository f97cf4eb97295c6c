-- ===== src/Entra/Graph/Tests.antt =====
-- The Graph surface and the consent page at a concrete tenant, and the theorems at inputs that meet
-- their hypotheses.
use mock_oidc.Entra.Filter.Lexer.{between, emit, scan, no_fuel, quoted_tok}
use mock_oidc.Prelude.{
  refl, inl, ◌≡◌, length, leb, ◌≤◌, Result, ◌++◌, none, some, err, ◌≢◌, inr, List, subst, true,
  Option, Bool-cases, false, arith, is_empty, filter, ok, ◌∷◌, [], some-eq, nat_eq, any,
}
use mock_oidc.Entra.Lookup.{user, tenant, users_in, member_groups, group_meta}
use mock_oidc.Entra.Handler.{Handler, Scope}
use mock_oidc.Entra.Types.{User, Config, Tenant}
use mock_oidc.Oauth2.Request.{Request, Form, get, query_param, form_param}
use mock_oidc.Text.{txt, lower, Text, lower_rune, ◌==◌, trim_space, trim, trim_left, is_space, mem}
use mock_oidc.Entra.Consents.{has, grant, consent_key}
use mock_oidc.Entra.Directory.{
  DirGroup, group_by_id, members_of, dir_group, groups_in, groups_of, sort_groups, named_once,
}
use mock_oidc.Json.{Fields, field, done, string, keep_fields}
use mock_oidc.Entra.Odata.{
  Schemas, reject_unsupported_options, refused_here, type_group, has_option, filter_items,
  select_all, apply_select, select_only, Page, page_of, parse_top, parse_skip, render_collection,
}
use mock_oidc.Entra.Odata.Bounds.{at_most, most, render_collection-bounds}
use mock_oidc.Entra.Verify.{GraphError}
use mock_oidc.Entra.Graphconfig.{page_size}
use mock_oidc.Text.Decimal.{atoi}
use mock_oidc.Entra.Filter.Parser.{parse_filter}
use mock_oidc.Entra.Sessions.{account, directory, home, library}
use mock_oidc.Entra.Consents.Keys.{NoBar}
use mock_oidc.Entra.Adminconsent.{admin_consent_post, answer_post, decide, require_consent_params}
use mock_oidc.Entra.Adminconsent.Granted.{IsAccepted, admin_consent_post-IsAccepted}
use mock_oidc.Entra.Tests.{digest}
use mock_oidc.Entra.Odata.Follow.{IsListed}
use mock_oidc.Entra.Filter.Fuel.{parse_filter_total}
use mock_oidc.Entra.Filter.Quoting.{quoted_text, unquoted, scan-quoted_text}
use mock_oidc.Entra.Directory.Members.{in_group, members_of-groups_of}
use mock_oidc.Entra.Authorize.{posted_user}
use mathlib.Core.List.{Perm}
use mock_oidc.Sorting.{IsSorted, sort_by, insert_by}
use mock_oidc.Entra.Guid.{group_object_id, uuid_v5}

abbrev boss : User
boss = record account { username = txt "root"; admin = true }

abbrev company : Config
company = record directory { users = record account { groups = txt "sales" ∷ [] } ∷ boss ∷ [] }

abbrev office : Handler
office = record { conf = company; consents = record { seed = []; granted = [] }; codes = [] }

abbrev pub acceptance : Request
acceptance = record {
  form =
      (txt "tid", txt "11111111-1111-4111-8111-111111111111")
      ∷ (txt "username", txt "root")
      ∷ (txt "action", txt "accept")
      ∷ [];
  query = (txt "client_id", txt "app") ∷ (txt "redirect_uri", txt "https://app.test/cb") ∷ [];
  basic_user = none;
  origin = txt "http://localhost";
  request_uri = [];
}

abbrev path : Scope
path = record { segment = txt "organizations"; tenant = none }

NoBar-any : (s : Text) → any (λ c. nat_eq c b'|') s ≡ false → NoBar s
NoBar-any [] h = tt
NoBar-any (c ∷ s) h = (ground (arith, h), NoBar-any s (ground (arith, h)))

plain_home : NoBar (lower home.tid)
unfolding lower lower_rune txt
plain_home = NoBar-any (lower home.tid) refl

plain_tenants : (seg : Text) (t : Tenant) → tenant company seg ≡ some t → NoBar (lower t.tid)
unfolding tenant
plain_tenants seg t h = elim (Bool-cases (home.tid == lower seg)) [
  | inl e ↦ subst (λ (x : Tenant). NoBar (lower x.tid)) (some-eq (rw e at h)) plain_home
  | inr e ↦ cc (rw e at h)
]

before : has (txt "app") home.tid office.consents ≡ false
unfolding has
before = refl

after :
    has (txt "app") home.tid (admin_consent_post library acceptance path office).1.consents ≡ true
unfolding has admin_consent_post answer_post decide require_consent_params query_param get
    form_param posted_user user tenant grant consent_key txt ◌==◌ lower lower_rune
after = refl

admin_consent_post-IsAccepted_example :
    (t : Tenant) × IsAccepted acceptance path office t
    × (lower t.tid ≡ lower home.tid)
    × (query_param (txt "client_id") acceptance ≡ txt "app")
admin_consent_post-IsAccepted_example =
    admin_consent_post-IsAccepted library acceptance path office (txt "app") home.tid plain_tenants
      plain_home before after

abbrev group_of : Option DirGroup → DirGroup
group_of (some g) = g
group_of none = dir_group digest home []

abbrev sales : DirGroup
sales = group_of (group_by_id digest company home.tid (txt "sales"))

found : group_by_id digest company home.tid (txt "sales") ≡ some sales
unfolding group_by_id groups_in tenant txt ◌==◌ lower lower_rune trim_space trim trim_left is_space
    sort_groups sort_by insert_by named_once mem users_in member_groups dir_group group_meta
    group_object_id uuid_v5
found = refl

not_empty : is_empty (lower home.tid) ≡ false
unfolding lower txt
not_empty = refl

members_of-groups_of_example :
    Perm (members_of digest company home.tid (txt "sales")) (
      filter
        (λ (u : User). in_group sales.name (groups_of digest company u))
        (users_in company home.tid))
    × IsSorted (λ (u : User). u.oid) (members_of digest company home.tid (txt "sales"))
members_of-groups_of_example =
    members_of-groups_of digest company home.tid (txt "sales") sales not_empty found

abbrev item : Text → Fields
item s = field (txt "id") (string s) done

abbrev three : List Fields
three = item (b'a' ∷ []) ∷ item (b'b' ∷ []) ∷ item (b'c' ∷ []) ∷ []

abbrev by_two : Form
by_two = (txt "$top", txt "2") ∷ []

abbrev no_schema : Schemas
no_schema s = done

listed : IsListed no_schema company type_group false three three three by_two
unfolding reject_unsupported_options refused_here has_option filter_items select_all apply_select
    select_only keep_fields mem trim_space get txt ◌==◌ is_space
listed = record { allowed = refl; accepted = refl; projected = refl }

abbrev page_in : Result GraphError Page → Page
page_in (ok p) = p
page_in (err e) = record { value = []; next = none }

abbrev first_page : Page
first_page = page_in (render_collection no_schema company by_two type_group three false)

paged : render_collection no_schema company by_two type_group three false ≡ ok first_page
unfolding reject_unsupported_options refused_here has_option filter_items select_all apply_select
    select_only keep_fields mem trim_space get txt ◌==◌ is_space render_collection page_of parse_top
    parse_skip page_size atoi trim trim_left
paged = refl

render_collection-bounds_example :
    (length first_page.value
      ≤ at_most (atoi (trim_space (get (txt "$top") by_two))) (most company.graph))
    × (is_empty first_page.value ≡ leb 3 (parse_skip (get (txt "$skiptoken") by_two)))
render_collection-bounds_example =
    render_collection-bounds no_schema company by_two type_group three three false first_page
      listed.accepted paged

parse_filter_total_example : parse_filter (item []) (txt "id eq 'x'") ≢ err no_fuel
parse_filter_total_example = parse_filter_total (item []) (txt "id eq 'x'")

space : unquoted (txt " or") ≡ true
unfolding txt
space = refl

scan-quoted_text_example :
    scan between (quoted_text (txt "it's") ++ txt " or")
    ≡ emit (quoted_tok (txt "it's")) (scan between (txt " or"))
scan-quoted_text_example = scan-quoted_text (txt "it's") (txt " or") space
