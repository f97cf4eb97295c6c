-- ===== src/Entra/Odata.antt =====
-- internal/entra/odata.go: the query options of the Graph surface, the projection of an entity and the
-- pages of a collection. Percent-encoding a link's parameters and reading them back is the library's,
-- so a next link is here the query that it carries.
pub mod Query
pub mod Pages
pub mod Follow
pub mod Bounds
use mock_oidc.Prelude.{
  ℕ, take, ◌∷◌, Result, length, ◌-◌, Option, ℤ, List, if◌then◌else◌, filter, err, true, ◌+◌, ltb_ℤ,
  not, ◌>>◌, Bool, ◌++◌, ◌>>=◌, pos, some, is_empty, [], any, pos_part, false, none, drop, ok, ltb,
}
use mock_oidc.Text.{Text, txt, ◌==◌, lower, trim_space, has_prefix, mem, split}
use mock_oidc.Oauth2.Request.{Form, get}
use mock_oidc.Entra.Types.{Config}
use mock_oidc.Json.{Fields, field, keep_fields, string, field_names}
use mock_oidc.Entra.Verify.{GraphError, unsupported_query}
use mock_oidc.Entra.Graphconfig.{page_size}
use mock_oidc.Text.Decimal.{atoi, itoa}
use mock_oidc.Sorting.{sort_by}
use mock_oidc.Entra.Filter.Lexer.{FilterError}
use mock_oidc.Entra.Filter.{Filter, eval}
use mock_oidc.Entra.Filter.Parser.{parse_filter}

abbrev pub type_user : Text
type_user = txt "microsoft.graph.user"

abbrev pub type_group : Text
type_group = txt "microsoft.graph.group"

-- unsupportedOptions
abbrev pub unsupported_options : List Text
unsupported_options =
    txt "$orderby" ∷ txt "$search" ∷ txt "$count" ∷ txt "$apply" ∷ txt "$format" ∷ []

-- selectOnly
unfoldable pub select_only : Text → List Text
select_only type_name =
    if type_name == type_user
    then txt "department"
      ∷ txt "companyName"
      ∷ txt "employeeId"
      ∷ txt "onPremisesExtensionAttributes"
      ∷ []
    else []

-- `_, ok := q[name]`
unfoldable pub has_option : Text → Form → Bool
has_option name q = any (λ (p : Text × Text). p.0 == name) q

abbrev pub first_refused : Form → List Text → Option GraphError
first_refused q [] = none
first_refused q (opt ∷ opts) =
    let rest = first_refused q opts in
    if has_option opt q then some (unsupported_query opt) else rest

-- rejectUnsupportedOptions
unfoldable pub reject_unsupported_options : Form → List Text → Option GraphError
reject_unsupported_options q also_refused = first_refused q (unsupported_options ++ also_refused)

-- refusedHere
unfoldable pub refused_here : Bool → Bool → List Text
refused_here collection expandable =
    (if collection then [] else txt "$filter" ∷ [])
    ++ (if expandable then [] else txt "$expand" ∷ [])

abbrev pub or_zero : Option ℤ → ℤ
or_zero none = pos 0
or_zero (some n) = n

-- Config.parseTop
unfoldable pub parse_top : Config → Text → ℤ
parse_top c raw = page_size c (or_zero (atoi (trim_space raw)))

abbrev from_start : Option ℤ → ℕ
from_start none = 0
from_start (some n) = if ltb_ℤ n (pos 0) then 0 else pos_part n

-- parseSkip
unfoldable pub parse_skip : Text → ℕ
parse_skip raw = from_start (atoi (trim_space raw))

-- Config.nextLink: the parameters by name, and the next skip token at the end
unfoldable pub next_query : Form → ℕ → Form
next_query q next =
    sort_by (λ (p : Text × Text). p.0)
      (filter (λ (p : Text × Text). not (p.0 == txt "$skiptoken")) q)
    ++ (txt "$skiptoken", itoa next) ∷ []

-- The last field whose name is this one but for case: `known`.
unfoldable pub known_name : Text → List Text → Option Text
known_name want [] = none
known_name want (n ∷ ns) = elim (known_name want ns) [
  | some m ↦ some m
  | none ↦ if lower n == want then some n else none
]

abbrev selected_name : Text → Option Text → Result GraphError Text
selected_name want none = err (unsupported_query want)
selected_name want (some n) =
    if has_prefix n (b'@' ∷ []) then err (unsupported_query want) else ok n

-- The loop over the names that $select lists.
unfoldable pub selected : List Text → List Text → Result GraphError (List Text)
selected names [] = ok []
selected names (w ∷ ws) =
    let rest = selected names ws in
    if is_empty (trim_space w) then rest else (do
      n ← selected_name (trim_space w) (known_name (lower (trim_space w)) names)
      ns ← rest
      ok (n ∷ ns))

-- What survives every $select.
abbrev pub always_kept : List Text
always_kept = txt "id" ∷ txt "@odata.context" ∷ txt "@odata.type" ∷ txt "manager" ∷ []

-- applySelect
unfoldable pub apply_select : Fields → Text → Text → Result GraphError Fields
apply_select entity raw type_name =
    if is_empty (trim_space raw)
    then ok (keep_fields (λ n. not (mem n (select_only type_name))) entity)
    else (do
      names ← selected (field_names entity) (split (trim_space raw) b',')
      ok (keep_fields (λ n. mem n (always_kept ++ names)) entity))

unfoldable pub select_all : Text → Text → List Fields → Result GraphError (List Fields)
select_all raw type_name [] = ok []
select_all raw type_name (e ∷ es) = do
  narrowed ← apply_select e raw type_name
  rest ← select_all raw type_name es
  ok (narrowed ∷ rest)

-- The answer's `value` and `@odata.nextLink`.
pub record Page : Type 0 where
  pub value : List Fields
  pub next : Option Form

-- The schema of an entity type: filterSchemas
abbrev pub Schemas : Type 0
Schemas = Text → Fields

abbrev filtered : List Fields → Result FilterError Filter → Result GraphError (List Fields)
filtered items (err e) = err (unsupported_query (txt "$filter"))
filtered items (ok f) = ok (filter (λ e. eval e f) items)

unfoldable pub filter_items : Schemas → Form → Text → List Fields → Result GraphError (List Fields)
filter_items schemas q type_name items =
    if has_option (txt "$filter") q
    then filtered items (parse_filter (schemas type_name) (get (txt "$filter") q))
    else ok items

abbrev pub least : ℕ → ℕ → ℕ
least m n = if ltb n m then n else m

-- The page that starts at `skip`, of at most `top` items.
unfoldable pub page_of : Form → Text → List Fields → ℕ → ℕ → Result GraphError Page
page_of q type_name items skip top = do
  value ←
      select_all (get (txt "$select") q) type_name
        (take (least (skip + top) (length items) - skip) (drop skip items))
  ok (record {
    value = value;
    next =
        if ltb (least (skip + top) (length items)) (length items)
        then some (next_query q (least (skip + top) (length items)))
        else none;
  })

abbrev refused : Option GraphError → Result GraphError (Unit {0})
refused none = ok tt
refused (some e) = err e

-- Handler.renderCollection
unfoldable pub render_collection :
    Schemas → Config → Form → Text → List Fields → Bool → Result GraphError Page
render_collection schemas c q type_name items expandable = do
  refused (reject_unsupported_options q (refused_here true expandable))
  kept ← filter_items schemas q type_name items
  page_of q type_name kept (least (parse_skip (get (txt "$skiptoken") q)) (length kept))
      (pos_part (parse_top c (get (txt "$top") q)))

-- Handler.renderEntity, with the address of its context
unfoldable pub render_entity : Form → Text → Fields → Text → Bool → Result GraphError Fields
render_entity q context entity type_name expandable =
    refused (reject_unsupported_options q (refused_here false expandable))
    >> apply_select (field (txt "@odata.context") (string context) entity) (get (txt "$select") q)
        type_name
