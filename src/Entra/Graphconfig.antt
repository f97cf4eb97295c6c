-- ===== src/Entra/Graphconfig.antt =====
-- internal/entra/graphconfig.go: the defaults and the validation of the Graph block.
use mock_oidc.Prelude.{
  leb_ℤ, ◌||◌, is_empty, Bool, Result, err, none, [], List, ok, ◌&&◌, pos, Option, if◌then◌else◌,
  some, ℤ, true, not, false, refuse, guard, ltb_ℤ, ◌∷◌, ◌>>◌, ◌>>=◌,
}
use mock_oidc.Text.{Text, txt, ◌==◌, lower, trim_space, trim_slash, mem}
use mock_oidc.Entra.Types.{Config, GraphConfig}
use mock_oidc.Entra.Guid.{is_guid, is_base_path}
use mock_oidc.Entra.Errors.{
  ConfigError, bad_graph_base_path, reserved_graph_base_path, guid_graph_base_path,
  bad_overage_endpoint, negative_clock_skew,
}

abbrev pub default_graph_page_size : ℤ
default_graph_page_size = pos 100

abbrev pub default_graph_max_page_size : ℤ
default_graph_max_page_size = pos 999

abbrev pub default_graph_clock_skew : ℤ
default_graph_clock_skew = pos 60

-- `x <= 0`
abbrev pub not_pos : ℤ → Bool
not_pos x = leb_ℤ x (pos 0)

abbrev pub flag : Option Bool → Bool
flag none = true
flag (some b) = b

-- Config.GraphOn
unfoldable pub graph_on : Config → Bool
graph_on c = elim c.graph [ none ↦ true | some g ↦ flag g.enabled ]

-- Config.UserInfoOn
unfoldable pub user_info_on : Config → Bool
user_info_on c =
    if not (graph_on c) then false else elim c.graph [ none ↦ true | some g ↦ flag g.user_info ]

-- Config.AppOnlyOn
unfoldable pub app_only_on : Config → Bool
app_only_on c = graph_on c && elim c.graph [ none ↦ false | some g ↦ g.app_only ]

-- Config.GraphBase
unfoldable pub graph_base : Config → Text
graph_base c = elim c.graph [
  | none ↦ txt "graph"
  | some g ↦ if is_empty g.base_path then txt "graph" else g.base_path
]

-- Config.OverageSelfHosted
unfoldable pub overage_self_hosted : Config → Bool
overage_self_hosted c =
    graph_on c
    && elim c.graph [ none ↦ true | some g ↦ not (g.overage_endpoint == txt "microsoft") ]

abbrev pub or_default : ℤ → ℤ → ℤ
or_default x d = if not_pos x then d else x

abbrev pub default_of : Option GraphConfig → ℤ
default_of none = default_graph_page_size
default_of (some g) = or_default g.default_page_size default_graph_page_size

abbrev pub max_of : Option GraphConfig → ℤ
max_of none = default_graph_max_page_size
max_of (some g) = or_default g.max_page_size default_graph_max_page_size

abbrev pub cap_at : ℤ → ℤ → ℤ
cap_at max x = if ltb_ℤ max x then max else x

-- Config.PageSize
unfoldable pub page_size : Config → ℤ → ℤ
page_size c requested = cap_at (max_of c.graph) (or_default requested (default_of c.graph))

-- Config.ClockSkew
unfoldable pub clock_skew : Config → ℤ
clock_skew c = elim c.graph [
  | none ↦ default_graph_clock_skew
  | some g ↦ elim g.clock_skew [ none ↦ default_graph_clock_skew | some k ↦ k ]
]

abbrev pub empty_graph : GraphConfig
empty_graph = record {
  enabled = none;
  base_path = [];
  overage_endpoint = [];
  user_info = none;
  app_only = false;
  default_page_size = pos 0;
  max_page_size = pos 0;
  clock_skew = none;
}

-- The keys of reservedGraphBase.
unfoldable pub reserved_graph_base : List Text
reserved_graph_base = txt "_entra" ∷ txt "organizations" ∷ txt "common" ∷ []

abbrev pub or_text : Text → Text → Text
or_text s d = if is_empty s then d else s

-- The switch over overageEndpoint.
unfoldable pub overage_of : Text → Result ConfigError Text
overage_of e =
    if is_empty e
    then ok (txt "self")
    else if e == txt "self" || e == txt "microsoft"
    then ok e
    else err bad_overage_endpoint

unfoldable pub skew_of : Option ℤ → Result ConfigError ℤ
skew_of none = ok default_graph_clock_skew
skew_of (some k) = if ltb_ℤ k (pos 0) then err negative_clock_skew else ok k

abbrev pub present : Option GraphConfig → GraphConfig
present none = empty_graph
present (some g) = g

-- The base path of the block, lower-cased, under the checks of normalizeGraph.
unfoldable pub graph_path : Text → Text → Result ConfigError Text
graph_path base p = do
  let p = or_text (trim_slash (trim_space p)) (txt "graph")
  guard (is_base_path p) (bad_graph_base_path p)
  refuse (mem (lower p) reserved_graph_base || lower p == base) (reserved_graph_base_path p)
  refuse (is_guid (lower p)) (guid_graph_base_path p)
  ok (lower p)

-- Config.normalizeGraph; `base` is the normalized base path of the configuration.
unfoldable pub normalize_graph : Text → Option GraphConfig → Result ConfigError GraphConfig
normalize_graph base graph = do
  let g = present graph
  path ← graph_path base g.base_path
  overage ← overage_of g.overage_endpoint
  let max = or_default g.max_page_size default_graph_max_page_size
  let size = or_default g.default_page_size default_graph_page_size
  skew ← skew_of g.clock_skew
  ok (record {
    enabled = some (flag g.enabled);
    base_path = path;
    overage_endpoint = overage;
    user_info = some (flag g.user_info);
    app_only = g.app_only;
    default_page_size = cap_at max size;
    max_page_size = max;
    clock_skew = some skew;
  })
