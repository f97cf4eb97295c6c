-- ===== src/Entra/Odata/Follow.antt =====
-- The pages of a collection, read from the first to the last.
use mock_oidc.Prelude.{ℕ, ◌≡◌, Bool, List, ◌+◌, ok, pos_part, none, true}
use mock_oidc.Entra.Types.{Config}
use mock_oidc.Entra.Odata.{
  parse_top, least, Schemas, reject_unsupported_options, refused_here, filter_items, select_all,
}
use mock_oidc.Oauth2.Request.{Form, get}
use mock_oidc.Text.{Text, txt}
use mock_oidc.Json.{Fields}

abbrev top_of : Config → Form → ℕ
top_of c q = pos_part (parse_top c (get (txt "$top") q))

abbrev end_of : ℕ → ℕ → ℕ → ℕ
end_of s top len = least (s + top) len

-- The query's answer, when no option is refused, the filter is accepted and every item can be projected.
pub record IsListed (schemas : Schemas) (c : Config) (type_name : Text) (expandable : Bool)
    (items kept out : List Fields) (q : Form) : Type 0 where
  pub allowed : reject_unsupported_options q (refused_here true expandable) ≡ none
  pub accepted : filter_items schemas q type_name items ≡ ok kept
  pub projected : select_all (get (txt "$select") q) type_name kept ≡ ok out

module _ (schemas : Schemas) (c : Config) (type_name : Text) (expandable : Bool)
    (items kept out : List Fields) (q : Form) where
  abbrev Listed : Type 0
  Listed = IsListed schemas c type_name expandable items kept out q
