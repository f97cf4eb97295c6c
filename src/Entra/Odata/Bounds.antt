-- ===== src/Entra/Odata/Bounds.antt =====
-- The number of items of a page.
use mock_oidc.Prelude.{
  ℕ, ℤ, pos, negsuc, Option, some, none, List, Bool, ltb, ltb_ℤ, leb, length, is_empty, take, drop,
  if◌then◌else◌, pos_part, ◌+◌, ◌-◌, ◌≤◌, ◌≡◌, ◌∙◌, [], ◌∷◌, refl, sym, ap, arith, ok, >>=-eq-ok,
  ok-injective, true, length-take, length-drop, ◌&&◌,
}
use Prim.Native.Nat.{min}
use mock_oidc.Text.{Text, txt, trim_space}
use mock_oidc.Text.Decimal.{atoi}
use mock_oidc.Json.{Fields}
use mock_oidc.Oauth2.Request.{Form, get}
use mock_oidc.Entra.Types.{Config, GraphConfig}
use mock_oidc.Entra.Graphconfig.{page_size, cap_at, max_of, or_default, default_of}
use mock_oidc.Entra.Normalize.Graph.{page_size_bounds}
use mock_oidc.Entra.Odata.{
  Schemas, Page, render_collection, page_of, filter_items, select_all, parse_skip, parse_top, least,
  or_zero, refused, reject_unsupported_options, refused_here,
}
use mock_oidc.Entra.Odata.Pages.{select_all-length}

-- The configured maximum, or 999.
abbrev pub most : Option GraphConfig → ℕ
most none = 999
most (some g) = if ltb_ℤ (pos 0) g.max_page_size then pos_part g.max_page_size else 999

-- A positive number that the client asks for, where it is less than `max`.
abbrev pub at_most : Option ℤ → ℕ → ℕ
at_most none max = max
at_most (some (negsuc n)) max = max
at_most (some (pos n)) max = if ltb 0 n && ltb n max then n else max

top_bounds :
    (c : Config) (o : Option ℤ)
    → (1 ≤ pos_part (page_size c (or_zero o)))
      × (pos_part (page_size c (or_zero o)) ≤ at_most o (most c.graph))
unfolding page_size
top_bounds c o = ((page_size_bounds c (or_zero o)).0, go c.graph o)
  where
    go :
        (g : Option GraphConfig) (o : Option ℤ)
        → pos_part (cap_at (max_of g) (or_default (or_zero o) (default_of g))) ≤ at_most o (most g)
    go none none = ground arith
    go none (some (pos n)) = ground arith
    go none (some (negsuc n)) = ground arith
    go (some g) none = ground arith
    go (some g) (some (pos n)) = ground arith
    go (some g) (some (negsuc n)) = ground arith

length-page :
    (q : Form) (type_name : Text) (items : List Fields) (skip top : ℕ) (p : Page)
    → page_of q type_name items skip top ≡ ok p
    → length p.value ≡ min (least (skip + top) (length items) - skip) (length items - skip)
unfolding page_of
length-page q type_name items skip top p h =
    let es = take (least (skip + top) (length items) - skip) (drop skip items) in
    let (value, e, h₁) = >>=-eq-ok (select_all (get (txt "$select") q) type_name es) _ h in
    ap (λ (x : Page). length x.value) (sym (ok-injective h₁))
    ∙ select_all-length (get (txt "$select") q) type_name es value e
    ∙ length-take (least (skip + top) (length items) - skip) (drop skip items)
    ∙ ap (min (least (skip + top) (length items) - skip)) (length-drop skip items)

is_empty-length : (xs : List Fields) → is_empty xs ≡ leb (length xs) 0
is_empty-length [] = refl
is_empty-length (x ∷ xs) = ground arith

-- A page that is answered holds at most the configured maximum of items, 999 where none is configured, and
-- no more than a positive $top; it is empty only when no item that passes the filter stands at or behind
-- the skip token.
pub render_collection-bounds :
    (schemas : Schemas) (c : Config) (q : Form) (type_name : Text) (items kept : List Fields)
    (expandable : Bool) (p : Page)
    → filter_items schemas q type_name items ≡ ok kept
    → render_collection schemas c q type_name items expandable ≡ ok p
    → (length p.value ≤ at_most (atoi (trim_space (get (txt "$top") q))) (most c.graph))
      × (is_empty p.value ≡ leb (length kept) (parse_skip (get (txt "$skiptoken") q)))
unfolding render_collection parse_top
render_collection-bounds schemas c q type_name items kept expandable p f h =
    let r = reject_unsupported_options q (refused_here true expandable) in
    let (_, _, h₁) = >>=-eq-ok (refused r) _ h in
    let (kept', e, h₂) = >>=-eq-ok (filter_items schemas q type_name items) _ h₁ in
    let same : kept' ≡ kept = ok-injective (sym e ∙ f) in
    let skip = parse_skip (get (txt "$skiptoken") q) in
    let (low, high) = top_bounds c (atoi (trim_space (get (txt "$top") q))) in
    let size = length-page q type_name kept' (least skip (length kept')) _ p h₂ in
    let size' = rw same at size in
    (ground (arith, size', high), is_empty-length p.value ∙ ground (arith, size', low))
