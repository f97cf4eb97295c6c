-- ===== src/Entra/Normalize/Graph.antt =====
-- What normalizing the Graph block establishes, and the bounds of a page.
use mock_oidc.Prelude.{
  ℕ, ok-injective, subst, guard-ok, refuse, ◌≡◌, arith, Option, ◌∷◌, ◌||◌, false, Bool, ◌≤◌, ℤ, all,
  ◌≤ℤ◌, refuse-ok, [], ok, and-true, pos_part, guard, >>=-eq-ok, refl, true, none, some,
}
use mock_oidc.Text.{Text, txt, ◌==◌, lower, trim_space, trim_slash, mem, lower_rune}
use mock_oidc.Entra.Types.{Config, GraphConfig}
use mock_oidc.Entra.Guid.{is_guid, is_base_path, is_path_rune}
use mock_oidc.Entra.Errors.{bad_graph_base_path, reserved_graph_base_path, guid_graph_base_path}
use mock_oidc.Entra.Graphconfig.{
  or_default, or_text, cap_at, present, graph_path, overage_of, skew_of, normalize_graph,
  reserved_graph_base, default_graph_max_page_size, default_graph_page_size, page_size, max_of,
  default_of,
}
use mock_oidc.Entra.Wellformed.{IsGraph}

lower_rune-path : (c : ℕ) → is_path_rune c ≡ true → is_path_rune (lower_rune c) ≡ true
unfolding lower_rune
lower_rune-path c h = ground arith

all-lower : (s : Text) → all is_path_rune s ≡ true → all is_path_rune (lower s) ≡ true
unfolding lower
all-lower [] h = refl
all-lower (c ∷ s) h =
    let (p, q) = and-true (is_path_rune c) (all is_path_rune s) h in
    rw (lower_rune-path c p) (all-lower s q)

is_base_path-lower : (s : Text) → is_base_path s ≡ true → is_base_path (lower s) ≡ true
unfolding is_base_path
is_base_path-lower [] h = cc
is_base_path-lower (c ∷ s) h = unfold lower in all-lower (c ∷ s) h

-- The path of a valid block.
abbrev IsPath : Text → Text → Type 0
IsPath base p = (is_base_path p ≡ true) × ((p == base) ≡ false) × (is_guid p ≡ false)

graph_path-IsPath : (base p r : Text) → graph_path base p ≡ ok r → IsPath base r
unfolding graph_path
graph_path-IsPath base p r h =
    let q : Text = or_text (trim_slash (trim_space p)) (txt "graph") in
    let taken : Bool = mem (lower q) reserved_graph_base || lower q == base in
    let (_, e₁, h₁) = >>=-eq-ok (guard (is_base_path q) (bad_graph_base_path q)) _ h in
    let (_, e₂, h₂) = >>=-eq-ok (refuse taken (reserved_graph_base_path q)) _ h₁ in
    let (_, e₃, h₃) = >>=-eq-ok (refuse (is_guid (lower q)) (guid_graph_base_path q)) _ h₂ in
    let free = refuse-ok taken (reserved_graph_base_path q) e₂ in
    subst (IsPath base) (ok-injective h₃) (
      is_base_path-lower q (guard-ok (is_base_path q) (bad_graph_base_path q) e₁),
      ground arith,
      refuse-ok (is_guid (lower q)) (guid_graph_base_path q) e₃,
    )

cap_at-pos : (max x : ℤ) → 1 ≤ pos_part max → 1 ≤ pos_part x → 1 ≤ pos_part (cap_at max x)
cap_at-pos max x h k = ground arith

cap_at-le : (max x : ℤ) → cap_at max x ≤ℤ max
cap_at-le max x = ground arith

pub or_default-pos : (x d : ℤ) → 1 ≤ pos_part d → 1 ≤ pos_part (or_default x d)
or_default-pos x d h = ground arith

pub normalize_graph-IsGraph :
    (base : Text) (o : Option GraphConfig) (g : GraphConfig)
    → normalize_graph base o ≡ ok g
    → IsGraph base g
unfolding normalize_graph
normalize_graph-IsGraph base o g h =
    let max : ℤ = or_default (present o).max_page_size default_graph_max_page_size in
    let size : ℤ = or_default (present o).default_page_size default_graph_page_size in
    let (p, e₁, h₁) = >>=-eq-ok (graph_path base (present o).base_path) _ h in
    let (v, e₂, h₂) = >>=-eq-ok (overage_of (present o).overage_endpoint) _ h₁ in
    let (k, e₃, h₃) = >>=-eq-ok (skew_of (present o).clock_skew) _ h₂ in
    let (path, apart, not_guid) = graph_path-IsPath base (present o).base_path p e₁ in
    subst (IsGraph base) (ok-injective h₃) (record {
      path = path;
      apart = apart;
      not_guid = not_guid;
      smallest =
          cap_at-pos max size
            (or_default-pos (present o).max_page_size default_graph_max_page_size (omega arith))
            (or_default-pos (present o).default_page_size default_graph_page_size (omega arith));
      ordered = cap_at-le max size;
    })

max_of-pos : (o : Option GraphConfig) → 1 ≤ pos_part (max_of o)
max_of-pos none = omega arith
max_of-pos (some g) = or_default-pos g.max_page_size default_graph_max_page_size (omega arith)

default_of-pos : (o : Option GraphConfig) → 1 ≤ pos_part (default_of o)
default_of-pos none = omega arith
default_of-pos (some g) = or_default-pos g.default_page_size default_graph_page_size (omega arith)

-- The bounds of the number of items that a page may hold.
pub page_size_bounds :
    (c : Config) (requested : ℤ)
    → (1 ≤ pos_part (page_size c requested)) × (page_size c requested ≤ℤ max_of c.graph)
unfolding page_size
page_size_bounds c requested = (
  cap_at-pos (max_of c.graph) (or_default requested (default_of c.graph)) (max_of-pos c.graph)
      (or_default-pos requested (default_of c.graph) (default_of-pos c.graph)),
  cap_at-le (max_of c.graph) (or_default requested (default_of c.graph)),
)
