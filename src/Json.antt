-- ===== src/Json.antt =====
-- internal/jsonx/jsonx.go: ordered JSON values, as far as the Graph surface builds and reads them. An
-- array is one of strings: no other is in an entity.
use mock_oidc.Prelude.{if◌then◌else◌, Bool, List, [], ◌∷◌}
use mock_oidc.Text.{Text}

mutual
  pub data Json : Type 0 where
    null : Json
    string : Text → Json
    boolean : Bool → Json
    strings : List Text → Json
    object : Fields → Json

  -- Obj
  pub data Fields : Type 0 where
    done : Fields
    field : Text → Json → Fields → Fields

-- append(f, g...)
unfoldable pub append_fields : Fields → Fields → Fields
append_fields done g = g
append_fields (field n v f) g = field n v (append_fields f g)

-- The fields whose names pass the test.
unfoldable pub keep_fields : (Text → Bool) → Fields → Fields
keep_fields q done = done
keep_fields q (field n v f) = let rest = keep_fields q f in if q n then field n v rest else rest

unfoldable pub field_names : Fields → List Text
field_names done = []
field_names (field n v f) = n ∷ field_names f
