-- ===== src/Entra/Guid.antt =====
-- The identifier formats: `guidRE` and `basePathRE` of internal/entra/config.go, and the name-based
-- UUIDs of internal/entra/uuid.go over a SHA-1 that the caller supplies.
pub mod Derived
pub mod Stable
use mock_oidc.Prelude.{
  ℕ, zero, suc, ◌+◌, ◌-◌, ◌/◌, ◌%◌, Bool, true, false, not, ◌&&◌, ◌||◌, Option, none, some, List,
  [], ◌∷◌, ◌++◌, ltb, leb, nat_eq, if◌then◌else◌, take, drop, is_empty, all,
}
use mock_oidc.Text.{Text, txt, lower}

abbrev pub is_hex_digit : ℕ → Bool
is_hex_digit c = (leb b'0' c && leb c b'9') || (leb b'a' c && leb c b'f')

-- `n` hexadecimal digits, and what follows them.
unfoldable pub hex_run : ℕ → Text → Option Text
hex_run zero s = some s
hex_run (suc n) [] = none
hex_run (suc n) (c ∷ s) = if is_hex_digit c then hex_run n s else none

unfoldable pub dash : Option Text → Option Text
dash none = none
dash (some []) = none
dash (some (c ∷ s)) = if nat_eq c b'-' then some s else none

abbrev pub then_hex : ℕ → Option Text → Option Text
then_hex n none = none
then_hex n (some s) = hex_run n s

abbrev pub at_end : Option Text → Bool
at_end (some []) = true
at_end _ = false

-- guidRE.MatchString
unfoldable pub is_guid : Text → Bool
unfolding hex_run dash
is_guid s =
    at_end
      (then_hex 12 (dash (then_hex 4 (dash (then_hex 4 (dash (then_hex 4 (dash (hex_run 8 s)))))))))

abbrev pub is_path_rune : ℕ → Bool
is_path_rune c =
    (leb b'A' c && leb c b'Z')
    || (leb b'a' c && leb c b'z')
    || (leb b'0' c && leb c b'9')
    || nat_eq c b'_'
    || nat_eq c b'-'

-- basePathRE.MatchString
unfoldable pub is_base_path : Text → Bool
is_base_path s = not (is_empty s) && all is_path_rune s

unfoldable pub hex_digit : ℕ → ℕ
hex_digit n = if ltb n 10 then b'0' + n else b'a' + n - 10

-- %x of bytes
unfoldable pub hex : List ℕ → Text
unfolding hex_digit
hex [] = []
hex (b ∷ bs) = hex_digit (b / 16) ∷ hex_digit (b % 16) ∷ hex bs

abbrev pub map_at : ℕ → (ℕ → ℕ) → List ℕ → List ℕ
map_at i f [] = []
map_at zero f (b ∷ bs) = f b ∷ bs
map_at (suc i) f (b ∷ bs) = b ∷ map_at i f bs

-- `u[6] = (u[6] & 0x0f) | 0x50` and `u[8] = (u[8] & 0x3f) | 0x80`, on bytes
abbrev pub stamp : List ℕ → List ℕ
stamp u = map_at 8 (λ b. b % 64 + 128) (map_at 6 (λ b. b % 16 + 80) u)

abbrev pub slice : ℕ → ℕ → List ℕ → List ℕ
slice i j bs = take (j - i) (drop i bs)

-- fmt.Sprintf("%x-%x-%x-%x-%x", …)
unfoldable pub format_uuid : List ℕ → Text
unfolding hex
format_uuid u =
    hex (slice 0 4 u)
    ++ (b'-'
        ∷ (hex (slice 4 6 u)
            ++ (b'-'
                ∷ (hex (slice 6 8 u)
                    ++ (b'-' ∷ (hex (slice 8 10 u) ++ (b'-' ∷ hex (slice 10 16 u))))))))

-- The two fixed namespaces.
abbrev pub oid_namespace : List ℕ
oid_namespace =
    0x5d ∷ 0x1c ∷ 0x3b ∷ 0x36 ∷ 0x6f ∷ 0x0e ∷ 0x4d ∷ 0x4e ∷ 0x9a ∷ 0x39 ∷ 0x2d ∷ 0x2f ∷ 0x1f ∷ 0x5e
    ∷ 0x0c ∷ 0x01 ∷ []

abbrev pub group_namespace : List ℕ
group_namespace =
    0x8f ∷ 0x6a ∷ 0x3c ∷ 0x52 ∷ 0x1b ∷ 0x7e ∷ 0x4a ∷ 0x55 ∷ 0x9d ∷ 0x0e ∷ 0x6c ∷ 0x1a ∷ 0x9b ∷ 0x0e
    ∷ 0x2f ∷ 0x11 ∷ []

-- What crypto/sha1 and the UTF-8 encoding of a string give.
pub record Digest : Type 0 where
  pub sha1 : List ℕ → List ℕ
  pub utf8 : Text → List ℕ

unfoldable pub uuid_v5 : Digest → List ℕ → Text → Text
unfolding format_uuid
uuid_v5 d ns name = format_uuid (stamp (take 16 (d.sha1 (ns ++ d.utf8 name))))

-- GroupObjectID
unfoldable pub group_object_id : Digest → Text → Text → Text
unfolding uuid_v5 lower txt
group_object_id d tid name = uuid_v5 d group_namespace (lower tid ++ (txt ":" ++ name))
