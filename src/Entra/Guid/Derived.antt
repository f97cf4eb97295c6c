-- ===== src/Entra/Guid/Derived.antt =====
-- Name-based UUIDs against `guidRE` of internal/entra/config.go.
use mock_oidc.Prelude.{
  ℕ, ◌/◌, ◌%◌, All, length-take, ◌≤◌, length-drop, true, arith, length, ◌*◌, refl, ◌≡◌, some, drop,
  take, ap, zero, ◌-◌, ◌∷◌, ◌++◌, List, ◌∙◌, [], suc, ◌<◌, append-nil, ◌+◌,
}
use mock_oidc.Text.{Text}
use mock_oidc.Entra.Guid.{
  is_hex_digit, hex_run, dash, is_guid, hex_digit, hex, map_at, stamp, slice, format_uuid, Digest,
  uuid_v5,
}

abbrev pub IsBytes : List ℕ → Type 0
IsBytes bs = All (λ b. b < 256) bs

-- crypto/sha1 gives twenty bytes.
pub record IsSha1 (d : Digest) : Type 0 where
  pub size : (bs : List ℕ) → length (d.sha1 bs) ≡ 20
  pub bytes : (bs : List ℕ) → IsBytes (d.sha1 bs)

hex_digit_lem : (n : ℕ) → n < 16 → is_hex_digit (hex_digit n) ≡ true
unfolding hex_digit
hex_digit_lem n h = ground arith

hex_run-cons : (c n : ℕ) (s : Text) → is_hex_digit c ≡ true → hex_run (suc n) (c ∷ s) ≡ hex_run n s
unfolding hex_run
hex_run-cons c n s h = rw h

hex_run-hex :
    (bs : List ℕ) (rest : Text) (n : ℕ)
    → n ≡ 2 * length bs
    → IsBytes bs
    → hex_run n (hex bs ++ rest) ≡ some rest
unfolding hex
hex_run-hex [] rest n e h = rw e (unfold hex_run in refl)
hex_run-hex (b ∷ bs) rest zero e h = absurd (omega arith)
hex_run-hex (b ∷ bs) rest (suc zero) e h = absurd (omega arith)
hex_run-hex (b ∷ bs) rest (suc (suc n)) e (p, h) =
    hex_run-cons (hex_digit (b / 16)) (suc n) _ (hex_digit_lem (b / 16) (omega arith))
    ∙ hex_run-cons (hex_digit (b % 16)) n _ (hex_digit_lem (b % 16) (omega arith))
    ∙ hex_run-hex bs rest n (omega arith) h

IsBytes-take : (n : ℕ) (bs : List ℕ) → IsBytes bs → IsBytes (take n bs)
IsBytes-take zero bs h = tt
IsBytes-take (suc n) [] h = tt
IsBytes-take (suc n) (b ∷ bs) (p, h) = (p, IsBytes-take n bs h)

IsBytes-drop : (n : ℕ) (bs : List ℕ) → IsBytes bs → IsBytes (drop n bs)
IsBytes-drop zero bs h = h
IsBytes-drop (suc n) [] h = tt
IsBytes-drop (suc n) (b ∷ bs) (p, h) = IsBytes-drop n bs h

map_at-IsBytes :
    (i : ℕ) (f : ℕ → ℕ) (bs : List ℕ)
    → ((b : ℕ) → b < 256 → f b < 256)
    → IsBytes bs
    → IsBytes (map_at i f bs)
map_at-IsBytes zero f [] k h = tt
map_at-IsBytes (suc i) f [] k h = tt
map_at-IsBytes zero f (b ∷ bs) k (p, h) = (k b p, h)
map_at-IsBytes (suc i) f (b ∷ bs) k (p, h) = (p, map_at-IsBytes i f bs k h)

length-map_at : (i : ℕ) (f : ℕ → ℕ) (bs : List ℕ) → length (map_at i f bs) ≡ length bs
length-map_at zero f [] = refl
length-map_at (suc i) f [] = refl
length-map_at zero f (b ∷ bs) = refl
length-map_at (suc i) f (b ∷ bs) = ap suc (length-map_at i f bs)

-- The digits of one group, and the run that reads them.
run-slice :
    (i j n : ℕ) (u : List ℕ) (rest : Text)
    → IsBytes u
    → j ≤ length u
    → n ≡ 2 * (j - i)
    → hex_run n (hex (slice i j u) ++ rest) ≡ some rest
run-slice i j n u rest h l e =
    hex_run-hex (slice i j u) rest n
      (omega (arith, length-take (j - i) (drop i u), length-drop i u))
      (IsBytes-take (j - i) (drop i u) (IsBytes-drop i u h))

format_uuid-is_guid : (u : List ℕ) → IsBytes u → length u ≡ 16 → is_guid (format_uuid u) ≡ true
unfolding is_guid format_uuid dash
format_uuid-is_guid u h l =
    let last : hex_run 12 (hex (slice 10 16 u)) ≡ some [] =
      rw append-nil at (run-slice 10 16 12 u [] h (omega arith) refl) in
    rw (
      run-slice 0 4 8 u _ h (omega arith) refl,
      run-slice 4 6 4 u _ h (omega arith) refl,
      run-slice 6 8 4 u _ h (omega arith) refl,
      run-slice 8 10 4 u _ h (omega arith) refl,
      last,
    )

stamp-IsBytes : (u : List ℕ) → IsBytes u → IsBytes (stamp u)
stamp-IsBytes u h =
    map_at-IsBytes 8 (λ b. b % 64 + 128) (map_at 6 (λ b. b % 16 + 80) u) (λ b k. omega arith)
      (map_at-IsBytes 6 (λ b. b % 16 + 80) u (λ b k. omega arith) h)

length-stamp : (u : List ℕ) → length (stamp u) ≡ length u
length-stamp u =
    length-map_at 8 (λ b. b % 64 + 128) (map_at 6 (λ b. b % 16 + 80) u)
    ∙ length-map_at 6 (λ b. b % 16 + 80) u

-- If SHA-1 gives twenty bytes, every name-based UUID matches the GUID pattern, whatever the namespace
-- and the name.
pub uuid_v5-is_guid :
    (d : Digest) → IsSha1 d → (ns : List ℕ) (name : Text) → is_guid (uuid_v5 d ns name) ≡ true
unfolding uuid_v5
uuid_v5-is_guid d law ns name =
    let bs = d.sha1 (ns ++ d.utf8 name) in
    format_uuid-is_guid (stamp (take 16 bs))
      (stamp-IsBytes (take 16 bs) (IsBytes-take 16 bs (law.bytes _)))
      (omega (arith, length-stamp (take 16 bs), length-take 16 bs, law.size (ns ++ d.utf8 name)))
