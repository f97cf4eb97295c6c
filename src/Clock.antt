-- ===== src/Clock.antt =====
-- Go's package time, as internal/entra/claims.go and appcreds.go use it: a time is its nanoseconds
-- since 1970, a duration is an int64 of nanoseconds and wraps around. The seconds of a time are not
-- bounded.
use mock_oidc.Prelude.{
  ℕ, suc, ℤ, pos, negsuc, ltb, if◌then◌else◌, ◌+◌, ◌-◌, ◌*◌, ◌/◌, ◌%◌, ◌^◌, ◌≡◌, refl, ◌≤◌, ◌≤ℤ◌,
  ◌+ℤ◌, arith,
}

-- t.Unix()
abbrev pub unix : ℕ → ℕ
unix t = t / 1000000000

-- The int64 with this bit pattern.
abbrev signed64 : ℕ → ℤ
signed64 w = if ltb w (2 ^ 63) then pos w else negsuc (2 ^ 64 - w - 1)

-- time.Duration(n) * time.Second
abbrev seconds : ℤ → ℤ
seconds (pos n) = signed64 (n * 1000000000 % 2 ^ 64)
seconds (negsuc n) = signed64 ((2 ^ 64 - suc n * 1000000000 % 2 ^ 64) % 2 ^ 64)

-- t.Add(d).Unix(), rounded down
abbrev unix_after : ℕ → ℤ → ℤ
unix_after t (pos d) = pos (unix (t + d))
unix_after t (negsuc d) = if ltb d t then pos (unix (t - suc d)) else negsuc (unix (d - t))

-- The claim `exp`: now.Add(time.Duration(expiry) * time.Second).Unix()
unfoldable pub expires_at : ℕ → ℤ → ℤ
expires_at now expiry = unix_after now (seconds expiry)

-- The durations in seconds that an int64 of nanoseconds holds.
abbrev pub max_seconds : ℕ
max_seconds = 9223372036

seconds-fits : (n : ℕ) → n ≤ max_seconds → seconds (pos n) ≡ pos (n * 1000000000)
seconds-fits n h = ground arith

-- Up to the longest duration nothing wraps around.
pub expires_at-fits :
    (now : ℕ) (expiry : ℤ)
    → pos 0 ≤ℤ expiry
    → expiry ≤ℤ pos max_seconds
    → expires_at now expiry ≡ pos (unix now) +ℤ expiry
unfolding expires_at
expires_at-fits now (pos n) l h =
    let whole : unix (now + n * 1000000000) ≡ unix now + n = omega arith in
    rw (seconds-fits n (omega arith), whole) (ground arith)
expires_at-fits now (negsuc n) l h = absurd (omega arith)

-- One second more than the longest duration wraps around.
next_wraps : expires_at 0 (pos 9223372037) ≡ negsuc 9223372036
unfolding expires_at
next_wraps = refl
