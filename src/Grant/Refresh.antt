-- ===== src/Grant/Refresh.antt =====
-- internal/grant/refreshmanager.go and the refresh grant of grant.go: refresh tokens with the callbacks
-- they stand for. The random `jti` is an argument; `plain_jwt` makes the unsigned token of a jti and a
-- nonce. The mutex makes each operation one step.
use mock_oidc.Prelude.{
  Bool, Result, false, if◌then◌else◌, ok, some, refl, Option, true, err, ◌∙◌, none, is_empty, [],
  ◌≡◌, subst, sym,
}
use mock_oidc.Text.{Text, ◌==◌}
use mock_oidc.Grant.{Callbacks, GrantError, Granted, unknown_refresh_token, other_issuer}
use mock_oidc.Assoc.{
  Assoc, lookup, delete, insert, lookup-insert-same, lookup-insert-other, lookup-delete-same,
  lookup-delete-other,
}
use mock_oidc.Text.Laws.{==-sym}

module _ {C : Type 0} where
  -- RefreshTokenManager.Get
  unfoldable pub get_callback : Text → Assoc C → Option C
  get_callback t m = lookup t m

  -- RefreshTokenManager.Remove
  unfoldable pub remove_token : Text → Assoc C → Assoc C
  remove_token t m = delete t m

  -- RefreshTokenManager.RefreshToken
  unfoldable pub refresh_token : (Text → Text → Text) → Text → C → Text → Assoc C → Text × Assoc C
  refresh_token plain_jwt jti cb nonce m =
      let t : Text = if is_empty nonce then jti else plain_jwt jti nonce in (t, insert t cb m)

  abbrev pub or_fallback : C → Option C → C
  or_fallback fallback none = fallback
  or_fallback fallback (some cb) = cb

  -- RefreshTokenManager.Rotate
  unfoldable pub rotate : (Text → Text → Text) → Text → Text → C → Assoc C → Text × Assoc C
  rotate plain_jwt jti t fallback m =
      refresh_token plain_jwt jti (or_fallback fallback (lookup t m)) [] (delete t m)

  abbrev same_issuer : Callbacks C → Text → Option C → Bool
  same_issuer cbs issuer none = true
  same_issuer cbs issuer (some cb) = cbs.issuer_id cb == issuer

  -- The enqueued callback, or the stored one.
  abbrev pub resolved : Option C → Option C → Option C
  resolved (some cb) stored = some cb
  resolved none stored = stored

  abbrev renewed : (Text → Text → Text) → Text → Bool → Text → C → Assoc C → Text × Assoc C
  renewed plain_jwt jti rotating t cb m = if rotating then rotate plain_jwt jti t cb m else (t, m)

  abbrev pub refreshed :
      (Text → Text → Text)
      → Text
      → Bool
      → Text
      → Assoc C
      → Option C
      → Result GrantError (Granted C) × Assoc C
  refreshed plain_jwt jti rotating t m none = (err unknown_refresh_token, m)
  refreshed plain_jwt jti rotating t m (some cb) =
      let (t', m') = renewed plain_jwt jti rotating t cb m in
      (ok (record { callback = cb; nonce = []; refresh_token = t' }), m')

  -- Refresh
  unfoldable pub refresh_grant :
      (Text → Text → Text)
      → Callbacks C
      → Text
      → Bool
      → Text
      → Option C
      → Text
      → Assoc C
      → Result GrantError (Granted C) × Assoc C
  refresh_grant plain_jwt cbs jti rotating issuer enqueued t m =
      if same_issuer cbs issuer (lookup t m)
      then refreshed plain_jwt jti rotating t m (resolved enqueued (lookup t m))
      else (err other_issuer, m)

  -- The new token stands for the old one's callback, and the old one for nothing.
  pub record IsRotated (t t' : Text) (cb : C) (before after : Assoc C) : Type 0 where
    pub renewed_token : lookup t' after ≡ some cb
    pub spent : (t' == t) ≡ false → lookup t after ≡ none
    pub others :
        (k : Text) → (t == k) ≡ false → (t' == k) ≡ false → lookup k after ≡ lookup k before

  -- If rotation is on and a refresh token of this issuer is presented while no callback is enqueued,
  -- the answer carries a new token for the same callback; where the new token differs from the old one,
  -- the old one is unknown from then on; every other token is as before.
  pub refresh_grant-IsRotated :
      (plain_jwt : Text → Text → Text) (cbs : Callbacks C) (jti issuer t : Text) (cb : C)
      (m : Assoc C)
      → lookup t m ≡ some cb
      → (cbs.issuer_id cb == issuer) ≡ true
      → ((refresh_grant plain_jwt cbs jti true issuer none t m).0
          ≡ ok (record { callback = cb; nonce = []; refresh_token = jti }))
        × IsRotated t jti cb m (refresh_grant plain_jwt cbs jti true issuer none t m).1
  unfolding refresh_grant rotate refresh_token
  refresh_grant-IsRotated plain_jwt cbs jti issuer t cb m h g =
      let after : (refresh_grant plain_jwt cbs jti true issuer none t m).1
          ≡ insert jti cb (delete t m) =
        rw (h, g) (rw h refl) in
      (
        rw (h, g) refl,
        subst (IsRotated t jti cb m) (sym after) (record {
          renewed_token = lookup-insert-same jti cb (delete t m);
          spent = λ ne. lookup-insert-other jti t cb (delete t m) ne ∙ lookup-delete-same t m;
          others = λ k ne ne'.
              lookup-insert-other jti k cb (delete t m) ne'
              ∙ lookup-delete-other t k m (==-sym k t ∙ ne);
        }),
      )
