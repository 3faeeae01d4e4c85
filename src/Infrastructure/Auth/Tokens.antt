-- ===== src/Infrastructure/Auth/Tokens.antt =====
-- backend/src/app/infrastructure/authentication/jwt.py and
-- backend/src/app/presentation/api/dependencies/auth.py. Signing and checking a token is PyJWT's.
use ndma_edit.Prelude.{
  ℕ, ◌+◌, ◌*◌, Text, List, [], ◌∷◌, Bool, true, false, ◌||◌, Option, none, some, ◌≡◌, refl, ◌∙◌,
  arith, ltb, ◌==◌, ◌&&◌, text_eq, member, codes, Bool-cases, inl, inr,
}
use ndma_edit.Outcome.{Outcome, ok, err, authentication, key_error, value_error, ◌>>=◌}
use ndma_edit.Runtime.{Runtime, Uuid}
use ndma_edit.Domain.Aggregate.{Time}
use ndma_edit.Infrastructure.Persistence.Database.{insert_ordered, order_by}
use ndma_edit.Infrastructure.Settings.{AuthSettings}
use ndma_edit.Application.Context.{AuthContext, anonymous, has_permission, has_role}

-- The claims that the code writes and reads. A claim that is missing is `none`.
pub record Claims : Type 0 where
  pub sub : Option Text
  pub iss : Text
  pub aud : Text
  pub iat : Time
  pub exp : Time
  pub roles : Option (List Text)
  pub permissions : Option (List Text)

-- `jwt.encode` and `jwt.decode`, which has the clock as its last argument; a `PyJWTError` is `none`. A token
-- is a text that the code looks into nowhere.
-- `encode` writes a datetime as whole seconds. A token that was signed with the same secret and
-- algorithm, for this issuer and audience, is accepted from its issue to its expiry.
pub record Jwt : Type 1 where
  pub Token : Type 0
  pub whole_seconds : Time → Time
  pub encode : Claims → Text → Text → Token
  pub decode : Token → Text → Text → Text → Text → Time → Option Claims
  pub decode-encode :
      (c : Claims) (secret algorithm : Text) (now : Time)
      → ltb now (whole_seconds c.iat) ≡ false
      → ltb now (whole_seconds c.exp) ≡ true
      → decode (encode c secret algorithm) secret algorithm c.iss c.aud now
        ≡ some (record c { iat = whole_seconds c.iat; exp = whole_seconds c.exp })

-- `str` order, by code points.
unfoldable pub text_le : Text → Text → Bool
text_le [] t = true
text_le (c ∷ s) [] = false
text_le (c ∷ s) (d ∷ t) = ltb c d || (c == d && text_le s t)

-- `timedelta(minutes=n)`
abbrev pub minutes : ℕ → Time
minutes n = n * 60_000_000

abbrev or_empty : Option (List Text) → List Text
or_empty none = []
or_empty (some xs) = xs

-- `claims["sub"]`
abbrev subject : Option Text → Outcome Text
subject none = err (key_error (codes "sub"))
subject (some s) = ok s

abbrev uuid_or_error : Option Uuid → Outcome Uuid
uuid_or_error none = err (value_error (codes "badly formed hexadecimal UUID string"))
uuid_or_error (some u) = ok u

-- `except jwt.PyJWTError`
abbrev accepted : Option Claims → Outcome Claims
accepted none = err (authentication (codes "Invalid or expired access token"))
accepted (some c) = ok c

module _ (rt : Runtime) (jwt : Jwt) (settings : AuthSettings) where
  abbrev claims_for : Uuid → List Text → List Text → Time → Claims
  claims_for user_id roles permissions now = record {
    sub = some (rt.format_uuid user_id);
    iss = settings.jwt_issuer;
    aud = settings.jwt_audience;
    iat = now;
    exp = now + minutes settings.access_token_ttl_minutes;
    roles = some (order_by text_le roles);
    permissions = some (order_by text_le permissions);
  }

  -- `JwtTokenService.issue_access_token`
  unfoldable pub issue_access_token : Uuid → List Text → List Text → Time → jwt.Token
  issue_access_token user_id roles permissions now =
      jwt.encode (claims_for user_id roles permissions now) settings.jwt_secret
        settings.jwt_algorithm

  -- `JwtTokenService.verify`
  unfoldable pub verify : jwt.Token → Time → Outcome AuthContext
  verify token now = do
    claims ← accepted (
        jwt.decode token settings.jwt_secret settings.jwt_algorithm settings.jwt_issuer
          settings.jwt_audience now)
    s ← subject claims.sub
    user_id ← uuid_or_error (rt.parse_uuid s)
    ok (record {
      user_id = some user_id;
      roles = or_empty claims.roles;
      permissions = or_empty claims.permissions;
      is_authenticated = true;
    })

  abbrev bearer : Option jwt.Token → Time → Outcome AuthContext
  bearer none now = ok anonymous
  bearer (some token) now = verify token now

  -- `get_current_auth_context`, by the bearer token of the request.
  unfoldable pub get_current_auth_context : Option jwt.Token → Time → Outcome AuthContext
  unfolding verify
  get_current_auth_context credentials now = bearer credentials now

  -- Sorting keeps the members.
  member-insert :
      (p x : Text) (xs : List Text)
      → member p (insert_ordered text_le x xs) ≡ (text_eq p x || member p xs)
  unfolding member insert_ordered
  member-insert p x [] = refl
  member-insert p x (y ∷ ys) = elim (Bool-cases (text_le x y)) [
    | inl le ↦ rw le refl
    | inr gt ↦ rw (gt, member-insert p x ys) (ground arith)
  ]

  member-order_by : (p : Text) (xs : List Text) → member p (order_by text_le xs) ≡ member p xs
  unfolding member order_by
  member-order_by p [] = refl
  member-order_by p (x ∷ xs) =
      member-insert p x (order_by text_le xs) ∙ rw (member-order_by p xs) refl

  -- A token that was issued for a user is good from the second of its issue to the second in which
  -- its lifetime ends: whoever shows
  -- it is authenticated as that user, with exactly the roles and permissions that it was issued with.
  pub verify-issue :
      (user_id : Uuid) (roles permissions : List Text) (now later : Time)
      → ltb later (jwt.whole_seconds now) ≡ false
      → ltb later (jwt.whole_seconds (now + minutes settings.access_token_ttl_minutes)) ≡ true
      → (c : AuthContext) × (get_current_auth_context
            (some (issue_access_token user_id roles permissions now))
            later
          ≡ ok c)
        × (c.user_id ≡ some user_id)
        × (c.is_authenticated ≡ true)
        × ((p : Text) → has_permission c p ≡ member p permissions)
        × ((r : Text) → has_role c r ≡ member r roles)
  unfolding get_current_auth_context issue_access_token verify has_permission has_role
  verify-issue user_id roles permissions now later issued alive = (
    record {
      user_id = some user_id;
      roles = order_by text_le roles;
      permissions = order_by text_le permissions;
      is_authenticated = true;
    },
    rw
        (
          jwt.decode-encode (claims_for user_id roles permissions now) _ _ later issued alive,
          rt.parse-format user_id,
        )
        refl,
    refl,
    refl,
    λ p. member-order_by p permissions,
    λ r. member-order_by r roles,
  )
