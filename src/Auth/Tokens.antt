-- ===== src/Auth/Tokens.antt =====
-- auth/token_service.go. Times are nanoseconds since the epoch; the dates in a token are seconds.
pub mod Lifetime
use echolist_backend.Base.{
  ℕ, ◌+◌, ◌/◌, Bool, true, false, Option, none, some, not, if◌then◌else◌, Bytes, bytes,
}
use echolist_backend.Base.Action.{Result, ok, err}

-- The claims that the program sets or reads; of jwt.RegisteredClaims, the three it sets.
pub record TokenClaims : Type 0 where
  pub username : Bytes
  pub token_type : Bytes
  pub subject : Bytes
  pub issued_at : Option ℕ
  pub expires_at : Option ℕ

pub record TokenService : Type 0 where
  pub secret : Bytes
  pub access_token_ttl : ℕ
  pub refresh_token_ttl : ℕ

-- The type of a token's signing method: *jwt.SigningMethodHMAC, or another.
pub data SigningMethod : Type 0 where
  hmac other_method : SigningMethod

-- jwt.Token: its claims and its field Valid.
pub record Token : Type 0 where
  pub claims : TokenClaims
  pub valid : Bool

-- An error for which errors.Is(err, jwt.ErrTokenExpired) holds, or another.
pub data TokenError : Type 0 where
  expired invalid : TokenError

-- github.com/golang-jwt/jwt, which is not part of the program: signing claims with HS256 and a
-- secret, and parsing a token at a time with a function that finds the key for its method.
pub record JwtLib : Type 0 where
  pub signed_string : TokenClaims → Bytes → Option Bytes
  pub method : Bytes → SigningMethod
  pub parse_with_claims : (SigningMethod → Option Bytes) → ℕ → Bytes → Result TokenError Token

-- jwt.NewNumericDate
abbrev pub new_numeric_date : ℕ → ℕ
new_numeric_date t = t / 1000000000

abbrev pub access : Bytes
access = bytes "access"

abbrev pub refresh : Bytes
refresh = bytes "refresh"

module _ (jwt : JwtLib) (service : TokenService) where
  unfoldable pub generate_token : ℕ → Bytes → Bytes → ℕ → Option Bytes
  generate_token now username token_type ttl =
      jwt.signed_string
        (record {
          username = username;
          token_type = token_type;
          subject = username;
          issued_at = some (new_numeric_date now);
          expires_at = some (new_numeric_date (now + ttl));
        })
        service.secret

  unfoldable pub generate_access_token : ℕ → Bytes → Option Bytes
  unfolding generate_token
  generate_access_token now username = generate_token now username access service.access_token_ttl

  unfoldable pub generate_refresh_token : ℕ → Bytes → Option Bytes
  unfolding generate_token
  generate_refresh_token now username =
      generate_token now username refresh service.refresh_token_ttl

  -- The key function, which refuses a method that is not an HMAC.
  unfoldable pub key_of : SigningMethod → Option Bytes
  key_of hmac = some service.secret
  key_of other_method = none

  -- The tests of ValidateToken on the outcome of parsing.
  abbrev pub checked : Result TokenError Token → Result TokenError TokenClaims
  checked (err e) = err e
  checked (ok token) = if not token.valid then err invalid else ok token.claims

  unfoldable pub validate_token : ℕ → Bytes → Result TokenError TokenClaims
  unfolding key_of
  validate_token now token_str = checked (jwt.parse_with_claims key_of now token_str)
