-- ===== src/Auth/Interceptor.antt =====
-- auth/interceptor.go
pub mod Header
pub mod Admission
use echolist_backend.Base.{
  ℕ, Bool, true, false, Option, none, some, List, [], ◌∷◌, not, if◌then◌else◌, drop, length, Bytes,
  bytes, str_eq, contains, has_prefix,
}
use echolist_backend.Base.Action.{Result, ok, err}
use echolist_backend.Common.Errors.{
  ConnectError, new_error, unauthenticated, invalid_argument, missing_authorization,
  malformed_authorization, token_expired, invalid_token, invalid_token_type,
}
use echolist_backend.Auth.Tokens.{
  TokenClaims, TokenService, TokenError, expired, invalid, JwtLib, access, validate_token,
}

abbrev pub public_procedures : List Bytes
public_procedures =
    bytes "/auth.v1.AuthService/Login" ∷ bytes "/auth.v1.AuthService/RefreshToken" ∷ []

unfoldable pub is_public : Bytes → Bool
is_public procedure = contains public_procedures procedure

abbrev pub bearer : Bytes
bearer = bytes "Bearer "

-- What the interceptor reads of a request. A missing header is empty.
pub record Call : Type 0 where
  pub procedure : Bytes
  pub authorization : Bytes

-- A handler, on the username that the context holds.
abbrev pub UnaryFunc : Type 0 → Type 0
UnaryFunc A = Option Bytes → Result ConnectError A

-- strings.TrimPrefix(header, "Bearer ")
abbrev pub token_of : Bytes → Bytes
token_of header = drop (length bearer) header

module _ (jwt : JwtLib) (service : TokenService) (now : ℕ) where
  -- The rest of the interceptor, on the outcome of ValidateToken.
  abbrev pub admit :
      {A : Type 0} → UnaryFunc A → Result TokenError TokenClaims → Result ConnectError A
  admit next (err expired) = err (new_error unauthenticated token_expired)
  admit next (err invalid) = err (new_error unauthenticated invalid_token)
  admit next (ok claims) =
      if not (str_eq claims.token_type access)
      then err (new_error unauthenticated invalid_token_type)
      else next (some claims.username)

  -- From the header on.
  unfoldable pub authorize : {A : Type 0} → UnaryFunc A → Bytes → Result ConnectError A
  unfolding validate_token
  authorize next header =
      if str_eq header []
      then err (new_error unauthenticated missing_authorization)
      else if not (has_prefix bearer header)
      then err (new_error invalid_argument malformed_authorization)
      else admit next (validate_token jwt service now (token_of header))

  unfoldable pub auth_interceptor :
      {A : Type 0} → UnaryFunc A → Option Bytes → Call → Result ConnectError A
  unfolding authorize is_public
  auth_interceptor next ctx call =
      if is_public call.procedure then next ctx else authorize next call.authorization
