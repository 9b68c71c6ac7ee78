-- ===== src/Auth/Server.antt =====
-- auth/auth_server.go
pub mod Sessions
pub mod Credentials
use echolist_backend.Base.{
  ℕ, Bool, true, false, Option, none, some, List, not, if◌then◌else◌, Bytes, str_eq,
}
use echolist_backend.Base.Action.{Result, ok, err}
use echolist_backend.Common.Errors.{
  ConnectError, new_error, unauthenticated, internal, invalid_credentials, failed_access_token,
  failed_refresh_token, invalid_refresh_token,
}
use echolist_backend.Auth.Tokens.{
  TokenClaims, TokenError, TokenService, JwtLib, refresh, generate_access_token,
  generate_refresh_token, validate_token,
}
use echolist_backend.Auth.Users.{User, StoreError, Libraries, authenticate}

pub record LoginResponse : Type 0 where
  pub access_token : Bytes
  pub refresh_token : Bytes

abbrev pub tokens_or_error : Option Bytes → Option Bytes → Result ConnectError LoginResponse
tokens_or_error none r = err (new_error internal failed_access_token)
tokens_or_error (some a) none = err (new_error internal failed_refresh_token)
tokens_or_error (some a) (some r) = ok (record { access_token = a; refresh_token = r })

abbrev pub access_or_error : Option Bytes → Result ConnectError Bytes
access_or_error none = err (new_error internal failed_access_token)
access_or_error (some a) = ok a

-- now, later: the clock at the two tokens.
module _ (jwt : JwtLib) (service : TokenService) where
  -- The rest of Login.
  abbrev pub after_authenticate :
      ℕ → ℕ → Bytes → Result StoreError User → Result ConnectError LoginResponse
  after_authenticate now later username (err e) =
      err (new_error unauthenticated invalid_credentials)
  after_authenticate now later username (ok user) =
      tokens_or_error (generate_access_token jwt service now username)
        (generate_refresh_token jwt service later username)

  unfoldable pub login :
      Libraries → List User → ℕ → ℕ → Bytes → Bytes → Result ConnectError LoginResponse
  unfolding authenticate generate_access_token generate_refresh_token
  login libs users now later username password =
      after_authenticate now later username (authenticate libs users username password)

  -- The rest of RefreshToken.
  abbrev pub after_validate : ℕ → Result TokenError TokenClaims → Result ConnectError Bytes
  after_validate later (err e) = err (new_error unauthenticated invalid_refresh_token)
  after_validate later (ok claims) =
      if not (str_eq claims.token_type refresh)
      then err (new_error unauthenticated invalid_refresh_token)
      else access_or_error (generate_access_token jwt service later claims.username)

  unfoldable pub refresh_token : ℕ → ℕ → Bytes → Result ConnectError Bytes
  unfolding validate_token generate_access_token
  refresh_token now later token = after_validate later (validate_token jwt service now token)
