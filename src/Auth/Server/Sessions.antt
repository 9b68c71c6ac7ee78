-- ===== src/Auth/Server/Sessions.antt =====
-- Logins of auth/auth_server.go, and what the tokens of a login are good for.
use echolist_backend.Base.{
  ℕ, true, false, Option, some, List, ◌++◌, ltb, if◌then◌else◌, Bytes, str_eq, ◌≡◌, ◌⊎◌, refl, ap,
  ◌∙◌, arith, Bool-cases, Option-cases, inl, inr,
}
use echolist_backend.Base.Action.{Result, ok, err}
use echolist_backend.Common.Errors.{
  new_error, unauthenticated, invalid_credentials, invalid_refresh_token, token_expired,
  invalid_token_type,
}
use echolist_backend.Auth.Tokens.{
  TokenClaims, TokenService, JwtLib, TokenError, access, refresh, generate_access_token,
  generate_refresh_token, validate_token,
}
use echolist_backend.Auth.Tokens.Lifetime.{
  JwtLaws, expiry, until_expiry, claims_at, generate_token-validate_token,
}
use echolist_backend.Auth.Interceptor.{is_public, bearer, Call, UnaryFunc, admit, auth_interceptor}
use echolist_backend.Auth.Interceptor.Admission.{auth_interceptor-private}
use echolist_backend.Auth.Interceptor.Header.{authorize-token}
use echolist_backend.Auth.Users.{
  User, Libraries, get_user, check_password, authenticate, credentials_invalid,
}
use echolist_backend.Auth.Server.{
  LoginResponse, tokens_or_error, access_or_error, after_authenticate, after_validate, login,
  refresh_token,
}

-- The user that getUser finds has that password.
abbrev pub Knows : Libraries → List User → Bytes → Bytes → Type 0
Knows libs users username password =
    (user : User) × (get_user users username ≡ some user)
    × (libs.compare_hash_and_password user.password_hash password ≡ true)

pub login_cases :
    (jwt : JwtLib) (service : TokenService) (libs : Libraries) (users : List User) (now later : ℕ)
    (username password : Bytes)
    → (Knows libs users username password
        × (login jwt service libs users now later username password
            ≡ tokens_or_error
                (generate_access_token jwt service now username)
                (generate_refresh_token jwt service later username)))
      ⊎ ((¬ Knows libs users username password)
          × (login jwt service libs users now later username password
              ≡ err (new_error unauthenticated invalid_credentials)))
unfolding login authenticate
login_cases jwt service libs users now later username password =
    elim (Option-cases (get_user users username)) [
      | inl unknown ↦ inr (
        λ (u, found, same). ground arith,
        ap (λ o. after_authenticate jwt service now later username (check_password libs password o))
            unknown,
      )
      | inr (user, known) ↦
          elim (Bool-cases (libs.compare_hash_and_password user.password_hash password)) [
            | inl right ↦ inl (
              (user, known, right),
              ap
                    (λ o.
                      after_authenticate jwt service now later username
                        (check_password libs password o))
                    known
                  ∙ ap
                      (λ b.
                        after_authenticate jwt service now later username
                          (if b then ok user else err credentials_invalid))
                      right,
            )
            | inr wrong ↦ inr (
              λ (u, found, same). ground arith,
              ap
                    (λ o.
                      after_authenticate jwt service now later username
                        (check_password libs password o))
                    known
                  ∙ ap
                      (λ b.
                        after_authenticate jwt service now later username
                          (if b then ok user else err credentials_invalid))
                      wrong,
            )
          ]
    ]

-- A call with a token in its header.
abbrev pub bearer_call : Bytes → Bytes → Call
bearer_call procedure token = record { procedure = procedure; authorization = bearer ++ token }

module _ (jwt : JwtLib) (laws : JwtLaws jwt) (service : TokenService) where
  generate_access_token-validate_token :
      (now later : ℕ) (username text : Bytes)
      → laws.is_text username ≡ true
      → generate_access_token jwt service now username ≡ some text
      → validate_token jwt service later text
        ≡ until_expiry now service.access_token_ttl later
            (claims_at now username access service.access_token_ttl)
  unfolding generate_access_token
  generate_access_token-validate_token now later username text hu signed =
      generate_token-validate_token jwt laws service now later service.access_token_ttl username
        access text hu laws.access_is_text signed

  generate_refresh_token-validate_token :
      (now later : ℕ) (username text : Bytes)
      → laws.is_text username ≡ true
      → generate_refresh_token jwt service now username ≡ some text
      → validate_token jwt service later text
        ≡ until_expiry now service.refresh_token_ttl later
            (claims_at now username refresh service.refresh_token_ttl)
  unfolding generate_refresh_token
  generate_refresh_token-validate_token now later username text hu signed =
      generate_token-validate_token jwt laws service now later service.refresh_token_ttl username
        refresh text hu laws.refresh_is_text signed

  login-tokens :
      (libs : Libraries) (users : List User) (now later : ℕ) (username password : Bytes)
      (resp : LoginResponse)
      → login jwt service libs users now later username password ≡ ok resp
      → (generate_access_token jwt service now username ≡ some resp.access_token)
        × (generate_refresh_token jwt service later username ≡ some resp.refresh_token)
  login-tokens libs users now later username password resp h =
      ground (arith, login_cases jwt service libs users now later username password)

  auth_interceptor-validate_token :
      {A : Type 0} (time : ℕ) (next : UnaryFunc A) (ctx : Option Bytes) (procedure token : Bytes)
      (r : Result TokenError TokenClaims)
      → is_public procedure ≡ false
      → validate_token jwt service time token ≡ r
      → auth_interceptor jwt service time next ctx (bearer_call procedure token)
        ≡ admit jwt service time next r
  auth_interceptor-validate_token time next ctx procedure token r private validated =
      auth_interceptor-private jwt service time next ctx (bearer_call procedure token) private
      ∙ authorize-token jwt service time next (bearer ++ token) token refl
      ∙ ap (admit jwt service time next) validated

  admit-access :
      {A : Type 0} (time now ttl : ℕ) (next : UnaryFunc A) (username : Bytes)
      → admit jwt service time next (until_expiry now ttl time (claims_at now username access ttl))
        ≡ (if ltb time (expiry now ttl)
            then next (some username)
            else err (new_error unauthenticated token_expired))
  unfolding str_eq
  admit-access time now ttl next username = ground arith

  admit-refresh :
      {A : Type 0} (time now ttl : ℕ) (next : UnaryFunc A) (username : Bytes)
      → admit jwt service time next (until_expiry now ttl time (claims_at now username refresh ttl))
        ≡ err (
            new_error unauthenticated
              (if ltb time (expiry now ttl) then invalid_token_type else token_expired))
  unfolding str_eq
  admit-refresh time now ttl next username = ground arith

  refresh-access :
      (time now ttl later : ℕ) (username : Bytes)
      → after_validate jwt service later
          (until_expiry now ttl time (claims_at now username access ttl))
        ≡ err (new_error unauthenticated invalid_refresh_token)
  unfolding str_eq
  refresh-access time now ttl later username = ground arith

  refresh-refresh :
      (time now ttl later : ℕ) (username : Bytes)
      → after_validate jwt service later
          (until_expiry now ttl time (claims_at now username refresh ttl))
        ≡ (if ltb time (expiry now ttl)
            then access_or_error (generate_access_token jwt service later username)
            else err (new_error unauthenticated invalid_refresh_token))
  unfolding str_eq
  refresh-refresh time now ttl later username = ground arith

  -- For the tokens of a login, at any time and for any procedure that is not public: a request with
  -- the access token reaches the handler as the user who logged in until the token expires, and is
  -- refused as expired from then on; one with the refresh token never reaches it. RefreshToken
  -- turns the refresh token into a new access token of the same user until it expires, and always
  -- refuses the access token.
  pub login_session :
      {A : Type 0} (libs : Libraries) (users : List User) (now later : ℕ)
      (username password : Bytes) (resp : LoginResponse) (time then_ : ℕ) (next : UnaryFunc A)
      (ctx : Option Bytes) (procedure : Bytes)
      → laws.is_text username ≡ true
      → login jwt service libs users now later username password ≡ ok resp
      → is_public procedure ≡ false
      → (auth_interceptor jwt service time next ctx (bearer_call procedure resp.access_token) ≡ (
          if ltb time (expiry now service.access_token_ttl)
          then next (some username)
          else err (new_error unauthenticated token_expired)))
        × (auth_interceptor jwt service time next ctx (bearer_call procedure resp.refresh_token)
            ≡ err (
                new_error unauthenticated (
                  if ltb time (expiry later service.refresh_token_ttl)
                  then invalid_token_type
                  else token_expired)))
        × (refresh_token jwt service time then_ resp.refresh_token ≡ (
            if ltb time (expiry later service.refresh_token_ttl)
            then access_or_error (generate_access_token jwt service then_ username)
            else err (new_error unauthenticated invalid_refresh_token)))
        × (refresh_token jwt service time then_ resp.access_token
            ≡ err (new_error unauthenticated invalid_refresh_token))
  unfolding refresh_token
  login_session libs users now later username password resp time then_ next ctx procedure text h
        private =
      let (signed_a, signed_r) = login-tokens libs users now later username password resp h in
      let a =
        generate_access_token-validate_token now time username resp.access_token text signed_a in
      let r =
        generate_refresh_token-validate_token later time username resp.refresh_token text
          signed_r in
      let attl = service.access_token_ttl in
      let rttl = service.refresh_token_ttl in
      (
        auth_interceptor-validate_token time next ctx procedure resp.access_token
              (until_expiry now attl time (claims_at now username access attl)) private a
            ∙ admit-access time now attl next username,
        auth_interceptor-validate_token time next ctx procedure resp.refresh_token
              (until_expiry later rttl time (claims_at later username refresh rttl)) private r
            ∙ admit-refresh time later rttl next username,
        ap (after_validate jwt service then_) r ∙ refresh-refresh time later rttl then_ username,
        ap (after_validate jwt service then_) a ∙ refresh-access time now attl then_ username,
      )
