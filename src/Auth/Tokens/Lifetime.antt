-- ===== src/Auth/Tokens/Lifetime.antt =====
-- What a token of generateToken in auth/token_service.go is worth over time.
use echolist_backend.Base.{
  ℕ, ◌+◌, ◌*◌, ◌≤◌, ◌<◌, Bool, true, Option, none, some, ltb, if◌then◌else◌, Bytes, ◌≡◌, refl, ap,
  sym, ◌∙◌, arith, Bool-cases, inl, inr,
}
use echolist_backend.Base.Action.{Result, ok, err}
use echolist_backend.Auth.Tokens.{
  TokenClaims, TokenService, SigningMethod, hmac, other_method, TokenError, expired, invalid,
  JwtLib, new_numeric_date, access, refresh, generate_token, key_of, validate_token, checked,
}

-- The nanosecond at which a token of this time and lifetime expires.
abbrev pub expiry : ℕ → ℕ → ℕ
expiry now ttl = new_numeric_date (now + ttl) * 1000000000

-- What the program relies on in the JWT library. `is_text` holds of valid UTF-8, which JSON carries
-- unchanged.
pub record JwtLaws (jwt : JwtLib) : Type 0 where
  pub is_text : Bytes → Bool
  pub access_is_text : is_text access ≡ true
  pub refresh_is_text : is_text refresh ≡ true
  -- A token signed with a key parses with it until the second of its expiry...
  pub fresh :
      (claims : TokenClaims) (key text : Bytes) (keys : SigningMethod → Option Bytes) (exp now : ℕ)
      → is_text claims.username ≡ true
      → is_text claims.token_type ≡ true
      → claims.subject ≡ claims.username
      → claims.expires_at ≡ some exp
      → jwt.signed_string claims key ≡ some text
      → keys hmac ≡ some key
      → now < exp * 1000000000
      → jwt.parse_with_claims keys now text ≡ ok (record { claims = claims; valid = true })
  -- ...and is reported as expired from then on.
  pub stale :
      (claims : TokenClaims) (key text : Bytes) (keys : SigningMethod → Option Bytes) (exp now : ℕ)
      → claims.expires_at ≡ some exp
      → jwt.signed_string claims key ≡ some text
      → keys hmac ≡ some key
      → exp * 1000000000 ≤ now
      → jwt.parse_with_claims keys now text ≡ err expired
  -- Without a key for its method no token parses.
  pub keyless :
      (keys : SigningMethod → Option Bytes) (now : ℕ) (text : Bytes)
      → keys (jwt.method text) ≡ none
      → jwt.parse_with_claims keys now text ≡ err invalid

abbrev pub claims_at : ℕ → Bytes → Bytes → ℕ → TokenClaims
claims_at now username token_type ttl = record {
  username = username;
  token_type = token_type;
  subject = username;
  issued_at = some (new_numeric_date now);
  expires_at = some (new_numeric_date (now + ttl));
}

abbrev pub until_expiry : {A : Type 0} → ℕ → ℕ → ℕ → A → Result TokenError A
until_expiry now ttl later a = if ltb later (expiry now ttl) then ok a else err expired

module _ (jwt : JwtLib) (laws : JwtLaws jwt) (service : TokenService) where
  -- A generated token validates to the username and the type it was generated for until the
  -- second in which its lifetime ends, and is refused as expired from then on.
  pub generate_token-validate_token :
      (now later ttl : ℕ) (username token_type text : Bytes)
      → laws.is_text username ≡ true
      → laws.is_text token_type ≡ true
      → generate_token jwt service now username token_type ttl ≡ some text
      → validate_token jwt service later text
        ≡ until_expiry now ttl later (claims_at now username token_type ttl)
  unfolding generate_token validate_token key_of
  generate_token-validate_token now later ttl username token_type text hu ht signed =
      let c = claims_at now username token_type ttl in
      let exp = new_numeric_date (now + ttl) in
      elim (Bool-cases (ltb later (expiry now ttl))) [
        | inl before ↦
            let parsed =
              laws.fresh c service.secret text (key_of jwt service) exp later hu ht refl refl signed
                refl (ground arith) in
            ap (checked jwt service) parsed ∙ ap (λ b. if b then ok c else err expired) (sym before)
        | inr after ↦
            let parsed =
              laws.stale c service.secret text (key_of jwt service) exp later refl signed refl
                (ground arith) in
            ap (checked jwt service) parsed ∙ ap (λ b. if b then ok c else err expired) (sym after)
      ]

  -- A token whose method is not an HMAC is refused, whatever it claims.
  pub validate_token-other_method :
      (now : ℕ) (text : Bytes)
      → jwt.method text ≡ other_method
      → validate_token jwt service now text ≡ err invalid
  unfolding validate_token key_of
  validate_token-other_method now text h =
      let parsed = laws.keyless (key_of jwt service) now text (ap (key_of jwt service) h) in
      ap (checked jwt service) parsed
