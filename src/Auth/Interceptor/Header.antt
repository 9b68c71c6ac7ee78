-- ===== src/Auth/Interceptor/Header.antt =====
-- What the header of a request decides in auth/interceptor.go.
use echolist_backend.Base.{
  ℕ, Bool, true, false, some, [], ◌∷◌, ◌++◌, not, if◌then◌else◌, drop, length, Bytes, str_eq,
  has_prefix, ◌≡◌, ◌⊎◌, refl, ap, ◌∙◌, arith, Bool-cases, inl, inr, str_eq_iff,
}
use echolist_backend.Base.Action.{Result, ok, err}
use echolist_backend.Common.Errors.{
  ConnectError, new_error, token_expired, invalid_token, invalid_token_type, missing_authorization,
  malformed_authorization, unauthenticated, invalid_argument,
}
use echolist_backend.Auth.Tokens.{
  TokenClaims, TokenService, TokenError, expired, invalid, JwtLib, access, validate_token,
}
use echolist_backend.Auth.Interceptor.{bearer, UnaryFunc, token_of, admit, authorize}

-- A header is "Bearer " and a token.
has_prefix-split : (p s : Bytes) → has_prefix p s ≡ true → s ≡ p ++ drop (length p) s
unfolding has_prefix
has_prefix-split [] s h = refl
has_prefix-split (c ∷ p) [] h = ground arith
has_prefix-split (c ∷ p) (y ∷ s) h = ground (arith, has_prefix-split p s)

-- An error of the interceptor itself.
abbrev pub Refuses : {A : Type 0} → Result ConnectError A → Type 0
Refuses r =
    (e : ConnectError) × (r ≡ err e) × ((e.code ≡ unauthenticated) ⊎ (e.code ≡ invalid_argument))

module _ (jwt : JwtLib) (service : TokenService) (now : ℕ) where
  -- "Bearer " and a valid access token of the user.
  abbrev pub HoldsToken : Bytes → Bytes → Type 0
  HoldsToken header user =
      (token : Bytes) × (claims : TokenClaims) × (header ≡ bearer ++ token)
      × (validate_token jwt service now token ≡ ok claims)
      × (claims.token_type ≡ access)
      × (claims.username ≡ user)

  pub authorize-bearer :
      {A : Type 0} (next : UnaryFunc A) (token : Bytes)
      → authorize jwt service now next (bearer ++ token)
        ≡ admit jwt service now next (validate_token jwt service now token)
  unfolding authorize str_eq has_prefix
  authorize-bearer next token = refl

  admit-cases :
      {A : Type 0} (next : UnaryFunc A) (r : Result TokenError TokenClaims)
      → ((claims : TokenClaims) × (r ≡ ok claims)
          × (claims.token_type ≡ access)
          × (admit jwt service now next r ≡ next (some claims.username)))
        ⊎ Refuses (admit jwt service now next r)
  admit-cases next (err expired) = inr (new_error unauthenticated token_expired, refl, inl refl)
  admit-cases next (err invalid) = inr (new_error unauthenticated invalid_token, refl, inl refl)
  admit-cases next (ok claims) = elim (Bool-cases (str_eq claims.token_type access)) [
    | inl same ↦ inl (
      claims,
      refl,
      (str_eq_iff claims.token_type access).0 same,
      ap
          (λ b.
            if not b
            then err (new_error unauthenticated invalid_token_type)
            else next (some claims.username))
          same,
    )
    | inr other ↦ inr (
      new_error unauthenticated invalid_token_type,
      ap
          (λ b.
            if not b
            then err (new_error unauthenticated invalid_token_type)
            else next (some claims.username))
          other,
      inl refl,
    )
  ]

  pub authorize-token :
      {A : Type 0} (next : UnaryFunc A) (header token : Bytes)
      → header ≡ bearer ++ token
      → authorize jwt service now next header
        ≡ admit jwt service now next (validate_token jwt service now token)
  authorize-token next header token h =
      ap (authorize jwt service now next) h ∙ authorize-bearer next token

  abbrev refused_or_admitted : {A : Type 0} → UnaryFunc A → Bytes → Bool → Result ConnectError A
  refused_or_admitted next header b =
      if not b
      then err (new_error invalid_argument malformed_authorization)
      else admit jwt service now next (validate_token jwt service now (token_of header))

  -- Without the prefix.
  authorize-Refuses :
      {A : Type 0} (next : UnaryFunc A) (header : Bytes)
      → has_prefix bearer header ≡ false
      → Refuses (authorize jwt service now next header)
  unfolding authorize
  authorize-Refuses next header h = elim (Bool-cases (str_eq header [])) [
    | inl empty ↦ (
      new_error unauthenticated missing_authorization,
      ap
          (λ b.
            if b
            then err (new_error unauthenticated missing_authorization)
            else refused_or_admitted next header (has_prefix bearer header))
          empty,
      inl refl,
    )
    | inr full ↦ (
      new_error invalid_argument malformed_authorization,
      ap
            (λ b.
              if b
              then err (new_error unauthenticated missing_authorization)
              else refused_or_admitted next header (has_prefix bearer header))
            full
          ∙ ap (refused_or_admitted next header) h,
      inr refl,
    )
  ]

  pub authorize-cases :
      {A : Type 0} (next : UnaryFunc A) (header : Bytes)
      → ((user : Bytes) × HoldsToken header user
          × (authorize jwt service now next header ≡ next (some user)))
        ⊎ Refuses (authorize jwt service now next header)
  authorize-cases next header = elim (Bool-cases (has_prefix bearer header)) [
    | inr without ↦ inr (authorize-Refuses next header without)
    | inl with_bearer ↦
        let token = drop (length bearer) header in
        let split = has_prefix-split bearer header with_bearer in
        let same = authorize-token next header token split in
        elim (admit-cases next (validate_token jwt service now token)) [
          | inl (claims, valid, type, passes) ↦
              inl (claims.username, (token, claims, split, valid, type, refl), same ∙ passes)
          | inr (e, refused, code) ↦ inr (e, same ∙ refused, code)
        ]
  ]
