-- ===== src/Auth/Interceptor/Admission.antt =====
-- Which requests pass the interceptor of auth/interceptor.go, and as whom.
use echolist_backend.Base.{
  ℕ, true, false, Option, some, not, if◌then◌else◌, Bytes, ◌≡◌, ◌⊎◌, refl, sym, ap, ◌∙◌, arith,
  Bool-cases, inl, inr, str_eq_iff,
}
use echolist_backend.Base.Action.{Result, ok, err}
use echolist_backend.Common.Errors.{ConnectError, new_error, invalid_token_type, unauthenticated}
use echolist_backend.Auth.Tokens.{
  TokenClaims, TokenService, TokenError, expired, invalid, JwtLib, access, validate_token,
}
use echolist_backend.Auth.Interceptor.{
  is_public, Call, UnaryFunc, token_of, admit, authorize, auth_interceptor,
}
use echolist_backend.Auth.Interceptor.Header.{Refuses, HoldsToken, authorize-token, authorize-cases}

module _ (jwt : JwtLib) (service : TokenService) (now : ℕ) where
  -- The username with which a request passes.
  abbrev pub Passes : Option Bytes → Call → Option Bytes → Type 0
  Passes ctx call user =
      ((is_public call.procedure ≡ true) × (user ≡ ctx))
      ⊎ ((is_public call.procedure ≡ false)
          × ((name : Bytes) × (user ≡ some name)
              × HoldsToken jwt service now call.authorization name))

  pub auth_interceptor-public :
      {A : Type 0} (next : UnaryFunc A) (ctx : Option Bytes) (call : Call)
      → is_public call.procedure ≡ true
      → auth_interceptor jwt service now next ctx call ≡ next ctx
  unfolding auth_interceptor
  auth_interceptor-public next ctx call h =
      ap (λ b. if b then next ctx else authorize jwt service now next call.authorization) h

  pub auth_interceptor-private :
      {A : Type 0} (next : UnaryFunc A) (ctx : Option Bytes) (call : Call)
      → is_public call.procedure ≡ false
      → auth_interceptor jwt service now next ctx call
        ≡ authorize jwt service now next call.authorization
  unfolding auth_interceptor
  auth_interceptor-private next ctx call h =
      ap (λ b. if b then next ctx else authorize jwt service now next call.authorization) h

  auth_interceptor-cases :
      {A : Type 0} (next : UnaryFunc A) (ctx : Option Bytes) (call : Call)
      → ((user : Option Bytes) × Passes ctx call user
          × (auth_interceptor jwt service now next ctx call ≡ next user))
        ⊎ Refuses (auth_interceptor jwt service now next ctx call)
  auth_interceptor-cases next ctx call = elim (Bool-cases (is_public call.procedure)) [
    | inl public ↦ inl (ctx, inl (public, refl), auth_interceptor-public next ctx call public)
    | inr private ↦
        let same = auth_interceptor-private next ctx call private in
        elim (authorize-cases jwt service now next call.authorization) [
          | inl (user, holds, passes) ↦
              inl (some user, inr (private, (user, refl, holds)), same ∙ passes)
          | inr (e, refused, code) ↦ inr (e, same ∙ refused, code)
        ]
  ]

  -- The handler only sees the context with which the request passes.
  abbrev continue_with :
      {A : Type 0} → UnaryFunc A → Result ConnectError (Option Bytes) → Result ConnectError A
  continue_with next (ok user) = next user
  continue_with next (err e) = err e

  admit-continue :
      {A : Type 0} (next : UnaryFunc A) (r : Result TokenError TokenClaims)
      → admit jwt service now next r ≡ continue_with next (admit jwt service now ok r)
  admit-continue next (err expired) = refl
  admit-continue next (err invalid) = refl
  admit-continue next (ok claims) = ground arith

  auth_interceptor-continue :
      {A : Type 0} (next : UnaryFunc A) (ctx : Option Bytes) (call : Call)
      → auth_interceptor jwt service now next ctx call
        ≡ continue_with next (auth_interceptor jwt service now ok ctx call)
  unfolding auth_interceptor authorize
  auth_interceptor-continue next ctx call =
      ground
        (arith, admit-continue next (validate_token jwt service now (token_of call.authorization)))

  Passes-auth_interceptor :
      (ctx user : Option Bytes) (call : Call)
      → Passes ctx call user
      → auth_interceptor jwt service now ok ctx call ≡ ok user
  Passes-auth_interceptor ctx user call (inl (public, same)) =
      auth_interceptor-public ok ctx call public ∙ ap ok (sym same)
  Passes-auth_interceptor ctx user call
        (inr (private, (name, same, (token, claims, split, valid, type, named)))) =
      auth_interceptor-private ok ctx call private
      ∙ authorize-token jwt service now ok call.authorization token split
      ∙ ap (admit jwt service now ok) valid
      ∙ ap
          (λ b.
            if not b
            then err (new_error unauthenticated invalid_token_type)
            else ok (some claims.username))
          ((str_eq_iff claims.token_type access).1 type)
      ∙ ap (λ n. ok (some n)) named
      ∙ ap ok (sym same)

  -- Either a request passes the interceptor and the handler runs with its username: its procedure
  -- is a public one and the context stays as it is, or its header holds "Bearer " and a token of
  -- type access that validates now, and the context gets the token's username. Or neither is the
  -- case, and the answer is an Unauthenticated or InvalidArgument error.
  pub auth_interceptor-Passes :
      {A : Type 0} (next : UnaryFunc A) (ctx : Option Bytes) (call : Call)
      → ((user : Option Bytes) × Passes ctx call user
          × (auth_interceptor jwt service now next ctx call ≡ next user))
        ⊎ ((¬ ((user : Option Bytes) × Passes ctx call user))
            × Refuses (auth_interceptor jwt service now next ctx call))
  auth_interceptor-Passes next ctx call =
      let continued = auth_interceptor-continue next ctx call in
      elim (auth_interceptor-cases ok ctx call) [
        | inl (user, passes, runs) ↦ inl (user, passes, continued ∙ ap (continue_with next) runs)
        | inr (e, refused, code) ↦ inr (
          λ (user, passes). let runs = Passes-auth_interceptor ctx user call passes in ground arith,
          (e, continued ∙ ap (continue_with next) refused, code),
        )
      ]
