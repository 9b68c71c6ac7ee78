-- ===== src/Auth/Server/Credentials.antt =====
-- Whom Login of auth/auth_server.go lets in, by the users of auth/user_store.go.
use echolist_backend.Base.{
  ℕ, true, false, Option, none, some, List, [], ◌∷◌, ◌++◌, All, Bytes, str_eq, str_eq_iff, ◌≡◌, ◌≢◌,
  ◌↔◌, ◌⊎◌, inl, inr, refl, sym, ap, ◌∙◌, arith, Bool-cases,
}
use mathlib.Core.Path.{subst}
use mathlib.Core.Option.{some-injective}
use echolist_backend.Base.Action.{Result, ok, err}
use echolist_backend.Common.Errors.{
  ConnectError, new_error, unauthenticated, internal, invalid_credentials,
}
use echolist_backend.Auth.Tokens.{
  TokenService, JwtLib, generate_access_token, generate_refresh_token,
}
use echolist_backend.Auth.Users.{User, Libraries, get_user}
use echolist_backend.Auth.Server.{LoginResponse, tokens_or_error, login}
use echolist_backend.Auth.Server.Sessions.{Knows, login_cases}

-- The first user of a name.
abbrev pub FirstOf : Bytes → List User → User → Type 0
FirstOf name users user =
    (before : List User) × (after : List User) × (users ≡ before ++ (user ∷ after))
    × (user.username ≡ name)
    × All (λ u. u.username ≢ name) before

-- The store has a user of that name, and the first one has that password.
abbrev pub HasPassword : Libraries → List User → Bytes → Bytes → Type 0
HasPassword libs users username password =
    (user : User) × FirstOf username users user
    × (libs.compare_hash_and_password user.password_hash password ≡ true)

-- The user stands first.
at_head :
    (name : Bytes) (u : User) (users : List User)
    → str_eq u.username name ≡ true
    → get_user (u ∷ users) name ≡ some u
at_head name u users h = rw h

behind_head :
    (name : Bytes) (u : User) (users : List User)
    → str_eq u.username name ≡ false
    → get_user (u ∷ users) name ≡ get_user users name
behind_head name u users h = rw h

get_user-FirstOf :
    (name : Bytes) (users : List User) (user : User)
    → get_user users name ≡ some user
    → FirstOf name users user
get_user-FirstOf name [] user h = absurd (ground arith)
get_user-FirstOf name (u ∷ users) user h = elim (Bool-cases (str_eq u.username name)) [
  | inl e ↦
      let it = some-injective u user (sym (at_head name u users e) ∙ h) in
      (
        [],
        users,
        ap (λ x. x ∷ users) it,
        ap (λ (x : User). x.username) (sym it) ∙ (str_eq_iff u.username name).0 e,
        tt,
      )
  | inr e ↦
      let (before, after, split, same, others) =
        get_user-FirstOf name users user (sym (behind_head name u users e) ∙ h) in
      (
        u ∷ before,
        after,
        ap (λ us. u ∷ us) split,
        same,
        (λ q. (let e' = (str_eq_iff u.username name).1 q in ground arith), others),
      )
]

FirstOf-get_user :
    (name : Bytes) (before after : List User) (user : User)
    → user.username ≡ name
    → All (λ u. u.username ≢ name) before
    → get_user (before ++ (user ∷ after)) name ≡ some user
FirstOf-get_user name [] after user e h =
    at_head name user after ((str_eq_iff user.username name).1 e)
FirstOf-get_user name (u ∷ before) after user e h =
    behind_head name u (before ++ (user ∷ after)) other
    ∙ FirstOf-get_user name before after user e h.1
  where
    other : str_eq u.username name ≡ false
    other = elim (Bool-cases (str_eq u.username name)) [
      | inl q ↦ absurd (h.0 ((str_eq_iff u.username name).0 q))
      | inr q ↦ q
    ]

Knows-HasPassword :
    (libs : Libraries) (users : List User) (username password : Bytes)
    → Knows libs users username password ↔ HasPassword libs users username password
Knows-HasPassword libs users username password = (
  λ (user, found, same). (user, get_user-FirstOf username users user found, same),
  λ (user, (before, after, split, e, others), same). (
    user,
    ap (λ us. get_user us username) split ∙ FirstOf-get_user username before after user e others,
    same,
  ),
)

module _ (jwt : JwtLib) (service : TokenService) (now later : ℕ) (username : Bytes) where
  -- The response has an access and a refresh token that are signed for the user; there is only an
  -- internal error if one of them cannot be signed.
  abbrev pub SignedFor : Result ConnectError LoginResponse → Type 0
  SignedFor (ok resp) =
      (generate_access_token jwt service now username ≡ some resp.access_token)
      × (generate_refresh_token jwt service later username ≡ some resp.refresh_token)
  SignedFor (err e) =
      (e.code ≡ internal)
      × ((generate_access_token jwt service now username ≡ none)
          ⊎ (generate_refresh_token jwt service later username ≡ none))

  tokens-SignedFor :
      (a r : Option Bytes)
      → generate_access_token jwt service now username ≡ a
      → generate_refresh_token jwt service later username ≡ r
      → SignedFor (tokens_or_error a r)
  tokens-SignedFor none r ha hr = (refl, inl ha)
  tokens-SignedFor (some a) none ha hr = (refl, inr hr)
  tokens-SignedFor (some a) (some r) ha hr = (ha, hr)

  -- A login gets tokens signed for the name, or an internal error if one of them cannot be signed,
  -- if the store has a user of exactly that name and the first one has the password. Every other
  -- login gets one and the same error, whether the name is unknown, the password wrong, or the
  -- password that of another user.
  pub login-HasPassword :
      (libs : Libraries) (users : List User) (password : Bytes)
      → (HasPassword libs users username password
          × SignedFor (login jwt service libs users now later username password))
        ⊎ ((¬ HasPassword libs users username password)
            × (login jwt service libs users now later username password
                ≡ err (new_error unauthenticated invalid_credentials)))
  login-HasPassword libs users password =
      elim (login_cases jwt service libs users now later username password) [
        | inl (known, e) ↦ inl (
          (Knows-HasPassword libs users username password).0 known,
          subst SignedFor (sym e) (tokens-SignedFor _ _ refl refl),
        )
        | inr (unknown, e) ↦
            inr (λ has. unknown ((Knows-HasPassword libs users username password).1 has), e)
      ]
