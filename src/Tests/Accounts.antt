-- ===== src/Tests/Accounts.antt =====
-- Runs of package auth, and its theorems at concrete inputs, with libraries that keep their laws.
use echolist_backend.Base.{
  ℕ, true, false, Option, none, some, [], ◌∷◌, ◌++◌, ltb, if◌then◌else◌, Bytes, bytes, str_eq, ◌≡◌,
  ◌⊎◌, ◌≢◌, contains, refl, arith, has_prefix,
}
use echolist_backend.Base.Action.{ok, err}
use echolist_backend.Auth.Tokens.{access, refresh, generate_access_token}
use echolist_backend.Common.Errors.{
  new_error, unauthenticated, invalid_credentials, invalid_token_type, token_expired,
  invalid_refresh_token,
}
use echolist_backend.Auth.Tokens.Lifetime.{expiry}
use echolist_backend.Auth.Logging.{level_info, served}
use echolist_backend.Auth.Interceptor.{is_public, UnaryFunc, auth_interceptor}
use echolist_backend.Auth.Interceptor.Admission.{Passes, auth_interceptor-Passes}
use echolist_backend.Auth.Interceptor.Header.{Refuses}
use echolist_backend.Auth.Server.{LoginResponse, access_or_error, login, refresh_token}
use echolist_backend.Auth.Server.Credentials.{HasPassword, SignedFor, login-HasPassword}
use echolist_backend.Auth.Server.Sessions.{bearer_call, login_session}
use echolist_backend.Auth.Users.{
  User, StoreFile, absent, holds, State, authenticate, load_or_initialize,
}
use echolist_backend.Auth.Users.Initial.{
  before, load_or_initialize-first, load_or_initialize-present,
}
use echolist_backend.Tests.PlainLibraries.{
  plain_jwt, plain_laws, sample_service, plain_libraries, plain_library_laws,
}

abbrev ann : Bytes
ann = bytes "ann"

abbrev nothing : Option StoreFile
nothing = none

abbrev started : State
started =
    before (record { username = ann; password_hash = 1 ∷ bytes "pw" } ∷ [])
      (holds (3 ∷ 97 ∷ 110 ∷ 110 ∷ 1 ∷ 112 ∷ 119 ∷ [])) true nothing

first_start :
    load_or_initialize plain_libraries
      (bytes "data/users.json")
      ann
      (bytes "pw")
      (before [] absent true nothing)
    ≡ (ok tt, started)
unfolding load_or_initialize str_eq
first_start = refl

load_or_initialize-first_example :
    (admin : User) × (started.users ≡ admin ∷ [])
    × (admin.username ≡ ann)
    × (authenticate plain_libraries started.users ann (bytes "pw") ≡ ok admin)
    × (load_or_initialize plain_libraries
          (bytes "data/users.json")
          (bytes "root")
          (bytes "other")
          (before [] started.disk.file false nothing)
        ≡ (ok tt, before (admin ∷ []) started.disk.file false nothing))
load_or_initialize-first_example =
    load_or_initialize-first plain_libraries plain_library_laws (bytes "data/users.json") ann
      (bytes "pw") [] true nothing started (bytes "root") (bytes "other") [] false nothing refl
      first_start

abbrev broken : State
broken =
    (load_or_initialize plain_libraries (bytes "users.json") ann (bytes "pw")
      (before started.users (holds []) true nothing)).1

holds-absent : holds [] ≢ absent
holds-absent h = ground arith

load_or_initialize-present_example :
    (broken.disk ≡ (before started.users (holds []) true nothing).disk)
    × ((broken.users ≡ started.users)
        ⊎ ((text : Bytes) × (holds [] ≡ holds text)
            × (plain_libraries.unmarshal text ≡ some broken.users)))
load_or_initialize-present_example =
    load_or_initialize-present plain_libraries (bytes "users.json") ann (bytes "pw") started.users
      (holds []) true nothing holds-absent

-- The second 1700000000, and a minute later.
abbrev noon : ℕ
noon = 1700000000000000000

abbrev later : ℕ
later = 1700000060000000000

abbrev session : LoginResponse
session = record {
  access_token = 1700000900 ∷ 1700000000 ∷ 3 ∷ (ann ++ access);
  refresh_token = 1700604800 ∷ 1700000000 ∷ 3 ∷ (ann ++ refresh);
}

logged_in :
    login plain_jwt sample_service plain_libraries started.users noon noon ann (bytes "pw")
    ≡ ok session
unfolding login str_eq
logged_in = refl

login-HasPassword_example :
    (HasPassword plain_libraries started.users ann (bytes "pw")
      × SignedFor plain_jwt sample_service noon noon ann
          (login plain_jwt sample_service plain_libraries started.users noon noon ann (bytes "pw")))
    ⊎ ((¬ HasPassword plain_libraries started.users ann (bytes "pw"))
        × (login plain_jwt sample_service plain_libraries started.users noon noon ann (bytes "pw")
            ≡ err (new_error unauthenticated invalid_credentials)))
login-HasPassword_example =
    login-HasPassword plain_jwt sample_service noon noon ann plain_libraries started.users
      (bytes "pw")

abbrev whoami : UnaryFunc Bytes
whoami none = ok []
whoami (some user) = ok user

abbrev get_note_procedure : Bytes
get_note_procedure = bytes "/notes.v1.NoteService/GetNote"

get_note-private : is_public get_note_procedure ≡ false
unfolding is_public contains str_eq
get_note-private = refl

login_session_example :
    (auth_interceptor plain_jwt sample_service later whoami none
        (bearer_call get_note_procedure session.access_token)
      ≡ (if ltb later (expiry noon sample_service.access_token_ttl)
          then whoami (some ann)
          else err (new_error unauthenticated token_expired)))
    × (auth_interceptor plain_jwt sample_service later whoami none
          (bearer_call get_note_procedure session.refresh_token)
        ≡ err (
            new_error unauthenticated (
              if ltb later (expiry noon sample_service.refresh_token_ttl)
              then invalid_token_type
              else token_expired)))
    × (refresh_token plain_jwt sample_service later later session.refresh_token ≡ (
        if ltb later (expiry noon sample_service.refresh_token_ttl)
        then access_or_error (generate_access_token plain_jwt sample_service later ann)
        else err (new_error unauthenticated invalid_refresh_token)))
    × (refresh_token plain_jwt sample_service later later session.access_token
        ≡ err (new_error unauthenticated invalid_refresh_token))
login_session_example =
    login_session plain_jwt plain_laws sample_service plain_libraries started.users noon noon ann
      (bytes "pw") session later later whoami none get_note_procedure refl logged_in
      get_note-private

auth_interceptor-Passes_example :
    ((user : Option Bytes) × Passes plain_jwt sample_service later none
        (bearer_call get_note_procedure session.access_token)
        user
      × (auth_interceptor plain_jwt sample_service later whoami none
            (bearer_call get_note_procedure session.access_token)
          ≡ whoami user))
    ⊎ ((¬ (
          (user : Option Bytes) × Passes plain_jwt sample_service later none
            (bearer_call get_note_procedure session.access_token)
            user))
        × Refuses (
            auth_interceptor plain_jwt sample_service later whoami none
              (bearer_call get_note_procedure session.access_token)))
auth_interceptor-Passes_example =
    auth_interceptor-Passes plain_jwt sample_service later whoami none
      (bearer_call get_note_procedure session.access_token)

-- The handler sees the user, but the log does not.
logged_without_user :
    served plain_jwt sample_service whoami later later
      (bearer_call get_note_procedure session.access_token)
    ≡ (
      ok ann,
      record {
        level = level_info;
        procedure = get_note_procedure;
        duration = 0;
        code = bytes "ok";
        user = none;
      },
    )
unfolding served contains has_prefix str_eq
logged_without_user = refl
