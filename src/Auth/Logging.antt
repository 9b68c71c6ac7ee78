-- ===== src/Auth/Logging.antt =====
-- common/logging.go: the interceptor that logs each request. Where the server is put together, in
-- main.go, it stands outside the one of package auth.
use echolist_backend.Base.{ℕ, ◌-◌, Option, none, some, [], ◌∷◌, Bytes, bytes}
use echolist_backend.Base.Action.{Result, ok, err}
use echolist_backend.Common.Errors.{
  Code, invalid_argument, not_found, already_exists, internal, unauthenticated, canceled,
  deadline_exceeded, ConnectError,
}
use echolist_backend.Auth.Tokens.{TokenService, JwtLib}
use echolist_backend.Auth.Interceptor.{Call, UnaryFunc, auth_interceptor}

-- Code.String of the codes that the program uses.
abbrev pub code_name : Code → Bytes
code_name invalid_argument = bytes "invalid_argument"
code_name not_found = bytes "not_found"
code_name already_exists = bytes "already_exists"
code_name internal = bytes "internal"
code_name unauthenticated = bytes "unauthenticated"
code_name canceled = bytes "canceled"
code_name deadline_exceeded = bytes "deadline_exceeded"

-- codeOf. Every error of a modelled handler is a connect error.
unfoldable pub code_of : {A : Type 0} → Result ConnectError A → Bytes
code_of (ok a) = bytes "ok"
code_of (err e) = code_name e.code

pub data Level : Type 0 where
  level_info level_error : Level

pub record LogRecord : Type 0 where
  pub level : Level
  pub procedure : Bytes
  pub duration : ℕ
  pub code : Bytes
  pub user : Option Bytes

abbrev pub level_of : {A : Type 0} → Result ConnectError A → Level
level_of (ok a) = level_info
level_of (err e) = level_error

-- The attribute is left out for an empty name.
abbrev pub logged_user : Option Bytes → Option Bytes
logged_user none = none
logged_user (some []) = none
logged_user (some (c ∷ s)) = some (c ∷ s)

-- NewRequestLoggingInterceptor, from a start to an end: the answer of what it wraps, and its record.
unfoldable pub logging_interceptor :
    {A : Type 0}
    → (Option Bytes → Call → Result ConnectError A)
    → ℕ
    → ℕ
    → Option Bytes
    → Call
    → Result ConnectError A × LogRecord
unfolding code_of
logging_interceptor next start end ctx call =
    let answer = next ctx call in
    (
      answer,
      record {
        level = level_of answer;
        procedure = call.procedure;
        duration = end - start;
        code = code_of answer;
        user = logged_user ctx;
      },
    )

-- connect.WithInterceptors(loggingInterceptor, authInterceptor): the first one is the outer one.
unfoldable pub served :
    {A : Type 0}
    → JwtLib
    → TokenService
    → UnaryFunc A
    → ℕ
    → ℕ
    → Call
    → Result ConnectError A × LogRecord
unfolding logging_interceptor auth_interceptor
served jwt service next start end call =
    logging_interceptor (auth_interceptor jwt service start next) start end none call
