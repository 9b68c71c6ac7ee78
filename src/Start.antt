-- ===== src/Start.antt =====
-- main.go: the settings, the rule for browser origins and the probe of readiness. Listening,
-- signals and the wiring of the handlers are left out.
pub mod Probes
pub mod Origins
use echolist_backend.Base.{
  ℕ, zero, suc, ◌+◌, ◌-◌, ◌*◌, ◌%◌, ◌^◌, Bool, true, false, not, ◌&&◌, ◌||◌, Option, none, some,
  List, [], ◌∷◌, map, any, length, ltb, leb, ◌==◌, if◌then◌else◌, Bytes, bytes, str_eq, contains,
}
use echolist_backend.Base.Action.{Result, ok, err}
use echolist_backend.Common.Disk.{IoError, create_temp, flush, remove, stat, Fs}
use echolist_backend.Database.Conn.{DbError}
use echolist_backend.Database.Schema.{health_check}
use echolist_backend.Auth.Users.{User, has_users}
use echolist_backend.Service.{World}

-- os.Getenv: the empty text for a variable that is not set.
abbrev pub Env : Type 0
Env = Bytes → Bytes

unfoldable pub env_or_default : Env → Bytes → Bytes → Bytes
env_or_default env key default_val = let v = env key in if str_eq v [] then default_val else v

-- An int64: `pos n`, or `negsuc n` for -(n + 1).
pub data ℤ : Type 0 where
  pos negsuc : ℕ → ℤ

-- The digits of a number behind what is read so far; `none` for another character, or no digit.
abbrev pub digits_behind : ℕ → Bytes → Option ℕ
digits_behind n [] = some n
digits_behind n (c ∷ s) =
    let rest = digits_behind (n * 10 + (c - 48)) s in
    if leb b'0' c && leb c b'9' then rest else none

abbrev pub digits : Bytes → Option ℕ
digits [] = none
digits (c ∷ s) = digits_behind 0 (c ∷ s)

abbrev pub positive : Option ℕ → Option ℤ
positive none = none
positive (some n) = if ltb n (2 ^ 63) then some (pos n) else none

abbrev pub negative : Option ℕ → Option ℤ
negative none = none
negative (some zero) = some (pos 0)
negative (some (suc n)) = if ltb n (2 ^ 63) then some (negsuc n) else none

-- strconv.Atoi and strconv.ParseInt(raw, 10, 64); `none` is an error.
unfoldable pub parse_int : Bytes → Option ℤ
parse_int [] = none
parse_int (c ∷ s) =
    if c == b'-'
    then negative (digits s)
    else if c == b'+'
    then positive (digits s)
    else positive (digits (c ∷ s))

-- An int64 as its residue modulo 2^64, in which Go multiplies.
abbrev pub residue : ℤ → ℕ
residue (pos n) = n % 2 ^ 64
residue (negsuc n) = 2 ^ 64 - 1 - n % 2 ^ 64

-- time.Minute, in nanoseconds
abbrev pub minute : ℕ
minute = 60000000000

-- parseDurationMinutesEnv: the residue of a time.Duration; `none` where the program exits.
unfoldable pub parse_duration_minutes_env : Env → Bytes → ℕ → Option ℕ
unfolding parse_int
parse_duration_minutes_env env key default_minutes =
    let raw = env key in
    if str_eq raw []
    then some (default_minutes * minute % 2 ^ 64)
    else elim (parse_int raw) [ none ↦ none | some z ↦ some (residue z * minute % 2 ^ 64) ]

pub data SecretError : Type 0 where
  secret_required secret_too_short : SecretError

unfoldable pub validate_jwt_secret : Bytes → Result SecretError (Unit {0})
validate_jwt_secret secret =
    if str_eq secret []
    then err secret_required
    else if ltb (length secret) 32
    then err secret_too_short
    else ok tt

-- MAX_REQUEST_BODY_BYTES
unfoldable pub max_body_bytes : Env → Option ℤ
unfolding parse_int
max_body_bytes env =
    let raw = env (bytes "MAX_REQUEST_BODY_BYTES") in
    if str_eq raw [] then some (pos 4194304) else parse_int raw

-- What corsMiddleware and the probe see of a request, and a response.
pub record Request : Type 0 where
  pub method : Bytes
  pub origin : Bytes

pub record Response : Type 0 where
  pub status : ℕ
  pub headers : List (Bytes × Bytes)
  pub body : List Bytes

abbrev pub cons_first : ℕ → List Bytes → List Bytes
cons_first c [] = (c ∷ []) ∷ []
cons_first c (s ∷ ss) = (c ∷ s) ∷ ss

-- strings.Split at a comma
unfoldable pub split_commas : Bytes → List Bytes
split_commas [] = [] ∷ []
split_commas (c ∷ s) =
    let rest = split_commas s in if c == b',' then [] ∷ rest else cons_first c rest

-- strings.TrimSpace. The spaces beyond ASCII, which no origin has, stay.
abbrev pub is_space : ℕ → Bool
is_space c = c == 32 || leb 9 c && leb c 13

unfoldable pub trim_end : Bytes → Bytes
trim_end [] = []
trim_end (c ∷ s) = let rest = trim_end s in if is_space c && str_eq rest [] then [] else c ∷ rest

unfoldable pub trim_space : Bytes → Bytes
unfolding trim_end
trim_space [] = []
trim_space (c ∷ s) = let rest = trim_space s in if is_space c then rest else trim_end (c ∷ s)

-- The set of corsMiddleware.
unfoldable pub allowed : List Bytes → List Bytes
unfolding trim_space
allowed [] = []
allowed (o ∷ os) =
    let rest = allowed os in if str_eq (trim_space o) [] then rest else trim_space o ∷ rest

abbrev pub cors_headers : Bytes → List (Bytes × Bytes)
cors_headers origin =
    (bytes "Access-Control-Allow-Origin", origin)
    ∷ (bytes "Access-Control-Allow-Methods", bytes "POST, OPTIONS")
    ∷ (
      bytes "Access-Control-Allow-Headers",
      bytes
          "Accept, Authorization, Connect-Protocol-Version, Connect-Timeout-Ms, Content-Type, Grpc-Timeout, X-Grpc-Web, X-User-Agent",
    )
    ∷ (
      bytes "Access-Control-Expose-Headers",
      bytes "Connect-Protocol-Version, Grpc-Message, Grpc-Status, Grpc-Status-Details-Bin",
    )
    ∷ (bytes "Vary", bytes "Origin")
    ∷ []

-- corsMiddleware; `next` answers behind the headers that are set so far.
unfoldable pub cors_middleware :
    List Bytes → (List (Bytes × Bytes) → Request → Response) → Request → Response
unfolding allowed contains
cors_middleware origins next r =
    if not (contains (allowed origins) r.origin)
    then next [] r
    else if str_eq r.method (bytes "OPTIONS")
    then record { status = 204; headers = cors_headers r.origin; body = [] }
    else next (cors_headers r.origin) r

-- A check that failed, without the text of its error.
pub data Check : Type 0 where
  db_failed data_dir_failed write_failed no_users : Check

abbrev pub failed_check : {E A : Type 0} → Check → Result E A → List Check → List Check
failed_check c (ok a) rest = rest
failed_check c (err e) rest = c ∷ rest

-- The probe file is closed and removed again.
abbrev pub probed : Result IoError Bytes → Fs → List Check × Fs
probed (ok name) s = ([], (remove name (flush s).1).1)
probed (err e) s = (write_failed ∷ [], s)

-- The probe runs only if nothing failed before.
abbrev pub probe_write : Bytes → List Check → Fs → List Check × Fs
probe_write dir [] s = let (r, s') = create_temp dir (bytes ".healthz_probe_") s in probed r s'
probe_write dir (c ∷ cs) s = (c ∷ cs, s)

abbrev pub with_users : List User → List Check → List Check
with_users users [] = if has_users users then [] else no_users ∷ []
with_users users (c ∷ cs) = c ∷ with_users users cs

abbrev pub status_of : List Check → ℕ
status_of [] = 200
status_of (c ∷ cs) = 503

-- healthzHandler: its status and the checks that failed.
unfoldable pub healthz : Bytes → List User → World → (ℕ × List Check) × World
unfolding health_check stat create_temp flush remove
healthz dir users w =
    let (h, c) = health_check w.conn in
    let (s, fs) = stat dir w.fs in
    let (checks, fs') =
      probe_write dir (failed_check db_failed h (failed_check data_dir_failed s [])) fs in
    let all = with_users users checks in ((status_of all, all), record w { conn = c; fs = fs' })
