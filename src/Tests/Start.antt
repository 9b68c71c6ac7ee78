-- ===== src/Tests/Start.antt =====
-- Runs of main.go's settings, origins and probe and of opening the database, and their theorems
-- at such runs.
use echolist_backend.Base.{
  List, false, none, some, [], ◌∷◌, ◌&&◌, drop, length, if◌then◌else◌, Bytes, bytes, str_eq, ◌≡◌,
  refl,
}
use echolist_backend.Base.Action.{err}
use echolist_backend.Base.Triples.{Ends}
use echolist_backend.Common.Disk.{folder, look, stat, create_temp}
use echolist_backend.Database.Conn.{Fault}
use echolist_backend.Database.Schema.{Opening, migrations, new_database, health_check}
use echolist_backend.Database.Schema.Versions.{Had, Reached, PragmasSet, latest, new_database_lem}
use echolist_backend.Auth.Users.{has_users}
use echolist_backend.Start.{
  Request, Response, parse_duration_minutes_env, validate_jwt_secret, secret_too_short,
  cors_middleware, healthz, split_commas,
}
use echolist_backend.Start.Origins.{configured, granted, cors_middleware_lem}
use echolist_backend.Start.Probes.{is_ok, ready_if, healthz_lem}
use echolist_backend.Tests.Lists.{data_dir}
use echolist_backend.Tests.Notes.{world}

-- A new file, on which the third statement of the migration fails.
abbrev fresh : Opening
fresh = record {
  schema = none;
  user_version = 0;
  is_wal = false;
  foreign_keys = false;
  faults = none ∷ none ∷ none ∷ none ∷ none ∷ some Fault.engine ∷ [];
}

half_migrated : (new_database fresh).1.schema ≡ none
unfolding new_database
half_migrated = refl

new_database_lem_example :
    Ends
      (λ _ s'.
        Had fresh (drop fresh.user_version migrations) s'
        × PragmasSet s'
        × (s'.user_version ≡ latest fresh.user_version (length migrations)))
      (λ _ s'. Reached (drop fresh.user_version migrations) fresh s')
      (new_database fresh)
new_database_lem_example = new_database_lem fresh

-- Fifteen minutes, and a number of minutes that overflows to a negative duration.
quarter : parse_duration_minutes_env (λ key. bytes "15") [] 0 ≡ some 900000000000
unfolding parse_duration_minutes_env str_eq
quarter = refl

overflows : parse_duration_minutes_env (λ key. bytes "200000000") [] 0 ≡ some 12000000000000000000
unfolding parse_duration_minutes_env str_eq
overflows = refl

short_secret : validate_jwt_secret (bytes "secret") ≡ err secret_too_short
unfolding validate_jwt_secret str_eq
short_secret = refl

abbrev origins : Bytes
origins = bytes "https://a.example, https://b.example"

abbrev preflight : Request
preflight = record { method = bytes "OPTIONS"; origin = bytes "https://b.example" }

-- A handler that answers 200.
abbrev plain_next : List (Bytes × Bytes) → Request → Response
plain_next hs q = record { status = 200; headers = hs; body = [] }

cors_middleware_lem_example :
    granted (cors_middleware (split_commas origins) plain_next preflight).headers
    ≡ (if configured (split_commas origins) preflight.origin then some preflight.origin else none)
cors_middleware_lem_example =
    cors_middleware_lem (split_commas origins) plain_next preflight (λ hs q. refl)

data_dir_there : look world.fs.disk data_dir ≡ some folder
unfolding look str_eq
data_dir_there = refl

healthz_lem_example :
    ((healthz data_dir [] world).0.0
      ≡ ready_if (
          is_ok (health_check world.conn).0
          && (is_ok (stat data_dir world.fs).0
              && (has_users []
                  && is_ok
                      (create_temp data_dir
                        (bytes ".healthz_probe_")
                        (stat data_dir world.fs).1).0))))
    × (look (healthz data_dir [] world).1.fs.disk data_dir ≡ some folder)
    × ((healthz data_dir [] world).1.conn.tables ≡ world.conn.tables)
healthz_lem_example = healthz_lem data_dir [] data_dir folder world data_dir_there
