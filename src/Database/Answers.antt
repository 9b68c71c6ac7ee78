-- ===== src/Database/Answers.antt =====
-- How the services answer to an error of package database.
use echolist_backend.Base.Action.{Result, ok, err, Action, pure, fail}
use echolist_backend.Common.Errors.{Message, ConnectError, new_error, not_found, internal}
use echolist_backend.Database.Conn.{DbError, fault}

-- NotFound for ErrNotFound, Internal for any other error of the database.
abbrev pub found_or :
    {S A : Type 0} → Message → Message → Result DbError A → Action S ConnectError A
found_or absent failed (ok a) = pure a
found_or absent failed (err DbError.not_found) = fail (new_error not_found absent)
found_or absent failed (err DbError.constraint) = fail (new_error internal failed)
found_or absent failed (err (fault f)) = fail (new_error internal failed)

-- Internal for any error of the database.
abbrev pub ok_or : {S A : Type 0} → Message → Result DbError A → Action S ConnectError A
ok_or failed (ok a) = pure a
ok_or failed (err e) = fail (new_error internal failed)
