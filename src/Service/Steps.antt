-- ===== src/Service/Steps.antt =====
-- What a handler that succeeded has got from each of its calls.
use echolist_backend.Base.{some, Bytes, ◌≡◌, refl, arith}
use echolist_backend.Base.Action.{Result, ok, err, ◌>>=◌}
use echolist_backend.Common.Errors.{Message}
use echolist_backend.Common.Disk.{Fs, IoError, exist, no_entry, other}
use echolist_backend.Database.Conn.{Conn, DbError, fault}
use echolist_backend.Database.Types.{NoteRow}
use echolist_backend.Database.Answers.{found_or, ok_or}
use echolist_backend.Database.Notes
use echolist_backend.Database.Notes.Laws.{note_at}
use echolist_backend.Service.{World, Handler, done_or, there_or}

-- The call has given a value, and the rest has gone on from what it left.
abbrev pub GoneOn :
    {X S A B : Type 0} → Result X A × S → (A → Handler B) → (S → World) → B → World → Type 0
GoneOn p f put b w' = (a : _) × (p ≡ (ok a, p.1)) × (f a (put p.1) ≡ (ok b, w'))

module _ {A B : Type 0} where
  pub done-ok :
      (m : Message) (p : Result IoError A × Fs) (f : A → Handler B) (w w' : World) (b : B)
      → (done_or m p.0 >>= f) (record w { fs = p.1 }) ≡ (ok b, w')
      → GoneOn p f (λ s. record w { fs = s }) b w'
  done-ok m (ok a, s) f w w' b h = (a, refl, h)
  done-ok m (err e, s) f w w' b h = ground arith

  pub there-ok :
      (a m : Message) (p : Result IoError A × Fs) (f : A → Handler B) (w w' : World) (b : B)
      → (there_or a m p.0 >>= f) (record w { fs = p.1 }) ≡ (ok b, w')
      → GoneOn p f (λ s. record w { fs = s }) b w'
  there-ok a m (ok x, s) f w w' b h = (x, refl, h)
  there-ok a m (err exist, s) f w w' b h = ground arith
  there-ok a m (err no_entry, s) f w w' b h = ground arith
  there-ok a m (err other, s) f w w' b h = ground arith

  pub found-ok :
      (a m : Message) (p : Result DbError A × Conn) (f : A → Handler B) (w w' : World) (b : B)
      → (found_or a m p.0 >>= f) (record w { conn = p.1 }) ≡ (ok b, w')
      → GoneOn p f (λ c. record w { conn = c }) b w'
  found-ok a m (ok x, c) f w w' b h = (x, refl, h)
  found-ok a m (err DbError.not_found, c) f w w' b h = ground arith
  found-ok a m (err DbError.constraint, c) f w w' b h = ground arith
  found-ok a m (err (fault e), c) f w w' b h = ground arith

  pub got-ok :
      (m : Message) (p : Result DbError A × Conn) (f : A → Handler B) (w w' : World) (b : B)
      → (ok_or m p.0 >>= f) (record w { conn = p.1 }) ≡ (ok b, w')
      → GoneOn p f (λ c. record w { conn = c }) b w'
  got-ok m (ok x, c) f w w' b h = (x, refl, h)
  got-ok m (err e, c) f w w' b h = ground arith

-- GetNote of the database returns the row, and changes no table.
pub get_note-row :
    (id : Bytes) (row : NoteRow) (c c' : Conn)
    → Notes.get_note id c ≡ (ok row, c')
    → (note_at id c.tables ≡ some row) × (c'.tables ≡ c.tables)
unfolding Notes.get_note
get_note-row id row c c' h = ground arith
