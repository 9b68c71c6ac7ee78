-- ===== src/Database/Folders/Renaming.antt =====
-- What RenameParentDir of database/folders.go does to the path of a row.
use echolist_backend.Base.{
  ℕ, suc, ◌+◌, ◌-◌, ◌≤◌, Bool, true, false, ◌&&◌, [], ◌∷◌, ◌++◌, if◌then◌else◌, Bytes, bytes,
  length, leb, ltb, ◌≡◌, refl, arith, length-append,
}
use Prim.Native.Nat.add
use mathlib.Core.List.{append_assoc}
use echolist_backend.Database.Sql.{drop_chars, substr, skip_continuation, skip_char}
use echolist_backend.Database.Folders.{rename_prefix}
use echolist_backend.Database.Folders.Prefix.{starts_with_fold, under_prefix-eq-starts_with_fold}

-- A byte 10xxxxxx, which SUBSTR counts with the byte in front of it.
abbrev is_continuation : ℕ → Bool
is_continuation y = leb 0x80 y && ltb y 0xc0

-- The characters of a text, as SUBSTR counts them. The flag is set behind a byte 11xxxxxx.
abbrev pub count_chars : Bool → Bytes → ℕ
count_chars inside [] = 0
count_chars inside (y ∷ ys) =
    let more = count_chars true ys in
    let next = count_chars (leb 0xc0 y) ys in if inside && is_continuation y then more else suc next

abbrev align : Bool → Bytes → Bytes
align true s = skip_continuation s
align false s = s

drop_chars-suc :
    (n k y : ℕ) (ys : Bytes) → drop_chars (suc n + k) (y ∷ ys) ≡ drop_chars (n + k) (skip_char y ys)
unfolding drop_chars
drop_chars-suc n k y ys = rw add.suc

drop_chars-zero : (k : ℕ) (s : Bytes) → drop_chars (0 + k) s ≡ drop_chars k s
drop_chars-zero k s = rw add.zero

drop_chars-append :
    (inside : Bool) (s rest : Bytes) (k : ℕ)
    → drop_chars (count_chars inside s + k) (align inside (s ++ (b'/' ∷ rest)))
      ≡ drop_chars k (b'/' ∷ rest)
drop_chars-append true [] rest k = drop_chars-zero k (b'/' ∷ rest)
drop_chars-append false [] rest k = drop_chars-zero k (b'/' ∷ rest)
drop_chars-append true (y ∷ ys) rest k = ground (
  arith,
  drop_chars-append true ys rest k,
  drop_chars-append false ys rest k,
  drop_chars-suc (count_chars true ys) k y (ys ++ (b'/' ∷ rest)),
  drop_chars-suc (count_chars false ys) k y (ys ++ (b'/' ∷ rest)),
)
drop_chars-append false (y ∷ ys) rest k = ground (
  arith,
  drop_chars-append true ys rest k,
  drop_chars-append false ys rest k,
  drop_chars-suc (count_chars true ys) k y (ys ++ (b'/' ∷ rest)),
  drop_chars-suc (count_chars false ys) k y (ys ++ (b'/' ∷ rest)),
)

count_chars-le : (inside : Bool) (s : Bytes) → count_chars inside s ≤ length s
count_chars-le inside [] = omega arith
count_chars-le inside (y ∷ ys) =
    ground (arith, count_chars-le true ys, count_chars-le (leb 0xc0 y) ys)

abbrev pub below : Bytes → Bytes → Bytes
below dir rest = (dir ++ bytes "/") ++ rest

starts_with_fold-below : (dir rest : Bytes) → starts_with_fold dir (dir ++ rest) ≡ true
starts_with_fold-below [] rest = refl
starts_with_fold-below (c ∷ dir) rest = ground (arith, starts_with_fold-below dir rest)

bytes_before :
    (old : Bytes)
    → length (old ++ bytes "/") + 1 - 1
      ≡ count_chars false old + suc (length old - count_chars false old)
bytes_before old = omega (arith, length-append old (bytes "/"), count_chars-le false old)

substr-below :
    (old rest : Bytes)
    → substr (below old rest) (length (old ++ bytes "/") + 1)
      ≡ drop_chars (length old - count_chars false old) rest
unfolding substr
substr-below old rest =
    let spare = length old - count_chars false old in
    rw (append_assoc, bytes_before old) (drop_chars-append false old rest (suc spare))

-- A row in a subfolder `rest` of the renamed folder moves to the new folder, but its subfolder
-- loses its first characters, one for each byte by which the old path is longer than its
-- characters.
pub rename_prefix-below :
    (old new rest : Bytes)
    → rename_prefix old new (below old rest)
      ≡ below new (drop_chars (length old - count_chars false old) rest)
unfolding rename_prefix
rename_prefix-below old new rest = rw (
  under_prefix-eq-starts_with_fold,
  starts_with_fold-below (old ++ bytes "/") rest,
  substr-below old rest,
)
