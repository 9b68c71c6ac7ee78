-- ===== src/Database/Folders/Prefix.antt =====
-- Which folders the LIKE pattern of database/folders.go reaches.
use echolist_backend.Base.{
  Bool, true, false, ◌&&◌, [], ◌∷◌, ◌++◌, map, Bytes, bytes, ◌≡◌, refl, ap, arith,
}
use mathlib.Core.List.{map-append}
use echolist_backend.Database.Sql.{fold_case, same_char, like, some_suffix}
use echolist_backend.Database.Folders.{escape_like, under_prefix, in_deleted_dir}

-- Does `s` begin with `prefix`, but for the case of ASCII letters?
abbrev pub starts_with_fold : Bytes → Bytes → Bool
starts_with_fold [] s = true
starts_with_fold (c ∷ prefix) [] = false
starts_with_fold (c ∷ prefix) (y ∷ s) = same_char c y && starts_with_fold prefix s

some_suffix-nil : (t : Bytes) → some_suffix (like false []) t ≡ true
unfolding like
some_suffix-nil [] = refl
some_suffix-nil (y ∷ ys) = some_suffix-nil ys

like-percent : (t : Bytes) → like false (b'%' ∷ []) t ≡ true
unfolding like
like-percent t = some_suffix-nil t

like-escape_like :
    (s t : Bytes) → like false (escape_like s ++ (b'%' ∷ [])) t ≡ starts_with_fold s t
unfolding like escape_like
like-escape_like [] t = like-percent t
like-escape_like (c ∷ s) [] = ground arith
like-escape_like (c ∷ s) (y ∷ ys) = ground (arith, like-escape_like s ys)

-- The pattern that escapeLike builds matches exactly the texts that begin with the prefix, but
-- for the case of ASCII letters: no character of a prefix acts as a wildcard.
pub under_prefix-eq-starts_with_fold :
    (prefix dir : Bytes) → under_prefix prefix dir ≡ starts_with_fold prefix dir
unfolding under_prefix
under_prefix-eq-starts_with_fold prefix dir = like-escape_like prefix dir

pub starts_with_fold-append :
    (p q rest : Bytes) → map fold_case p ≡ map fold_case q → starts_with_fold p (q ++ rest) ≡ true
starts_with_fold-append [] q rest e = refl
starts_with_fold-append (x ∷ p) [] rest e = cc
starts_with_fold-append (x ∷ p) (y ∷ q) rest e = ground (arith, starts_with_fold-append p q rest)

-- Deleting a folder also deletes what lies below any folder whose path differs from its own only
-- in the case of ASCII letters, whatever the file system takes those two paths for.
pub in_deleted_dir-ignores_case :
    (dir_path other rest : Bytes)
    → map fold_case dir_path ≡ map fold_case other
    → in_deleted_dir dir_path ((other ++ bytes "/") ++ rest) ≡ true
unfolding in_deleted_dir
in_deleted_dir-ignores_case dir_path other rest e =
    rw
      (
        under_prefix-eq-starts_with_fold,
        starts_with_fold-append (dir_path ++ bytes "/") (other ++ bytes "/") rest
            (simp map-append (ap (λ (l : Bytes). l ++ bytes "/") e)),
      )
      (ground arith)
