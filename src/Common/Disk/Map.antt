-- ===== src/Common/Disk/Map.antt =====
-- The disk as a partial map from paths to files and directories.
use echolist_backend.Base.{
  none, some, [], ◌∷◌, if◌then◌else◌, Bytes, str_eq, str_eq_iff, ◌≡◌, arith,
}
use echolist_backend.Common.Disk.{Node, Disk, look, put, drop_at}

pub look-drop_at :
    (p q : Bytes) (d : Disk) → look (drop_at p d) q ≡ (if str_eq p q then none else look d q)
unfolding look drop_at
look-drop_at p q [] = ground arith
look-drop_at p q (e ∷ d) =
    ground (arith, look-drop_at p q d, str_eq_iff e.0 p, str_eq_iff e.0 q, str_eq_iff p q)

pub look-put :
    (p q : Bytes) (n : Node) (d : Disk)
    → look (put p n d) q ≡ (if str_eq p q then some n else look d q)
unfolding put look
look-put p q n d = ground (arith, look-drop_at p q d)
