-- ===== src/Common/Uuid.antt =====
-- common/uuid.go
use echolist_backend.Base.{
  ℕ, zero, suc, Bool, true, false, ◌&&◌, ◌||◌, List, [], ◌∷◌, leb, ◌==◌, if◌then◌else◌, Bytes,
}
use echolist_backend.Base.Action.{ok, err}
use echolist_backend.Common.Errors.{invalid_argument, invalid_uuid, new_error, Check}

-- [0-9a-f]
abbrev pub is_hex : ℕ → Bool
is_hex c = leb b'0' c && leb c b'9' || leb b'a' c && leb c b'f'

-- [89ab]
abbrev pub is_variant : ℕ → Bool
is_variant c = c == b'8' || c == b'9' || c == b'a' || c == b'b'

abbrev pub is_byte : ℕ → ℕ → Bool
is_byte b c = c == b

-- `n` times the same class, then a pattern.
abbrev pub repeated : ℕ → (ℕ → Bool) → List (ℕ → Bool) → List (ℕ → Bool)
repeated zero p rest = rest
repeated (suc n) p rest = p ∷ repeated n p rest

-- ^[0-9a-f]{8}-[0-9a-f]{4}-4[0-9a-f]{3}-[89ab][0-9a-f]{3}-[0-9a-f]{12}$
abbrev pub uuid_v4_re : List (ℕ → Bool)
uuid_v4_re = repeated 8 is_hex (
    is_byte b'-'
    ∷ repeated 4 is_hex (
        is_byte b'-'
        ∷ is_byte b'4'
        ∷ repeated 3 is_hex
            (is_byte b'-' ∷ is_variant ∷ repeated 3 is_hex (is_byte b'-' ∷ repeated 12 is_hex []))))

-- A text against one class for each of its bytes.
unfoldable pub match_classes : List (ℕ → Bool) → Bytes → Bool
match_classes [] [] = true
match_classes [] (c ∷ s) = false
match_classes (p ∷ ps) [] = false
match_classes (p ∷ ps) (c ∷ s) = p c && match_classes ps s

unfoldable pub validate_uuid_v4 : Bytes → Check
unfolding match_classes
validate_uuid_v4 id =
    if match_classes uuid_v4_re id then ok tt else err (new_error invalid_argument invalid_uuid)
