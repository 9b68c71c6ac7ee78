-- ===== src/Tests/PlainLibraries.antt =====
-- Libraries for package auth that keep their laws: tokens, hashes and files that hide nothing.
use echolist_backend.Base.{
  ℕ, ◌*◌, ◌<◌, ◌≤◌, true, Option, none, some, List, [], ◌∷◌, ◌++◌, take, drop, length, ltb,
  if◌then◌else◌, Bytes, bytes, str_eq, str_eq_refl, ◌≡◌, refl, ap, ◌∙◌, arith,
}
use echolist_backend.Base.Action.{Result, ok, err}
use echolist_backend.Auth.Tokens.{
  TokenClaims, TokenService, hmac, Token, TokenError, expired, invalid, JwtLib,
}
use echolist_backend.Auth.Tokens.Lifetime.{JwtLaws}
use echolist_backend.Auth.Users.{User, Libraries}
use echolist_backend.Auth.Users.Initial.{LibraryLaws}

take-append : (p s : Bytes) → take (length p) (p ++ s) ≡ p
take-append [] s = refl
take-append (c ∷ p) s = ap (λ t. c ∷ t) (take-append p s)

drop-append : (p s : Bytes) → drop (length p) (p ++ s) ≡ s
drop-append [] s = refl
drop-append (c ∷ p) s = drop-append p s

-- A token that shows its dates, the length of the username, the username and the type.
abbrev pub plain : TokenClaims → Option ℕ → Option ℕ → Option Bytes
plain c (some e) (some i) = some (e ∷ i ∷ length c.username ∷ (c.username ++ c.token_type))
plain c none i = none
plain c (some e) none = none

abbrev pub shown : Bytes → ℕ → ℕ → ℕ → Bytes → TokenClaims
shown key e i n rest = record {
  username = take n rest;
  token_type = drop n rest;
  subject = take n rest;
  issued_at = some i;
  expires_at = some e;
}

abbrev pub parse_plain : Option Bytes → ℕ → Bytes → Result TokenError Token
parse_plain (some key) now (e ∷ i ∷ n ∷ rest) =
    if ltb now (e * 1000000000)
    then ok (record { claims = shown key e i n rest; valid = true })
    else err expired
parse_plain _ _ _ = err invalid

abbrev pub plain_jwt : JwtLib
plain_jwt = record {
  signed_string =
      λ c key. if str_eq c.subject c.username then plain c c.expires_at c.issued_at else none;
  method = λ text. hmac;
  parse_with_claims = λ keys now text. parse_plain (keys hmac) now text;
}

pub plain-fresh :
    (claims : TokenClaims) (key text : Bytes) (issued : Option ℕ) (exp now : ℕ)
    → claims.subject ≡ claims.username
    → claims.expires_at ≡ some exp
    → claims.issued_at ≡ issued
    → plain claims (some exp) issued ≡ some text
    → now < exp * 1000000000
    → parse_plain (some key) now text ≡ ok (record { claims = claims; valid = true })
plain-fresh claims key text none exp now hs he hi signed early = ground arith
plain-fresh claims key text (some i) exp now hs he hi signed early = ground (
  arith,
  take-append claims.username claims.token_type,
  drop-append claims.username claims.token_type,
)

pub plain-signed :
    (claims : TokenClaims) (key text : Bytes) (exp : ℕ)
    → claims.expires_at ≡ some exp
    → plain_jwt.signed_string claims key ≡ some text
    → plain claims (some exp) claims.issued_at ≡ some text
plain-signed claims key text exp he signed =
    ground (arith, ap (λ o. plain claims o claims.issued_at) he)

pub plain-stale :
    (claims : TokenClaims) (key text : Bytes) (issued : Option ℕ) (exp now : ℕ)
    → plain claims (some exp) issued ≡ some text
    → exp * 1000000000 ≤ now
    → parse_plain (some key) now text ≡ err expired
plain-stale claims key text none exp now signed late = ground arith
plain-stale claims key text (some i) exp now signed late = ground arith

abbrev pub plain_laws : JwtLaws plain_jwt
plain_laws = record {
  is_text = λ s. true;
  access_is_text = refl;
  refresh_is_text = refl;
  fresh = λ claims key text keys exp now hu ht hs he signed hk early.
      ap (λ k. parse_plain k now text) hk
      ∙ plain-fresh claims key text claims.issued_at exp now hs he refl
          (plain-signed claims key text exp he signed) early;
  stale = λ claims key text keys exp now he signed hk late.
      ap (λ k. parse_plain k now text) hk
      ∙ plain-stale claims key text claims.issued_at exp now
          (plain-signed claims key text exp he signed) late;
  keyless = λ keys now text hk. ap (λ k. parse_plain k now text) hk;
}

abbrev pub sample_service : TokenService
sample_service = record {
  secret = bytes "0123456789abcdef0123456789abcdef";
  access_token_ttl = 900000000000;
  refresh_token_ttl = 604800000000000;
}

-- A hash is the password with one byte before it, the store's text is made of the two strings of its
-- only user.
abbrev pub plain_users : List User → Option Bytes
plain_users (u ∷ []) = some (length u.username ∷ (u.username ++ u.password_hash))
plain_users _ = none

abbrev pub read_users : Bytes → Option (List User)
read_users (n ∷ s) = some (record { username = take n s; password_hash = drop n s } ∷ [])
read_users [] = none

abbrev pub plain_libraries : Libraries
plain_libraries = record {
  generate_from_password = λ p. some (1 ∷ p);
  compare_hash_and_password = λ h p. str_eq h (1 ∷ p);
  marshal_indent = plain_users;
  unmarshal = read_users;
}

pub read_users-plain_users :
    (users : List User) (text : Bytes)
    → plain_users users ≡ some text
    → read_users text ≡ some users
read_users-plain_users [] text h = ground arith
read_users-plain_users (u ∷ []) text h =
    ground (arith, take-append u.username u.password_hash, drop-append u.username u.password_hash)
read_users-plain_users (u ∷ v ∷ users) text h = ground arith

abbrev pub plain_library_laws : LibraryLaws plain_libraries
plain_library_laws = record {
  is_text = λ s. true;
  hash_is_text = λ password hash h. refl;
  compare-generate = λ password hash h. ground (arith, str_eq_refl hash);
  unmarshal-marshal = λ users text texts h. read_users-plain_users users text h;
}
