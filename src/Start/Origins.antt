-- ===== src/Start/Origins.antt =====
-- Which browser origins corsMiddleware of main.go admits.
use echolist_backend.Base.{
  Bool, true, false, not, ◌&&◌, Option, none, some, List, [], ◌∷◌, any, if◌then◌else◌, Bytes, bytes,
  str_eq, str_eq_iff, contains, ◌≡◌, refl, ap, ◌∙◌, arith,
}
use echolist_backend.Start.{Request, Response, trim_space, allowed, cors_headers, cors_middleware}

-- An origin is among the configured ones, but for the spaces around those.
abbrev pub configured : List Bytes → Bytes → Bool
configured origins o = any (λ x. str_eq (trim_space x) o) origins && not (str_eq o [])

contains-allowed :
    (origins : List Bytes) (o : Bytes) → contains (allowed origins) o ≡ configured origins o
unfolding allowed contains
contains-allowed [] o = refl
contains-allowed (x ∷ xs) o = ground (
  arith,
  contains-allowed xs o,
  str_eq_iff (trim_space x) [],
  str_eq_iff (trim_space x) o,
  str_eq_iff o [],
)

-- The value of the header that lets a page of another origin read the response.
abbrev pub granted : List (Bytes × Bytes) → Option Bytes
granted [] = none
granted (h ∷ hs) =
    let rest = granted hs in
    if str_eq h.0 (bytes "Access-Control-Allow-Origin") then some h.1 else rest

answered :
    (b p : Bool) (next : List (Bytes × Bytes) → Request → Response) (r : Request)
    → ((hs : List (Bytes × Bytes)) (q : Request) → (next hs q).headers ≡ hs)
    → granted
        (if not b
          then next [] r
          else if p
          then record { status = 204; headers = cors_headers r.origin; body = [] }
          else next (cors_headers r.origin) r).headers
      ≡ (if b then some r.origin else none)
unfolding str_eq
answered false p next r h = ap granted (h [] r)
answered true true next r h = refl
answered true false next r h = ap granted (h (cors_headers r.origin) r)

-- Behind handlers that leave the headers alone, a response grants access to an origin exactly if
-- it is the origin of the request, not empty, and one of the configured ones but for the spaces
-- around those; a request without such an origin is answered without the grant.
pub cors_middleware_lem :
    (origins : List Bytes) (next : List (Bytes × Bytes) → Request → Response) (r : Request)
    → ((hs : List (Bytes × Bytes)) (q : Request) → (next hs q).headers ≡ hs)
    → granted (cors_middleware origins next r).headers
      ≡ (if configured origins r.origin then some r.origin else none)
unfolding cors_middleware
cors_middleware_lem origins next r h =
    answered (contains (allowed origins) r.origin) (str_eq r.method (bytes "OPTIONS")) next r h
    ∙ ap (λ b. if b then some r.origin else none) (contains-allowed origins r.origin)
