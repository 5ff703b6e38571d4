-- ===== src/Http/Lines.antt =====
-- The lines of a request, as a client writes them, and the parsing of each
-- (src/slite/http/HTTPCodec.cc).
use serverlite.Base.{
  ℕ, ◌≡◌, ◌≢◌, refl, Bool, true, false, some, List, [], ◌∷◌, ◌++◌, Bytes, codes, bytes_eq, is_empty,
  if◌then◌else◌, ◌==◌, ==_refl, ==_ne, Bool-cases, inl, inr,
}
use serverlite.Base.Text.{before, Lacks, before-found}
use serverlite.Http.{
  get, post, HttpRequest, add_header, request_headers, request_body, got_all, behind_first,
  behind_last, parse_request_line, header_value, parse_request_header,
}

behind_first-found : (c : ℕ) (whole s t : Bytes) → Lacks c s → behind_first c whole (s ++ c ∷ t) ≡ t
behind_first-found c whole [] t h = rw (==_refl c)
behind_first-found c whole (b ∷ s) t h = rw (==_ne b c h.0) (behind_first-found c whole s t h.1)

behind_last-skip : (c : ℕ) (best s t : Bytes) → behind_last c best (s ++ c ∷ t) ≡ behind_last c t t
behind_last-skip c best [] t = rw (==_refl c)
behind_last-skip c best (b ∷ s) t = elim (Bool-cases (b == c)) [
  | inl e ↦ rw e (behind_last-skip c (s ++ c ∷ t) s t)
  | inr e ↦ rw e (behind_last-skip c best s t)
]

behind_last-none : (c : ℕ) (best t : Bytes) → Lacks c t → behind_last c best t ≡ best
behind_last-none c best [] h = refl
behind_last-none c best (b ∷ t) h = rw (==_ne b c h.0) (behind_last-none c best t h.1)

header_value-found : (f v : Bytes) → Lacks 58 f → header_value (f ++ 58 ∷ 32 ∷ v) ≡ some v
unfolding header_value
header_value-found [] v h = refl
header_value-found (b ∷ f) v h = rw (==_ne b 58 h.0) (header_value-found f v h.1)

-- The request line, and one line for each header, as a client writes them.
abbrev pub line_of : Bytes → Bytes → Bytes → Bytes
line_of method path version = method ++ 32 ∷ (path ++ 32 ∷ version)

abbrev pub header_line : Bytes × Bytes → Bytes
header_line (f, v) = f ++ 58 ∷ 32 ∷ v

abbrev pub header_lines : List (Bytes × Bytes) → Bytes
header_lines [] = []
header_lines (h ∷ hs) = header_line h ++ 13 ∷ 10 ∷ header_lines hs

abbrev pub request_text : Bytes → Bytes → Bytes → List (Bytes × Bytes) → Bytes → Bytes
request_text method path version hs rest =
    line_of method path version ++ 13 ∷ 10 ∷ (header_lines hs ++ 13 ∷ 10 ∷ rest)

abbrev pub AllPlain : List (Bytes × Bytes) → Type 0
AllPlain [] = Unit
AllPlain ((f, v) ∷ hs) = ((f ≢ []) × Lacks 58 f × Lacks 13 f × Lacks 13 v) × AllPlain hs

-- A token of the request line.
abbrev pub IsToken : Bytes → Type 0
IsToken t = Lacks 32 t × Lacks 13 t

abbrev pub add_headers : List (Bytes × Bytes) → HttpRequest → HttpRequest
add_headers [] r = r
add_headers ((f, v) ∷ hs) r = add_headers hs (add_header f v r)

abbrev pub with_line : Bytes → Bytes → Bytes → HttpRequest → HttpRequest
with_line method path version r = record r {
  method = if bytes_eq method (codes "GET") then get else post;
  path = path;
  version = version;
}

pub parse_request_line-line_of :
    (method path version : Bytes) (r : HttpRequest)
    → IsToken method
    → IsToken path
    → IsToken version
    → parse_request_line (line_of method path version) r ≡ with_line method path version r
unfolding parse_request_line
parse_request_line-line_of method path version r m p v =
    let tail = path ++ 32 ∷ version in
    rw (
      before-found 32 method tail m.0,
      behind_first-found 32 (method ++ 32 ∷ tail) method tail m.0,
      before-found 32 path version p.0,
      behind_last-skip 32 (method ++ 32 ∷ tail) method tail,
      behind_last-skip 32 tail path version,
      behind_last-none 32 version version v.0,
    )

not_empty : (f : Bytes) → f ≢ [] → is_empty f ≡ false
not_empty [] h = absurd (h refl)
not_empty (b ∷ f) h = refl

pub parse_request_header-line :
    (f v : Bytes) (r : HttpRequest)
    → f ≢ []
    → Lacks 58 f
    → parse_request_header (header_line (f, v)) r ≡ some (add_header f v r, false)
unfolding parse_request_header
parse_request_header-line f v r ne plain =
    rw (before-found 58 f (32 ∷ v) plain, not_empty f ne, header_value-found f v plain)

pub parse_request_header_end : (r : HttpRequest) → parse_request_header [] r ≡ some (r, true)
unfolding parse_request_header before
parse_request_header_end r = refl

pub not_body : (b : Bool) → (if b then got_all else request_headers) ≢ request_body
not_body true e = cc
not_body false e = cc
