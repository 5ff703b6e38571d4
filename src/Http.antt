-- ===== src/Http.antt =====
-- src/slite/http: HTTPCodec.cc, HTTPRequest.cc and HTTPResponse.cc. What requestCallback_ puts into
-- the response is a function of the request. npos of std::string::find is the end of the search:
-- the additions to it wrap around, as written out where they happen.
pub mod Lines
pub mod Responses
pub mod Requests
pub mod Server
mod Tests
use serverlite.Base.{
  ℕ, zero, suc, ◌+◌, ◌-◌, ◌≡◌, Bool, true, false, not, ◌&&◌, Option, some, none, List, [], ◌∷◌,
  ◌++◌, Bytes, codes, length, drop, bytes_eq, is_empty, if◌then◌else◌, ◌==◌,
}
use serverlite.Base.Digits.{to_string}
use serverlite.Base.Options.{◌>>=◌}
use serverlite.Base.Text.{split_crlf, before}

pub data HttpMethod : Type 0 where
  get post : HttpMethod

-- HTTPRequest; header_ as a function, where a field that is not there has the empty value.
pub record HttpRequest : Type 0 where
  pub method : HttpMethod
  pub path : Bytes
  pub version : Bytes
  pub header : Bytes → Bytes

abbrev pub add_header : Bytes → Bytes → HttpRequest → HttpRequest
add_header field value r = record r { header = λ f. if bytes_eq field f then value else r.header f }

pub data HttpRequestState : Type 0 where
  request_line request_headers request_body got_all : HttpRequestState

-- substr(find_first_of(c) + 1): npos + 1 is 0, so the whole string where there is no such character.
abbrev behind_first : ℕ → Bytes → Bytes → Bytes
behind_first c whole [] = whole
behind_first c whole (b ∷ bs) = let rest = behind_first c whole bs in if b == c then bs else rest

-- substr(find_last_of(c) + 1), likewise.
abbrev behind_last : ℕ → Bytes → Bytes → Bytes
behind_last c best [] = best
behind_last c best (b ∷ bs) =
    let rest = behind_last c best bs in if b == c then behind_last c bs bs else rest

-- parseRequestLine. The path goes up to the second space, or to the end.
unfoldable pub parse_request_line : Bytes → HttpRequest → HttpRequest
unfolding before
parse_request_line line r = record r {
  method = if bytes_eq (before 32 line) (codes "GET") then get else post;
  path = before 32 (behind_first 32 line line);
  version = behind_last 32 line line;
}

-- The value of a header line: behind the colon and the character after it. A colon at the very end
-- makes substr throw; a line with no colon has the empty value.
header_value : Bytes → Option Bytes
header_value [] = some []
header_value (b ∷ bs) =
    let rest = header_value bs in
    if b == 58 then (if is_empty bs then none else some (drop 1 bs)) else rest

-- parseRequestHeader, and whether it returns true; none: it throws.
unfoldable pub parse_request_header : Bytes → HttpRequest → Option (HttpRequest × Bool)
unfolding before header_value
parse_request_header line r =
    let field = before 58 line in
    if not (is_empty field)
    then (header_value line >>= λ value. some (add_header field value r, false))
    else some (r, true)

-- HTTPResponse, its headers in the order of the map.
pub record HttpResponse : Type 0 where
  pub status : ℕ
  pub length : ℕ
  pub type : Bytes
  pub body : Bytes

unfoldable pub status_to_string : ℕ → Bytes
status_to_string s =
    if s == 200
    then codes "OK"
    else if s == 400
    then codes "Bad Request"
    else if s == 404
    then codes "Not Found"
    else codes "unknowStatus"

abbrev pub crlf : Bytes
crlf = 13 ∷ 10 ∷ []

-- toString of the response as onMessage completes it: the version of the request, and the header
-- Connection as the only one.
unfoldable pub response_to_string : Bytes → Bytes → HttpResponse → Bytes
unfolding status_to_string
response_to_string version connection r =
    ((version ++ (32 ∷ to_string r.status)) ++ ((32 ∷ status_to_string r.status) ++ crlf))
    ++ ((if r.length == 0 then [] else codes "Content-Length: " ++ (to_string r.length ++ crlf))
        ++ ((if is_empty r.type then [] else codes "Content-Type: " ++ (r.type ++ crlf))
            ++ ((codes "Connection: " ++ (connection ++ crlf)) ++ (crlf ++ r.body))))

-- What one call of onMessage leaves: the state of the codec and the buffer, the request that was
-- handed to requestCallback_, if one was, what was sent, and whether the connection was shut down.
pub record Outcome : Type 0 where
  pub state : HttpRequestState
  pub buffer : Bytes
  pub handled : Option HttpRequest
  pub sent : Bytes
  pub shut : Bool

pub data Result : Type 0 where
  ends : Outcome → Result
  throws unfinished : Result

module _ (callback : HttpRequest → HttpResponse) where
  -- The branch for kGotAll.
  unfoldable pub answer : HttpRequest → Bytes → Outcome
  unfolding response_to_string
  answer r buffer = record {
    state = request_line;
    buffer = buffer;
    handled = some r;
    sent = response_to_string r.version (r.header (codes "Connection")) (callback r);
    shut = bytes_eq (r.header (codes "Connection")) (codes "close");
  }

  abbrev pub pause : HttpRequestState → Bytes → Outcome
  pause s buffer = record { state = s; buffer = buffer; handled = none; sent = []; shut = false }

  -- The loop of onMessage on fuel: a state, the request so far and the buffer. kRequestBody has no
  -- branch: the loop spins.
  unfoldable pub loop : ℕ → HttpRequestState → HttpRequest → Bytes → Result
  unfolding parse_request_line answer
  loop zero s r buffer = unfinished
  loop (suc fuel) request_line r buffer = elim (split_crlf buffer) [
    | none ↦ ends (pause request_line buffer)
    | some p ↦ loop fuel request_headers (parse_request_line p.0 r) p.1
  ]
  loop (suc fuel) request_headers r buffer = elim (split_crlf buffer) [
    | none ↦ ends (pause request_headers buffer)
    | some p ↦ elim (parse_request_header p.0 r) [
      | none ↦ throws
      | some q ↦ loop fuel (if q.1 then got_all else request_headers) q.0 p.1
    ]
  ]
  loop (suc fuel) request_body r buffer = loop fuel request_body r buffer
  loop (suc fuel) got_all r buffer = ends (answer r buffer)

  -- onMessage: `context` is the request in the connection's context, which is copied.
  unfoldable pub on_message : HttpRequestState → HttpRequest → Bytes → Result
  unfolding loop
  on_message s context buffer = loop (length buffer + 2) s context buffer
