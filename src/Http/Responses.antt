-- ===== src/Http/Responses.antt =====
-- The text of a response of src/slite/http/HTTPResponse.cc.
use serverlite.Base.{
  ℕ, zero, suc, ◌≡◌, refl, ap₂, ◌∙◌, arith, List, [], ◌∷◌, ◌++◌, Bytes, codes, is_empty,
  if◌then◌else◌, ◌==◌, ==_ne, append_assoc,
}
use serverlite.Base.Digits.{to_string}
use serverlite.Http.{HttpResponse, response_to_string, status_to_string, crlf}

-- The text of a response, line by line: the status line, the headers that are set, an empty line,
-- and the body.
abbrev pub line_end : Bytes → Bytes
line_end line = line ++ codes "\r\n"

abbrev pub reason_in : List (ℕ × Bytes) → ℕ → Bytes
reason_in [] status = codes "unknowStatus"
reason_in ((s, reason) ∷ rs) status =
    let rest = reason_in rs status in if status == s then reason else rest

abbrev pub reasons : List (ℕ × Bytes)
reasons = (200, codes "OK") ∷ (400, codes "Bad Request") ∷ (404, codes "Not Found") ∷ []

abbrev pub length_header : ℕ → Bytes
length_header zero = []
length_header (suc n) = line_end (codes "Content-Length: " ++ to_string (suc n))

abbrev pub type_header : Bytes → Bytes
type_header [] = []
type_header (b ∷ bs) = line_end (codes "Content-Type: " ++ b ∷ bs)

abbrev pub response_text : Bytes → Bytes → HttpResponse → Bytes
response_text version connection r =
    line_end (version ++ (32 ∷ (to_string r.status ++ (32 ∷ reason_in reasons r.status))))
    ++ (length_header r.length
        ++ (type_header r.type
            ++ (line_end (codes "Connection: " ++ connection) ++ (line_end [] ++ r.body))))

status_lem : (s : ℕ) → status_to_string s ≡ reason_in reasons s
unfolding status_to_string
status_lem s = refl

length_lem :
    (n : ℕ)
    → (if n == 0 then [] else codes "Content-Length: " ++ (to_string n ++ crlf)) ≡ length_header n
length_lem zero = refl
length_lem (suc n) = rw (==_ne (suc n) 0 (λ e. omega arith)) (simp append_assoc)

type_lem :
    (t : Bytes) → (if is_empty t then [] else codes "Content-Type: " ++ (t ++ crlf)) ≡ type_header t
type_lem [] = refl
type_lem (b ∷ bs) = refl

status_line_lem :
    (version code reason rest : Bytes)
    → ((version ++ (32 ∷ code)) ++ ((32 ∷ reason) ++ crlf)) ++ rest
      ≡ line_end (version ++ (32 ∷ (code ++ (32 ∷ reason)))) ++ rest
status_line_lem version code reason rest = simp append_assoc

connection_lem :
    (connection body : Bytes)
    → (codes "Connection: " ++ (connection ++ crlf)) ++ (crlf ++ body)
      ≡ line_end (codes "Connection: " ++ connection) ++ (line_end [] ++ body)
connection_lem connection body = simp append_assoc

pub response_to_string_lem :
    (version connection : Bytes) (r : HttpResponse)
    → response_to_string version connection r ≡ response_text version connection r
unfolding response_to_string
response_to_string_lem version connection r =
    rw (length_lem r.length, type_lem r.type)
      (status_line_lem version (to_string r.status) (status_to_string r.status) _
        ∙ ap₂
            (λ reason rest.
              line_end (version ++ (32 ∷ (to_string r.status ++ (32 ∷ reason))))
              ++ (length_header r.length ++ (type_header r.type ++ rest)))
            (status_lem r.status) (connection_lem connection r.body))
