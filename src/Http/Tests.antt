-- ===== src/Http/Tests.antt =====
-- Runs of the codec.
use serverlite.Base.{◌≡◌, ◌≢◌, ◌↔◌, refl, some, true, bytes_eq, arith, [], ◌∷◌, ◌++◌, codes, Bytes}
use serverlite.Base.Digits.{to_string}
use serverlite.Http.{
  HttpRequest, get, HttpResponse, request_line, request_headers, response_to_string, on_message,
  ends, unfinished, Outcome,
}
use serverlite.Http.Responses.{response_text}
use serverlite.Http.Lines.{request_text, add_headers, with_line}
use serverlite.Http.Requests.{on_message-request_text, on_message_ends}

abbrev fresh : HttpRequest
fresh = record { method = get; path = []; version = []; header = λ f. [] }

abbrev hello : HttpRequest → HttpResponse
hello r = record { status = 200; length = 2; type = []; body = codes "hi" }

abbrev with_crlf : Bytes → Bytes
with_crlf line = line ++ 13 ∷ 10 ∷ []

hello_text :
    response_to_string (codes "HTTP/1.1") (codes "close") (hello fresh)
    ≡ with_crlf (codes "HTTP/1.1 200 OK")
      ++ (with_crlf (codes "Content-Length: 2")
          ++ (with_crlf (codes "Connection: close") ++ with_crlf []))
      ++ codes "hi"
unfolding response_to_string to_string
hello_text = refl

abbrev posted : HttpRequest
posted =
    add_headers ((codes "A", codes "b:c") ∷ [])
      (with_line (codes "GET") (codes "/") (codes "1.1") fresh)

on_message-request_text_example :
    (o : Outcome) × (on_message hello request_line fresh (
        request_text
          (codes "GET")
          (codes "/")
          (codes "1.1")
          ((codes "A", codes "b:c") ∷ [])
          (codes "rest"))
      ≡ ends o)
    × (o.handled ≡ some posted)
    × (o.sent ≡ response_text (codes "1.1") [] (hello posted))
    × ((o.shut ≡ true) ↔ ([] ≡ codes "close"))
    × (o.buffer ≡ codes "rest")
    × (o.state ≡ request_line)
unfolding bytes_eq
on_message-request_text_example =
    on_message-request_text hello fresh (codes "GET") (codes "/") (codes "1.1")
      ((codes "A", codes "b:c") ∷ []) (codes "rest") (ground arith) (ground arith) (ground arith)
      (ground arith)

on_message_ends_example : on_message hello request_headers fresh (codes "A:") ≢ unfinished
on_message_ends_example = on_message_ends hello request_headers fresh (codes "A:") (λ e. cc)
