-- ===== src/Http/Server/Pages.antt =====
-- What the server of src/slite/http/HTTPServer.cc answers to the bytes of a request.
use serverlite.Base.{
  Option, ◌≡◌, refl, ap, ap₂, ◌∙◌, false, some, none, List, [], ◌∷◌, Bytes, codes, ℕ,
}
use serverlite.Http.{
  HttpMethod, HttpRequest, request_line, on_message, ends, answer, response_to_string, add_header,
  Outcome,
}
use serverlite.Http.Lines.{IsToken, AllPlain, request_text, add_headers, with_line}
use serverlite.Http.Requests.{on_message-answer}
use serverlite.Http.Server.{FileSystem, HttpServer, on_request, with_rule, response, not_found_page}

add_headers_line :
    (hs : List (Bytes × Bytes)) (r : HttpRequest)
    → ((add_headers hs r).path ≡ r.path)
      × ((add_headers hs r).method ≡ r.method)
      × ((add_headers hs r).version ≡ r.version)
add_headers_line [] r = (refl, refl, refl)
add_headers_line ((f, v) ∷ hs) r = add_headers_line hs (add_header f v r)

-- The body of a route, or the standard page.
abbrev page_at : HttpServer → Bytes → HttpMethod → Bytes
page_at s path method = elim (s.rules path method) [ none ↦ not_found_page | some body ↦ body ]

abbrev pub page : HttpServer → HttpRequest → Bytes
page s r = page_at s r.path r.method

with_rule-page :
    (fs : FileSystem) (unset : ℕ) (s : HttpServer) (r : HttpRequest) (rule : Option Bytes)
    → s.file_mode ≡ false
    → s.not_found ≡ none
    → with_rule fs unset s r rule
      ≡ response 404 (elim rule [ none ↦ not_found_page | some body ↦ body ])
unfolding with_rule
with_rule-page fs unset s r (some body) off plain = refl
with_rule-page fs unset s r none off plain = rw (off, plain)

on_request-page :
    (fs : FileSystem) (unset : ℕ) (s : HttpServer) (r : HttpRequest)
    → s.file_mode ≡ false
    → s.not_found ≡ none
    → on_request fs unset s r ≡ response 404 (page s r)
unfolding on_request
on_request-page fs unset s r off plain =
    with_rule-page fs unset s r (s.rules r.path r.method) off plain

-- A server with no file mode and no not-found callback, its codec between two requests, is handed a
-- whole one, as a client writes it with plain headers and with no space or carriage return inside
-- the parts of its request line, and any bytes behind it. It answers 404, whether it has a route for
-- the path and the method or not: with what the route gives, or with the standard page.
pub answers_not_found :
    (fs : FileSystem) (unset : ℕ) (s : HttpServer) (context : HttpRequest)
    (method path version : Bytes) (hs : List (Bytes × Bytes)) (rest : Bytes)
    → s.file_mode ≡ false
    → s.not_found ≡ none
    → IsToken method
    → IsToken path
    → IsToken version
    → AllPlain hs
    → (o : Outcome) × (on_message
          (on_request fs unset s)
          request_line
          context
          (request_text method path version hs rest)
        ≡ ends o)
      × (o.buffer ≡ rest)
      × (o.sent
          ≡ response_to_string version
              ((add_headers hs (with_line method path version context)).header (codes "Connection"))
              (response 404 (page s (with_line method path version context))))
unfolding answer
answers_not_found fs unset s context method path version hs rest off plain m p v all =
    let r = add_headers hs (with_line method path version context) in
    let (same_path, same_method, same_version) =
      add_headers_line hs (with_line method path version context) in
    (
      answer (on_request fs unset s) r rest,
      on_message-answer (on_request fs unset s) context method path version hs rest m p v all,
      refl,
      ap₂ (λ u x. response_to_string u (r.header (codes "Connection")) x) same_version
          (on_request-page fs unset s r off plain
            ∙ ap (response 404) (ap₂ (page_at s) same_path same_method)),
    )
