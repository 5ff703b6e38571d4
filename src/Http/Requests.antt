-- ===== src/Http/Requests.antt =====
-- The loop of HTTPCodec::onMessage (src/slite/http/HTTPCodec.cc) on whole and cut requests.
use serverlite.Base.{
  ℕ, zero, suc, ◌+◌, ◌-◌, ◌≤◌, ◌≡◌, ◌≢◌, refl, ap, ◌∙◌, arith, Bool, true, false, some, List, [],
  ◌∷◌, ◌++◌, Bytes, length, length-append, if◌then◌else◌, append_assoc, Option-cases, inl, inr,
  codes, bytes_eq_iff, ◌↔◌,
}
use serverlite.Base.Text.{split_crlf, Lacks, Lacks-append, split_crlf-line, split_crlf_shorter}
use serverlite.Http.{
  HttpRequest, add_header, HttpRequestState, request_line, request_headers, request_body, got_all,
  parse_request_line, parse_request_header, HttpResponse, Outcome, response_to_string, ends,
  unfinished, answer, pause, loop, on_message,
}
use serverlite.Http.Responses.{response_text, response_to_string_lem}
use serverlite.Http.Lines.{
  parse_request_line-line_of, parse_request_header-line, parse_request_header_end, not_body,
  line_of, header_line, header_lines, request_text, AllPlain, IsToken, add_headers, with_line,
}

module _ (callback : HttpRequest → HttpResponse) where
  loop-line :
      (fuel : ℕ) (r : HttpRequest) (buffer line rest : Bytes)
      → split_crlf buffer ≡ some (line, rest)
      → loop callback (suc fuel) request_line r buffer
        ≡ loop callback fuel request_headers (parse_request_line line r) rest
  unfolding loop
  loop-line fuel r buffer line rest e = rw (e, loop)

  loop-line_at :
      (fuel : ℕ) (r : HttpRequest) (buffer line rest : Bytes)
      → 1 ≤ fuel
      → split_crlf buffer ≡ some (line, rest)
      → loop callback fuel request_line r buffer
        ≡ loop callback (fuel - 1) request_headers (parse_request_line line r) rest
  loop-line_at zero r buffer line rest h e = absurd (omega arith)
  loop-line_at (suc fuel) r buffer line rest h e =
      loop-line fuel r buffer line rest e
      ∙ ap (λ n. loop callback n request_headers (parse_request_line line r) rest)
          {y = suc fuel - 1} (omega arith)

  loop-header :
      (fuel : ℕ) (r r' : HttpRequest) (buffer line rest : Bytes) (is_last : Bool)
      → split_crlf buffer ≡ some (line, rest)
      → parse_request_header line r ≡ some (r', is_last)
      → loop callback (suc fuel) request_headers r buffer
        ≡ loop callback fuel (if is_last then got_all else request_headers) r' rest
  unfolding loop
  loop-header fuel r r' buffer line rest is_last e q = rw (e, q, loop)

  loop-answer :
      (fuel : ℕ) (r : HttpRequest) (buffer : Bytes)
      → loop callback (suc fuel) got_all r buffer ≡ ends (answer callback r buffer)
  unfolding loop
  loop-answer fuel r buffer = refl

  loop_headers :
      (fuel : ℕ) (hs : List (Bytes × Bytes)) (rest : Bytes) (r : HttpRequest)
      → AllPlain hs
      → length hs + 2 ≤ fuel
      → loop callback fuel request_headers r (header_lines hs ++ 13 ∷ 10 ∷ rest)
        ≡ ends (answer callback (add_headers hs r) rest)
  loop_headers zero hs rest r plain le = absurd (omega arith)
  loop_headers (suc zero) hs rest r plain le = absurd (omega arith)
  loop_headers (suc (suc fuel)) [] rest r plain le =
      loop-header (suc fuel) r r _ [] rest true (split_crlf-line [] rest tt)
        (parse_request_header_end r)
      ∙ loop-answer fuel r rest
  loop_headers (suc (suc fuel)) ((f, v) ∷ hs) rest r plain le =
      let (ne, colon, cr, cr') = plain.0 in
      let line = header_line (f, v) in
      let line_lacks : Lacks 13 line =
        Lacks-append 13 f (58 ∷ 32 ∷ v) cr
          ((λ e. omega (arith, e)), ((λ e. omega (arith, e)), cr')) in
      rw (append_assoc line (13 ∷ 10 ∷ header_lines hs) (13 ∷ 10 ∷ rest)) (
        loop-header (suc fuel) r (add_header f v r) _ line (header_lines hs ++ 13 ∷ 10 ∷ rest) false
          (split_crlf-line line (header_lines hs ++ 13 ∷ 10 ∷ rest) line_lacks)
          (parse_request_header-line f v r ne colon)
        ∙ loop_headers (suc fuel) hs rest (add_header f v r) plain.1 (omega arith))

  length-header_lines : (hs : List (Bytes × Bytes)) → length hs ≤ length (header_lines hs)
  length-header_lines [] = omega arith
  length-header_lines (h ∷ hs) =
      let rest = length-header_lines hs in
      omega (arith, length-append (header_line h) (13 ∷ 10 ∷ header_lines hs))

  pub on_message-answer :
      (context : HttpRequest) (method path version : Bytes) (hs : List (Bytes × Bytes))
      (rest : Bytes)
      → IsToken method
      → IsToken path
      → IsToken version
      → AllPlain hs
      → on_message callback request_line context (request_text method path version hs rest)
        ≡ ends (answer callback (add_headers hs (with_line method path version context)) rest)
  unfolding on_message
  on_message-answer context method path version hs rest m p v plain =
      let line = line_of method path version in
      let tail = header_lines hs ++ 13 ∷ 10 ∷ rest in
      let no_cr : Lacks 13 line = Lacks-append 13 method (32 ∷ (path ++ 32 ∷ version)) m.1 (
        (λ e. omega (arith, e)),
        Lacks-append 13 path (32 ∷ version) p.1 ((λ e. omega (arith, e)), v.1),
      ) in
      let total = length-append line (13 ∷ 10 ∷ tail) in
      let behind = length-append (header_lines hs) (13 ∷ 10 ∷ rest) in
      let lines = length-header_lines hs in
      loop-line_at (length (request_text method path version hs rest) + 2) context _ line tail
        (omega arith) (split_crlf-line line tail no_cr)
      ∙ ap
          (λ r.
            loop callback (length (request_text method path version hs rest) + 2 - 1)
              request_headers r tail)
          (parse_request_line-line_of method path version context m p v)
      ∙ loop_headers _ hs rest (with_line method path version context) plain (omega arith)

  version_kept :
      (hs : List (Bytes × Bytes)) (r : HttpRequest) → (add_headers hs r).version ≡ r.version
  version_kept [] r = refl
  version_kept ((f, v) ∷ hs) r = version_kept hs (add_header f v r)

  -- A codec between two requests that is handed a whole one, as a client writes it, and any bytes
  -- behind it: the request line has no space or carriage return inside its parts, and the headers
  -- have names that are not empty, with no colon, and no carriage return. The callback is handed that
  -- request, with the headers in their order on those of the context. The text of its response, with
  -- the version of the request and the request's Connection header, is sent; the connection is shut
  -- down just where that header is "close"; the bytes behind the request stay in the buffer, and the
  -- codec waits for a request line.
  pub on_message-request_text :
      (context : HttpRequest) (method path version : Bytes) (hs : List (Bytes × Bytes))
      (rest : Bytes)
      → IsToken method
      → IsToken path
      → IsToken version
      → AllPlain hs
      → let r = add_headers hs (with_line method path version context) in
        let connection = r.header (codes "Connection") in
        (o : Outcome) × (on_message callback request_line context
            (request_text method path version hs rest)
          ≡ ends o)
        × (o.handled ≡ some r)
        × (o.sent ≡ response_text version connection (callback r))
        × ((o.shut ≡ true) ↔ (connection ≡ codes "close"))
        × (o.buffer ≡ rest)
        × (o.state ≡ request_line)
  unfolding answer
  on_message-request_text context method path version hs rest m p v plain =
      let r = add_headers hs (with_line method path version context) in
      let connection = r.header (codes "Connection") in
      (
        answer callback r rest,
        on_message-answer context method path version hs rest m p v plain,
        refl,
        ap (λ w. response_to_string w connection (callback r))
              (version_kept hs (with_line method path version context))
            ∙ response_to_string_lem version connection (callback r),
        bytes_eq_iff connection (codes "close"),
        refl,
        refl,
      )

  loop_pauses :
      (fuel : ℕ) (r : HttpRequest)
      → 1 ≤ fuel
      → loop callback fuel request_headers r [] ≡ ends (pause callback request_headers [])
  unfolding loop split_crlf
  loop_pauses zero r h = absurd (omega arith)
  loop_pauses (suc fuel) r h = refl

  loop_ends :
      (fuel : ℕ) (s : HttpRequestState) (r : HttpRequest) (buffer : Bytes)
      → s ≢ request_body
      → length buffer + 2 ≤ fuel
      → loop callback fuel s r buffer ≢ unfinished
  unfolding loop
  loop_ends zero s r buffer h le e = omega arith
  loop_ends (suc fuel) request_line r buffer h le e = elim (Option-cases (split_crlf buffer)) [
    | inl none_yet ↦ cc (rw (none_yet, loop) at e)
    | inr (p, q) ↦
        let shorter = split_crlf_shorter buffer p.0 p.1 q in
        loop_ends fuel request_headers (parse_request_line p.0 r) p.1 (λ x. cc) (omega arith)
          (rw (q, loop) at e)
  ]
  loop_ends (suc fuel) request_headers r buffer h le e = elim (Option-cases (split_crlf buffer)) [
    | inl none_yet ↦ cc (rw (none_yet, loop) at e)
    | inr (p, q) ↦
        let shorter = split_crlf_shorter buffer p.0 p.1 q in
        elim (Option-cases (parse_request_header p.0 r)) [
          | inl threw ↦ cc (rw (q, threw, loop) at e)
          | inr (x, y) ↦
              loop_ends fuel (if x.1 then got_all else request_headers) x.0 p.1 (not_body x.1)
                (omega arith) (rw (q, y, loop) at e)
        ]
  ]
  loop_ends (suc fuel) request_body r buffer h le e = h refl
  loop_ends (suc fuel) got_all r buffer h le e = cc

  -- A request cut behind its first line: the first call ends with nothing handled and an empty buffer,
  -- and the second call, with the headers and the empty line, hands the callback a request with these
  -- headers, but with the method, path and version of the request in the context, not those of the line.
  on_message_forgets :
      (context : HttpRequest) (line : Bytes) (hs : List (Bytes × Bytes))
      → Lacks 13 line
      → AllPlain hs
      → (on_message callback request_line context (line ++ 13 ∷ 10 ∷ [])
          ≡ ends (pause callback request_headers []))
        × (on_message callback request_headers context (header_lines hs ++ 13 ∷ 10 ∷ [])
            ≡ ends (answer callback (add_headers hs context) []))
  unfolding on_message
  on_message_forgets context line hs no_cr plain =
      let total = length-append line (13 ∷ 10 ∷ []) in
      let behind = length-append (header_lines hs) (13 ∷ 10 ∷ []) in
      let lines = length-header_lines hs in
      (
        loop-line_at (length (line ++ 13 ∷ 10 ∷ []) + 2) context _ line [] (omega arith)
              (split_crlf-line line [] no_cr)
            ∙ loop_pauses _ (parse_request_line line context) (omega arith),
        loop_headers _ hs [] context plain (omega arith),
      )

  -- onMessage ends by its own conditions, or by an exception of substr, on every buffer, unless the
  -- codec is in kRequestBody, which nothing sets.
  pub on_message_ends :
      (s : HttpRequestState) (context : HttpRequest) (buffer : Bytes)
      → s ≢ request_body
      → on_message callback s context buffer ≢ unfinished
  unfolding on_message
  on_message_ends s context buffer h = loop_ends _ s context buffer h (omega arith)
