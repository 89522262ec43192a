-- ===== src/Transaction/Paths.antt =====
-- server.c: what a transaction can leave, on all of its paths at once.
use h_ss.Prelude.{
  ℕ, ltb, ◌%◌, ◌^◌, ◌+◌, ◌<◌, ◌≡◌, refl, inl, inr, arith, Bool, true, false, [], ◌∷◌, ◌++◌, Option,
  none, some, if◌then◌else◌, Bytes, codes, length, drop, memcmp_eq, Bool-cases, c_str,
}
use h_ss.Headers.{same}
use h_ss.Range.{strip_prefix, strtoll}
use h_ss.Request.{Request}
use h_ss.Request.Query.{get_request_header}
use h_ss.Response.{
  Response, http_no_content, http_not_implemented, http_forbidden, http_not_found,
  http_moved_permanently, http_response_set_code, http_response_set_header,
}
use h_ss.Authorization.{Authorization, get_authorization_code}
use h_ss.Logging.{logging_set_level}
use h_ss.Descriptors.{DescriptorType, listen_socket, tcp_socket, tls_socket}
use h_ss.Statics.{ok, fault, ◌>>=◌, defined, Statics, WorkingDirectory, current_working_directory}
use h_ss.Transaction.{
  OpenedFile, missing, unmapped, mapped, World, inet6_addrstrlen, generate_forbidden,
  generate_not_found, route, answer, get_url, redirect, handle_magic_call, perform_call,
  handle_file, handle_http_transaction, authorization_code_length, location,
}
use h_ss.Transaction.Guarded.{
  IsAuthorized, IsGuarded, KeepsCode, Always, Always-bind, defined-ok, code_again,
}
use h_ss.Transaction.Content.{serve_content}
use h_ss.Transaction.Containment.{memcmp_eq-take}

-- The three ways to fill a response: a code alone, a redirect, and a file.
module _ (w : World) (s : Statics) (request : Request) (response : Response)
    (P : Statics → Response → Type 0)
    (answers : (t : Statics) (code : ℕ) (r : Response)
      → code < 10
      → IsGuarded w s request t
      → KeepsCode s t
      → http_response_set_code response code none ≡ some r
      → P t r)
    (redirects : (r : Response) (value : Bytes)
      → http_response_set_code response http_moved_permanently none ≡ some r
      → P s (http_response_set_header r (codes "Location") value))
    (serves : (d : WorkingDirectory) (range : Option Bytes) (content : Bytes) (r : Response)
      → serve_content response range content ≡ some r
      → P (record s { directory = d }) r) where
  answer-Always :
      (t : Statics) (code : ℕ)
      → code < 10
      → IsGuarded w s request t
      → KeepsCode s t
      → Always P (answer t response code)
  answer-Always t code small h keeps =
      Always-bind P (defined (http_response_set_code response code none)) _
        (λ r e. answers t code r small h keeps (defined-ok _ r e))

  perform_call-Always :
      (t : Statics) (call : Bytes)
      → IsAuthorized w s request
      → KeepsCode s t
      → Always P (perform_call t response call)
  unfolding perform_call
  perform_call-Always t call h keeps = elim (Bool-cases (same call (codes "shutdown"))) [
    | inl e ↦
        rw e
          (answer-Always (record t { running = false }) http_no_content (omega arith) (inr h) keeps)
    | inr e ↦ rw e (by_level (strip_prefix (codes "set-log-level?level=") call))
  ]
    where
      by_level :
          (o : Option Bytes)
          → Always P (elim o [
            | some level ↦
                answer
                  (record t {
                    log_level = logging_set_level t.log_level ((strtoll level).0 % 2 ^ 32);
                  })
                  response
                  http_no_content
            | none ↦ answer t response http_not_implemented
          ])
      by_level none = answer-Always t http_not_implemented (omega arith) (inr h) keeps
      by_level (some level) = answer-Always _ http_no_content (omega arith) (inr h) keeps

  redirect-Always : (url : Bytes) (n : ℕ) → Always P (redirect w s response url n)
  unfolding redirect
  redirect-Always url n =
      Always-bind P (defined (http_response_set_code response http_moved_permanently none)) _
        (λ r e. stays r (redirects r (location w url) (defined-ok _ r e)))
    where
      stays :
          (r : Response)
          → P s (http_response_set_header r (codes "Location") (location w url))
          → Always P (
              if ltb (inet6_addrstrlen + n + 15) (length (location w url) + 1)
              then fault
              else ok (s, http_response_set_header r (codes "Location") (location w url)))
      stays r h =
          elim (Bool-cases (ltb (inet6_addrstrlen + n + 15) (length (location w url) + 1))) [
            | inl e ↦ rw e tt
            | inr e ↦ rw e h
          ]

  magic-Always : (call : Bytes) → Always P (handle_magic_call w s request response call)
  unfolding handle_magic_call
  magic-Always call =
      by_header (get_request_header w.malloc w.garbage request (codes "Authorization")) refl
    where
      by_test :
          (code : Bytes) (t : Authorization) (allowed : Bool)
          → get_request_header w.malloc w.garbage request (codes "Authorization") ≡ some code
          → get_authorization_code s.authorization w.random.0 w.random.1 w.random.2 ≡ some t
          → memcmp_eq code t.code authorization_code_length ≡ some allowed
          → Always P (
              if allowed
              then perform_call (record s { authorization = t }) response call
              else generate_forbidden (record s { authorization = t }) response)
      by_test code t true h k e =
          perform_call-Always (record s { authorization = t }) call
            (code, t, h, k, memcmp_eq-take code t.code authorization_code_length e)
            (code_again s.authorization t w.random.0 w.random.1 w.random.2 k)
      by_test code t false h k e =
          answer-Always (record s { authorization = t }) http_forbidden (omega arith)
            (inl (refl, refl)) (code_again s.authorization t w.random.0 w.random.1 w.random.2 k)

      by_header :
          (o : Option Bytes)
          → get_request_header w.malloc w.garbage request (codes "Authorization") ≡ o
          → Always P (elim o [
            | none ↦ generate_not_found s response
            | some code ↦
                defined (get_authorization_code s.authorization w.random.0 w.random.1 w.random.2)
                >>= λ t. defined (memcmp_eq code t.code authorization_code_length) >>= λ allowed.
                    if allowed
                    then perform_call (record s { authorization = t }) response call
                    else generate_forbidden (record s { authorization = t }) response
          ])
      by_header none h = answer-Always s http_not_found (omega arith) (inl (refl, refl)) (λ e. refl)
      by_header (some code) h =
          Always-bind P
            (defined (get_authorization_code s.authorization w.random.0 w.random.1 w.random.2)) _
            (λ t k.
              Always-bind P (defined (memcmp_eq code t.code authorization_code_length)) _
                (λ allowed e. by_test code t allowed h (defined-ok _ t k) (defined-ok _ allowed e)))

  file-Always : (url : Bytes) → Always P (handle_file w s request response url)
  unfolding handle_file
  file-Always url = by_path (w.realpath (drop 1 url))
    where
      by_content :
          (d : WorkingDirectory) (o : OpenedFile)
          → Always P (elim o [
            | missing ↦ generate_not_found (record s { directory = d }) response
            | unmapped ↦ fault
            | mapped content ↦
                defined (
                  serve_content response
                    (get_request_header w.malloc w.garbage request (codes "Range"))
                    content)
                >>= λ r. ok (record s { directory = d }, r)
          ])
      by_content d missing =
          answer-Always (record s { directory = d }) http_not_found (omega arith) (inl (refl, refl))
            (λ e. refl)
      by_content d unmapped = tt
      by_content d (mapped content) =
          Always-bind P
            (defined (
              serve_content response (get_request_header w.malloc w.garbage request (codes "Range"))
                content))
            _ (λ r e. serves d _ content r (defined-ok _ r e))

      by_test :
          (d : WorkingDirectory) (path : Bytes) (inside : Bool)
          → Always P (
              if inside
              then elim (w.open_file path) [
                | missing ↦ generate_not_found (record s { directory = d }) response
                | unmapped ↦ fault
                | mapped content ↦
                    defined (
                      serve_content response
                        (get_request_header w.malloc w.garbage request (codes "Range"))
                        content)
                    >>= λ r. ok (record s { directory = d }, r)
              ]
              else generate_not_found (record s { directory = d }) response)
      by_test d path true = by_content d (w.open_file path)
      by_test d path false =
          answer-Always (record s { directory = d }) http_not_found (omega arith) (inl (refl, refl))
            (λ e. refl)

      by_path :
          (o : Option Bytes)
          → Always P (elim o [
            | none ↦ generate_not_found s response
            | some path ↦ current_working_directory s.directory w.getcwd >>= λ d.
                defined (memcmp_eq d.path (path ++ (0 ∷ [])) d.length) >>= λ inside.
                if inside
                then elim (w.open_file path) [
                  | missing ↦ generate_not_found (record s { directory = d }) response
                  | unmapped ↦ fault
                  | mapped content ↦
                      defined (
                        serve_content response
                          (get_request_header w.malloc w.garbage request (codes "Range"))
                          content)
                      >>= λ r. ok (record s { directory = d }, r)
                ]
                else generate_not_found (record s { directory = d }) response
          ])
      by_path none = answer-Always s http_not_found (omega arith) (inl (refl, refl)) (λ e. refl)
      by_path (some path) = Always-bind P (current_working_directory s.directory w.getcwd) _ (λ d e.
          Always-bind P (defined (memcmp_eq d.path (path ++ (0 ∷ [])) d.length)) _
            (λ inside k. by_test d path inside))

  by_call :
      (url : Bytes) (o : Option Bytes)
      → Always P (elim o [
        | some call ↦ handle_magic_call w s request response call
        | none ↦ handle_file w s request response (c_str url)
      ])
  by_call url none = file-Always (c_str url)
  by_call url (some call) = magic-Always call

  route-Always :
      (type : DescriptorType) (u : Bytes × ℕ) → Always P (route w type s request response u)
  unfolding route
  route-Always tcp_socket (url, n) = redirect-Always (c_str url) n
  route-Always listen_socket (url, n) =
      by_call url (strip_prefix (codes "/magic-call/") (c_str url))
  route-Always tls_socket (url, n) = by_call url (strip_prefix (codes "/magic-call/") (c_str url))

  -- Every answer of a transaction is filled in one of these ways.
  pub transaction-Always :
      (type : DescriptorType) → Always P (handle_http_transaction w type s request response)
  unfolding handle_http_transaction
  transaction-Always type =
      Always-bind P (defined (get_url w request)) _ (λ u e. route-Always type u)
