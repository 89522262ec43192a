-- ===== src/Transaction/Stale.antt =====
-- server.c: the response of a connection is never reset between its requests.
use h_ss.Prelude.{
  ℕ, ◌+◌, ◌≡◌, refl, ap, ◌∙◌, inl, arith, none, some, Bytes, codes, length, drop, c_str,
}
use h_ss.Range.{strip_prefix}
use h_ss.Request.{Request, parsed}
use h_ss.Request.State.{IsValid}
use h_ss.Response.{Response, http_not_found, http_response_set_code}
use h_ss.Response.Valid
use h_ss.Response.Valid.{NotDangling, set_code-IsValid}
use h_ss.Descriptors.{tls_socket}
use h_ss.Statics.{ok, Statics}
use h_ss.Transaction.{World, route, handle_file, handle_http_transaction}
use h_ss.Transaction.Redirect.{get_url_lem, c_str-strcpy}

handle_file_missing :
    (w : World) (s : Statics) (request : Request) (response r : Response) (url : Bytes)
    → w.realpath (drop 1 url) ≡ none
    → http_response_set_code response http_not_found none ≡ some r
    → handle_file w s request response url ≡ ok (s, r)
unfolding handle_file
handle_file_missing w s request response r url missing made = rw (missing, made, handle_file) refl

route_missing :
    (w : World) (s : Statics) (request : Request) (response r : Response) (block url : Bytes)
    (n : ℕ)
    → c_str block ≡ url
    → strip_prefix (codes "/magic-call/") url ≡ none
    → w.realpath (drop 1 url) ≡ none
    → http_response_set_code response http_not_found none ≡ some r
    → route w tls_socket s request response (block, n) ≡ ok (s, r)
unfolding route
route_missing w s request response r block url n same other missing made =
    rw (same, other, route)
      (handle_file_missing w s request response r (c_str block)
        (ap (λ u. w.realpath (drop 1 u)) same ∙ missing) made)

-- On a TLS connection, a request for a path that does not exist, when the response is valid and its
-- description is not freed: the answer has the code of `not found`, and still the headers and the
-- body of the response before it, whatever file that was.
pub transaction-stale :
    (w : World) (s : Statics) (request : Request) (response : Response) (url : Bytes)
    → IsValid request
    → request.state ≡ parsed
    → request.start_line.url ≡ some url
    → strip_prefix (codes "/magic-call/") (c_str url) ≡ none
    → w.realpath (drop 1 (c_str url)) ≡ none
    → Valid.IsValid response
    → NotDangling response.state_line.description
    → (r : Response) × (handle_http_transaction w tls_socket s request response ≡ ok (s, r))
      × (http_response_set_code response http_not_found none ≡ some r)
      × (r.headers ≡ response.headers)
      × (r.body ≡ response.body)
unfolding handle_http_transaction
transaction-stale w s request response url v p u other missing rv nd =
    let (r, made, _, _, headers, body) =
      set_code-IsValid response http_not_found none rv nd (inl (omega arith)) in
    (
      r,
      rw (get_url_lem w request url v p u, handle_http_transaction)
          (route_missing w s request response r _ (c_str url) (length url)
            (c_str-strcpy (w.malloc (length url + 1)) url) other missing made),
      made,
      headers,
      body,
    )
