-- ===== src/Transaction/Tests.antt =====
-- Answers with the content of a file at concrete inputs, and the theorems applied there.
use h_ss.Prelude.{
  lex, memcmp_eq, true, false, Bytes, Option, replicate, if◌then◌else◌, ◌==◌, c_str, refl, ◌≡◌,
  arith, [], ◌∷◌, ◌++◌, none, some, codes,
}
use h_ss.Decimal.{decimal}
use h_ss.Response.{
  free_description, Response, http_not_found, http_response_set_code, get_representative_state_code,
}
use h_ss.Response
use h_ss.Response.Valid
use h_ss.Authorization.{get_authorization_code}
use h_ss.Headers.Lookup.{find}
use h_ss.Range.{strip_prefix}
use h_ss.Descriptors.{tcp_socket, tls_socket}
use h_ss.Statics.{Statics, WorkingDirectory, ok, fault, current_working_directory}
use h_ss.Request.{Request}
use h_ss.Request.Query
use h_ss.Request.Query.{get_request_header}
use h_ss.Transaction
use h_ss.Samples.{request_a, request_a-IsValid, fresh_response, world, statics}
use h_ss.Transaction.{
  OpenedFile, missing, unmapped, mapped, World, handle_http_transaction, location,
}
use h_ss.Transaction.Containment.{transaction-inside}
use h_ss.Transaction.Magic.{transaction-IsGuarded}
use h_ss.Transaction.Guarded.{IsGuarded}
use h_ss.Transaction.Redirect.{transaction-redirect}
use h_ss.Transaction.Stale.{transaction-stale}
use h_ss.Transaction.Content.{serve_content}
use h_ss.Transaction.Within.{serve_content-body}
use h_ss.Transaction.PastEnd.{serve_content_past_end}

serve_content_past_end_example :
    serve_content fresh_response
      (some (codes "bytes=" ++ (decimal 1 ++ (b'-' ∷ decimal 5))))
      (codes "hello")
    ≡ none
serve_content_past_end_example =
    serve_content_past_end fresh_response (codes "hello") 1 5 (omega arith) (omega arith)
      (omega arith)

serve_content-body_example :
    (t : Response) × (serve_content fresh_response
        (some (codes "bytes=" ++ (decimal 1 ++ (b'-' ∷ decimal 3))))
        (codes "hello")
      ≡ some t)
    × (t.body ≡ record { body = some (codes "ell"); length = 3 })
serve_content-body_example =
    serve_content-body fresh_response fresh_response.state_line (codes "hello") 1 3 (omega arith)
      (omega arith) (omega arith) (unfold free_description in refl)

abbrev srv : WorkingDirectory
srv = record { initialize = false; length = 5; path = codes "/srv/" }

srv-found : current_working_directory statics.directory world.getcwd ≡ ok srv
unfolding current_working_directory
srv-found = refl

-- A file outside the working directory, which a link in it leads to.
abbrev open_secret : Bytes → OpenedFile
open_secret [] = missing
open_secret (c ∷ []) = missing
open_secret (c ∷ d ∷ cs) = if d == b'e' then mapped (codes "secret") else missing

abbrev linked : World
linked = record world { realpath = λ _. some (codes "/etc/passwd") }

secret_exists : open_secret (codes "/etc/passwd") ≡ mapped (codes "secret")
secret_exists = refl

transaction-inside_example :
    handle_http_transaction
      (record linked { open_file = open_secret })
      tls_socket
      statics
      request_a
      fresh_response
    ≡ handle_http_transaction linked tls_socket statics request_a fresh_response
transaction-inside_example =
    transaction-inside linked open_secret statics request_a fresh_response srv
      (record { measured = refl; slash = refl; filled = refl }) srv-found (λ rest. refl) tls_socket

-- A directory below the working directory is opened, cannot be mapped, and is read.
directory_is_read :
    handle_http_transaction
      (record world { realpath = λ _. some (codes "/srv/a"); open_file = λ _. unmapped })
      tls_socket
      statics
      request_a
      fresh_response
    ≡ fault
unfolding handle_http_transaction Transaction.get_url Transaction.route Transaction.handle_file
    current_working_directory memcmp_eq lex strip_prefix c_str Query.http_request_get_url
    Query.copy_out
directory_is_read = refl

response-IsValid : Valid.IsValid fresh_response
response-IsValid = record { sorted = tt; described = refl; embodied = refl }

transaction-redirect_example :
    (r : Response) × (handle_http_transaction world tcp_socket statics request_a fresh_response
      ≡ ok (statics, r))
    × (get_representative_state_code r.state_line.code ≡ codes "301")
    × (find r.headers (codes "Location")
        ≡ some (
            c_str (
              codes "https://"
              ++ (c_str world.own_address ++ (codes ":443" ++ c_str (codes "/a"))))))
transaction-redirect_example =
    transaction-redirect world statics request_a fresh_response (codes "/a") request_a-IsValid refl
      refl response-IsValid (λ e. cc) (unfold c_str in omega arith)

-- The response to an earlier request for a file with these bytes.
abbrev earlier : Response
earlier = record fresh_response { body = record { body = some (codes "secret"); length = 6 } }

earlier-IsValid : Valid.IsValid earlier
earlier-IsValid = record { sorted = tt; described = refl; embodied = refl }

transaction-stale_example :
    (r : Response) × (handle_http_transaction world tls_socket statics request_a earlier
      ≡ ok (statics, r))
    × (http_response_set_code earlier http_not_found none ≡ some r)
    × (r.headers ≡ earlier.headers)
    × (r.body ≡ earlier.body)
transaction-stale_example =
    transaction-stale world statics request_a earlier (codes "/a") request_a-IsValid refl refl
      (unfold c_str strip_prefix in refl) refl earlier-IsValid (λ e. cc)

abbrev code : Bytes
code = replicate 32 b'0'

abbrev shutdown : Request
shutdown = record request_a {
  start_line = record request_a.start_line {
    url = some (codes "/magic-call/shutdown");
    url_length = 20;
  };
  headers = record { key = codes "Authorization"; value = code } ∷ [];
}

abbrev down : Statics
down = record statics {
  running = false;
  authorization = record { initialize = false; code = code };
}

abbrev no_content : Response
no_content = record fresh_response {
  state_line = record {
    code = 1;
    description = Response.live (codes "No Content");
    description_length = 10;
  };
}

shuts_down :
    handle_http_transaction world tls_socket statics shutdown fresh_response ≡ ok (down, no_content)
unfolding handle_http_transaction Transaction.get_url Transaction.route
    Transaction.handle_magic_call Transaction.perform_call get_authorization_code strip_prefix
    get_request_header Query.http_request_get_url Query.copy_out Response.http_response_set_code
    Response.free_description Response.get_default_description c_str Query.http_request_get_header
    h_ss.Headers.get h_ss.Headers.precedes h_ss.Prelude.strcmp h_ss.Prelude.lex h_ss.Headers.same
    h_ss.Authorization.characters h_ss.Authorization.sextets h_ss.Authorization.shifted
    h_ss.Prelude.memcmp_eq
shuts_down = refl

transaction-IsGuarded_example : IsGuarded world statics shutdown down
transaction-IsGuarded_example =
    transaction-IsGuarded world statics shutdown fresh_response tls_socket down no_content
      shuts_down
