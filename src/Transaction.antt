-- ===== src/Transaction.antt =====
-- server.c: `handle_http_transaction`. `none` as a result is undefined behaviour, as in Response and
-- Range; reading behind the content of a file is, since only as many bytes as it has are mapped.
-- Assertions are those of a build with NDEBUG, which has none, and so is the port.
pub mod Containment
pub mod Content
pub mod Guarded
pub mod Magic
pub mod PastEnd
pub mod Paths
pub mod Redirect
pub mod Sound
pub mod Stale
pub mod Within
mod Tests
use h_ss.Prelude.{
  ℕ, ◌+◌, ◌-◌, ◌%◌, ◌^◌, false, [], ◌∷◌, ◌++◌, ltb, memcmp_eq, Option, none, some, if◌then◌else◌,
  ◌==◌, Bytes, codes, length, drop, c_str,
}
use mathlib.Core.Option
use h_ss.Decimal.{decimal}
use h_ss.Headers.{same}
use h_ss.Logging.{logging_set_level}
use h_ss.Authorization.{get_authorization_code}
use h_ss.Request.{Request}
use h_ss.Request.Query.{http_request_get_url, get_request_header}
use h_ss.Descriptors.{DescriptorType, listen_socket, tcp_socket, tls_socket}
use h_ss.Statics.{Outcome, ok, fault, ◌>>=◌, defined, Statics, current_working_directory}
use h_ss.Response.{
  Response, http_ok, http_partial_content, http_moved_permanently, http_forbidden, http_not_found,
  http_no_content, http_not_implemented, http_response_set_code, http_response_set_header,
  http_response_set_body,
}
use h_ss.Transaction.Content.{serve_content}
use h_ss.Range.{strip_prefix, strtoll}

-- What opening and mapping a file gives: `open` fails, `mmap` fails where the size is not zero (of a
-- directory, for one), or the content of the file. Mapping an empty file fails too, and nothing of it is
-- read.
pub data OpenedFile : Type 0 where
  missing : OpenedFile
  unmapped : OpenedFile
  mapped : Bytes → OpenedFile

-- What the transaction asks of the C library and the kernel: blocks of memory and what a new
-- variable holds, the random words, the socket's own address in letters, the working directory, the
-- real path of a name, and the file at a path.
pub record World : Type 0 where
  pub malloc : ℕ → Bytes
  pub garbage : ℕ
  pub random : ℕ × ℕ × ℕ
  pub own_address : Bytes
  pub getcwd : Option Bytes
  pub realpath : Bytes → Option Bytes
  pub open_file : Bytes → OpenedFile

abbrev pub https_port : ℕ
https_port = 443

abbrev pub inet6_addrstrlen : ℕ
inet6_addrstrlen = 46

abbrev pub authorization_code_length : ℕ
authorization_code_length = 32

-- The URL in a block of its own, and `url_length` after the second call.
unfoldable pub get_url : World → Request → Option (Bytes × ℕ)
get_url w request = elim (http_request_get_url request none w.garbage) [
  | none ↦ none
  | some first ↦
      elim (http_request_get_url request (some (w.malloc first.length_out)) first.length_out) [
        | none ↦ none
        | some second ↦ Option.map (λ url. (url, second.length_out)) second.buffer
      ]
]

-- What a transaction leaves: the static variables and the response.
abbrev pub Answer : Type 0
Answer = Outcome (Statics × Response)

abbrev pub answer : Statics → Response → ℕ → Answer
answer s response code = do r ← defined (http_response_set_code response code none); ok (s, r)

abbrev pub generate_forbidden : Statics → Response → Answer
generate_forbidden s response = answer s response http_forbidden

abbrev pub generate_not_found : Statics → Response → Answer
generate_not_found s response = answer s response http_not_found

abbrev pub location : World → Bytes → Bytes
location w url =
    codes "https://" ++ (c_str w.own_address ++ (codes ":" ++ (decimal https_port ++ url)))

-- `sprintf` into the array `buffer`.
unfoldable pub redirect : World → Statics → Response → Bytes → ℕ → Answer
redirect w s response url url_length = do
  r ← defined (http_response_set_code response http_moved_permanently none)
  if ltb (inet6_addrstrlen + url_length + 15) (length (location w url) + 1)
      then fault
      else ok (s, http_response_set_header r (codes "Location") (location w url))

-- What stands behind `/magic-call/`. `strtol` gives 64 bits, of which the level has 32.
unfoldable pub perform_call : Statics → Response → Bytes → Answer
perform_call s response call =
    if same call (codes "shutdown")
    then answer (record s { running = false }) response http_no_content
    else elim (strip_prefix (codes "set-log-level?level=") call) [
      | some level ↦
          answer
            (record s { log_level = logging_set_level s.log_level ((strtoll level).0 % 2 ^ 32) })
            response http_no_content
      | none ↦ answer s response http_not_implemented
    ]

-- `memcmp` reads as many bytes of the block as the code has.
unfoldable pub handle_magic_call : World → Statics → Request → Response → Bytes → Answer
handle_magic_call w s request response call =
    elim (get_request_header w.malloc w.garbage request (codes "Authorization")) [
      | none ↦ generate_not_found s response
      | some code ↦ do
        authorization ←
            defined (get_authorization_code s.authorization w.random.0 w.random.1 w.random.2)
        let s' = record s { authorization = authorization }
        allowed ← defined (memcmp_eq code authorization.code authorization_code_length)
        if allowed then perform_call s' response call else generate_forbidden s' response
    ]

-- The path is canonical and stands in a block with its NUL. The address that a failed `mmap` returns is
-- read from.
unfoldable pub handle_file : World → Statics → Request → Response → Bytes → Answer
handle_file w s request response url = elim (w.realpath (drop 1 url)) [
  | none ↦ generate_not_found s response
  | some path ↦ do
    directory ← current_working_directory s.directory w.getcwd
    let s' = record s { directory = directory }
    inside ← defined (memcmp_eq directory.path (path ++ (0 ∷ [])) directory.length)
    if inside
        then elim (w.open_file path) [
          | missing ↦ generate_not_found s' response
          | unmapped ↦ fault
          | mapped content ↦ do
            let range_value = get_request_header w.malloc w.garbage request (codes "Range")
            r ← defined (serve_content response range_value content)
            ok (s', r)
        ]
        else generate_not_found s' response
]

-- What is done for the URL.
unfoldable pub route : World → DescriptorType → Statics → Request → Response → Bytes × ℕ → Answer
route w tcp_socket s request response (url, url_length) =
    redirect w s response (c_str url) url_length
route w type s request response (url, url_length) =
    elim (strip_prefix (codes "/magic-call/") (c_str url)) [
      | some call ↦ handle_magic_call w s request response call
      | none ↦ handle_file w s request response (c_str url)
    ]

unfoldable pub handle_http_transaction :
    World → DescriptorType → Statics → Request → Response → Answer
handle_http_transaction w type s request response =
    defined (get_url w request) >>= route w type s request response
