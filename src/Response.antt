-- ===== src/Response.antt =====
-- http.c: `struct http_response`. A block that ends in a NUL is kept without it. `none` as a result
-- is undefined behaviour: a block freed twice, or read where it is not live or past its end.
-- Assertions are those of a build with NDEBUG, which has none. `malloc` succeeds.
pub mod Valid
pub mod Render
pub mod Framing
mod Tests
use h_ss.Prelude.{
  nth, ℕ, zero, suc, ◌+◌, Bool, true, false, not, List, [], ◌∷◌, ◌++◌, Option, none, some,
  if◌then◌else◌, ◌==◌, ltb, Bytes, codes, length, take, drop, c_str, strlen,
}
use mathlib.Core.Option
use h_ss.Errors.{ErrorCode, insufficient_buffer_size, succeed}
use h_ss.Headers.{Header, Headers, set_header}
use h_ss.Request.{Body, destroy_body}
use h_ss.Decimal.{decimal, format_03d}

-- What `free` leaves in a variable is `dangling`.
pub data Pointer : Type 0 where
  null : Pointer
  live : Bytes → Pointer
  dangling : Pointer

pub record StateLine : Type 0 where
  pub code : ℕ
  pub description : Pointer
  pub description_length : ℕ

pub record Response : Type 0 where
  pub state_line : StateLine
  pub headers : Headers
  pub body : Body

-- `enum http_response_code`
abbrev pub http_ok : ℕ
http_ok = 0

abbrev pub http_no_content : ℕ
http_no_content = 1

abbrev pub http_partial_content : ℕ
http_partial_content = 2

abbrev pub http_moved_permanently : ℕ
http_moved_permanently = 3

abbrev pub http_bad_request : ℕ
http_bad_request = 4

abbrev pub http_forbidden : ℕ
http_forbidden = 5

abbrev pub http_not_found : ℕ
http_not_found = 6

abbrev pub http_internal_server_error : ℕ
http_internal_server_error = 7

abbrev pub http_not_implemented : ℕ
http_not_implemented = 8

abbrev pub http_version_not_supported : ℕ
http_version_not_supported = 9

abbrev pub http_response_code_max : ℕ
http_response_code_max = 10

-- The code is left as it was.
unfoldable pub http_response_initialize : Response → Response
http_response_initialize r = record {
  state_line = record r.state_line { description = null; description_length = 0 };
  headers = [];
  body = record { body = none; length = 0 };
}

abbrev pub descriptions : List Bytes
descriptions =
    codes "OK"
    ∷ codes "No Content"
    ∷ codes "Partial Content"
    ∷ codes "Moved Permanently"
    ∷ codes "Bad Request"
    ∷ codes "Forbidden"
    ∷ codes "Not Found"
    ∷ codes "Internal Server Error"
    ∷ codes "Not Implemented"
    ∷ codes "HTTP Version Not Supported"
    ∷ []

abbrev pub state_codes : List Bytes
state_codes =
    codes "200"
    ∷ codes "204"
    ∷ codes "206"
    ∷ codes "301"
    ∷ codes "400"
    ∷ codes "403"
    ∷ codes "404"
    ∷ codes "500"
    ∷ codes "501"
    ∷ codes "505"
    ∷ []

-- The code is unsigned, so `code < 0` is never true; the table has `http_response_code_max` rows.
unfoldable pub get_default_description : ℕ → Option Bytes
get_default_description code = nth descriptions code

unfoldable pub get_representative_state_code : ℕ → Bytes
get_representative_state_code code = elim (nth state_codes code) [
  | none ↦ format_03d code
  | some s ↦ s
]

-- `if (description != NULL) { free(description); description_length = 0; }`
unfoldable pub free_description : StateLine → Option StateLine
free_description s = elim s.description [
  | null ↦ some s
  | live _ ↦ some (record s { description = dangling; description_length = 0 })
  | dangling ↦ none
]

-- The description given, or the default one.
abbrev pub choose_description : ℕ → Option Bytes → Option Bytes
choose_description code none = get_default_description code
choose_description code (some d) = some d

-- `strcpy` into a block of `strlen + 1` bytes.
abbrev pub describe : StateLine → Option Bytes → StateLine
describe s none = s
describe s (some d) = record s { description = live (c_str d); description_length = strlen d }

unfoldable pub http_response_set_code : Response → ℕ → Option Bytes → Option Response
http_response_set_code r code description = elim (free_description r.state_line) [
  | none ↦ none
  | some s ↦ some (record r {
    state_line = describe (record s { code = code }) (choose_description code description);
  })
]

unfoldable pub http_response_set_header : Response → Bytes → Bytes → Response
http_response_set_header r key value = record r { headers = set_header r.headers key value }

abbrev pub content_length : Bytes
content_length = codes "Content-Length"

abbrev pub length_of_body : Bytes → Option ℕ → ℕ
length_of_body body none = strlen body
length_of_body body (some n) = n

-- `memcpy` of that many bytes of the block `body`.
unfoldable pub http_response_set_body : Response → Bytes → Option ℕ → Option Response
http_response_set_body r body n =
    let size = length_of_body body n in
    let cleared = record r { body = destroy_body r.body } in
    if ltb (length body) size
    then none
    else some (
        http_response_set_header
          (record cleared { body = record { body = some (take size body); length = size } })
          content_length (decimal size))

abbrev pub http_version : Bytes
http_version = codes "HTTP/1.1"

unfoldable pub measure_headers : Headers → ℕ
measure_headers [] = 0
measure_headers (h ∷ hs) = strlen h.key + strlen h.value + 4 + measure_headers hs

unfoldable pub measure_response_size : Response → ℕ
measure_response_size r =
    (if r.state_line.description_length == 0
      then 8 + 3 + 3
      else 8 + 3 + r.state_line.description_length + 4)
    + measure_headers r.headers
    + 2
    + r.body.length

-- `memcpy` out of a block: `none` past its end.
abbrev pub read_block : Bytes → ℕ → Option Bytes
read_block b n = if ltb (length b) n then none else some (take n b)

abbrev pub read_pointer : Pointer → ℕ → Option Bytes
read_pointer (live d) n = read_block (d ++ (0 ∷ [])) n
read_pointer _ n = none

abbrev pub read_body : Option Bytes → ℕ → Option Bytes
read_body (some b) n = read_block b n
read_body none zero = some []
read_body none (suc n) = none

-- ` <description>`, if it is not empty.
unfoldable pub render_description : StateLine → Option Bytes
render_description s =
    if s.description_length == 0
    then some []
    else Option.map (λ d. b' ' ∷ d) (read_pointer s.description s.description_length)

unfoldable pub render_headers : Headers → Bytes
render_headers [] = []
render_headers (h ∷ hs) =
    c_str h.key ++ (codes ": " ++ (c_str h.value ++ (13 ∷ 10 ∷ render_headers hs)))

-- The calls of `copy_and_advance`, in order.
unfoldable pub render_bytes : Response → Option Bytes
render_bytes r = elim (render_description r.state_line) [
  | none ↦ none
  | some description ↦ elim (read_body r.body.body r.body.length) [
    | none ↦ none
    | some body ↦ some (
        http_version
        ++ (b' '
            ∷ (take 3 (get_representative_state_code r.state_line.code)
                ++ (description ++ (13 ∷ 10 ∷ (render_headers r.headers ++ (13 ∷ 10 ∷ body)))))))
  ]
]

pub record Rendered : Type 0 where
  pub response : Response
  pub code : ErrorCode
  pub length_out : ℕ
  pub buffer : Option Bytes

-- The header that is added when the body is empty.
unfoldable pub complete : Response → Response
complete r = if r.body.length == 0 then http_response_set_header r content_length (codes "0") else r

-- The bytes go over the front of the block; `none` also where they do not fit it.
abbrev pub write_front : Bytes → Bytes → Option Bytes
write_front block out =
    if ltb (length block) (length out) then none else some (out ++ drop (length out) block)

unfoldable pub http_response_render : Response → Option Bytes → ℕ → Option Rendered
http_response_render r none n =
    let r' = complete r in
    some (record {
      response = r';
      code = succeed;
      length_out = measure_response_size r';
      buffer = none;
    })
http_response_render r (some block) n =
    let r' = complete r in
    let size = measure_response_size r' in
    if ltb n size
    then some (record {
      response = r';
      code = insufficient_buffer_size;
      length_out = size;
      buffer = some block;
    })
    else elim (render_bytes r') [
      | none ↦ none
      | some out ↦ elim (write_front block out) [
        | none ↦ none
        | some written ↦
            some
              (record { response = r'; code = succeed; length_out = size; buffer = some written })
      ]
    ]

unfoldable pub free_pointer : Pointer → Option Pointer
free_pointer null = some null
free_pointer (live _) = some dangling
free_pointer dangling = none

unfoldable pub http_response_destroy : Response → Option Response
http_response_destroy r = elim (free_pointer r.state_line.description) [
  | none ↦ none
  | some _ ↦ some (http_response_initialize (record r { headers = []; body = destroy_body r.body }))
]
