-- ===== src/Request.antt =====
-- http.c: `struct http_request`, its state and its parser. A cursor into the buffer is the part of
-- the buffer that starts there, so `end == length` is the empty list; `start` to `end` is the token
-- that a loop has run over. A read at or behind `length` is a `fault`. `malloc` succeeds.
mod Tokens
mod Fields
mod Grammar
mod Accepts
pub mod State
mod Lines
mod Names
mod Methods
mod Sound
mod Language
pub mod Query
mod Tests
use h_ss.Prelude.{
  ℕ, zero, suc, ◌+◌, Bool, true, false, not, ◌&&◌, ◌||◌, List, [], ◌∷◌, ◌++◌, Option, none, some,
  if◌then◌else◌, ◌==◌, Bytes, codes, isspace, length, drop, reverse,
}
use h_ss.Errors.{
  ErrorCode, parse_invalid_request_syntax, incomplete_request, unsupported_method,
  duplicate_header_key,
}
use h_ss.Headers.{Header, Headers, insert_header}

pub data RequestState : Type 0 where
  initialized parsed invalid : RequestState

-- `enum http_request_method`
pub data Method : Type 0 where
  get : Method

pub record Body : Type 0 where
  pub body : Option Bytes
  pub length : ℕ

-- A pointer is `none` when it is NULL.
pub record StartLine : Type 0 where
  pub method : Method
  pub http_version : Option Bytes
  pub http_version_length : ℕ
  pub url : Option Bytes
  pub url_length : ℕ

pub record Request : Type 0 where
  pub state : RequestState
  pub start_line : StartLine
  pub headers : Headers
  pub body : Body

unfoldable pub http_request_initialize : Request → Request
http_request_initialize r = record {
  headers = [];
  start_line = record r.start_line {
    http_version = none;
    http_version_length = 0;
    url = none;
    url_length = 0;
  };
  body = record { body = none; length = 0 };
  state = initialized;
}

abbrev pub is_initialized : RequestState → Bool
is_initialized initialized = true
is_initialized _ = false

unfoldable pub destroy_body : Body → Body
destroy_body b = record { body = none; length = 0 }

unfoldable pub http_request_destroy : Request → Request
unfolding http_request_initialize destroy_body
http_request_destroy r =
    if is_initialized r.state
    then r
    else http_request_initialize (record r { headers = []; body = destroy_body r.body })

-- What a stretch of the parser comes to: it goes on, it returns an error code and leaves the
-- destination as given, it reads outside the buffer, or a loop ran out of the model's fuel.
pub data Parse {ℓ} (A : Type ℓ) : Type ℓ where
  ok : A → Parse A
  stop : ErrorCode → Request → Parse A
  fault : Parse A
  out_of_fuel : Parse A

infixl 5 ◌>>=◌
abbrev pub ◌>>=◌ {ℓ κ} : {A : Type ℓ} {B : Type κ} → Parse A → (A → Parse B) → Parse B
ok a >>= f = f a
stop e r >>= f = stop e r
fault >>= f = fault
out_of_fuel >>= f = out_of_fuel

abbrev pub trigger_incomplete {ℓ} : {A : Type ℓ} → Request → Parse A
trigger_incomplete r = stop incomplete_request (record r { state = invalid })

abbrev pub trigger_invalid {ℓ} : {A : Type ℓ} → Request → Parse A
trigger_invalid r = stop parse_invalid_request_syntax (record r { state = invalid })

-- `while (isspace(buffer[end])) if (++end == length) trigger_incomplete`: the first read is made
-- even at `end == length`.
unfoldable pub skip_whitespaces : Request → Bytes → Parse Bytes
skip_whitespaces r [] = fault
skip_whitespaces r (c ∷ []) = if isspace c then trigger_incomplete r else ok (c ∷ [])
skip_whitespaces r (c ∷ d ∷ cs) =
    let rest = skip_whitespaces r (d ∷ cs) in if isspace c then rest else ok (c ∷ d ∷ cs)

-- `while (end < length && !isspace(buffer[end])) end++`: the token and what follows it.
unfoldable pub range_non_blank : Bytes → Bytes × Bytes
range_non_blank [] = ([], [])
range_non_blank (c ∷ cs) =
    let (token, rest) = range_non_blank cs in if isspace c then ([], c ∷ cs) else (c ∷ token, rest)

-- The bytes before the next CRLF, and those from the CRLF on; `none` at the end of the buffer.
unfoldable pub until_crlf : Bytes → Option (Bytes × Bytes)
until_crlf [] = none
until_crlf (c ∷ []) = none
until_crlf (c ∷ d ∷ cs) =
    let rest = until_crlf (d ∷ cs) in
    if c == 13 && d == 10
    then some ([], c ∷ d ∷ cs)
    else elim rest [ none ↦ none | some (line, tail) ↦ some (c ∷ line, tail) ]

unfoldable pub range_line : Request → Bytes → Parse (Bytes × Bytes)
unfolding until_crlf
range_line r rest = elim (until_crlf rest) [ none ↦ trigger_incomplete r | some p ↦ ok p ]

-- `strncmp(a, b, n) == 0`; a block ends in a NUL behind its last byte.
unfoldable pub strncmp_eq : Bytes → Bytes → ℕ → Bool
strncmp_eq a b zero = true
strncmp_eq [] [] (suc n) = true
strncmp_eq [] (y ∷ b) (suc n) = y == 0
strncmp_eq (x ∷ a) [] (suc n) = x == 0
strncmp_eq (x ∷ a) (y ∷ b) (suc n) = let rest = strncmp_eq a b n in x == y && (x == 0 || rest)

-- Where `strchr(s, ':')` ends: at a colon behind the given bytes, at a NUL, or outside the buffer.
pub data Colon : Type 0 where
  found : Bytes → Colon
  absent overrun : Colon

abbrev pub behind : ℕ → Colon → Colon
behind c (found key) = found (c ∷ key)
behind c absent = absent
behind c overrun = overrun

unfoldable pub strchr_colon : Bytes → Colon
strchr_colon [] = overrun
strchr_colon (c ∷ cs) =
    let rest = behind c (strchr_colon cs) in
    if c == b':' then found [] else if c == 0 then absent else rest

-- `for (c = start; c < colon; c++) if (isspace(*c))`
unfoldable pub any_space : Bytes → Bool
any_space [] = false
any_space (c ∷ cs) = isspace c || any_space cs

unfoldable pub trim_start : Bytes → Bytes
trim_start [] = []
trim_start (c ∷ cs) = if isspace c then trim_start cs else c ∷ cs

-- The same from the back, as `value_end` moves.
unfoldable pub trim_end : Bytes → Bytes
unfolding trim_start
trim_end v = reverse (trim_start (reverse v))

-- `insert_header` and the early return on a duplicate.
unfoldable pub add_header : Request → Header → Parse Request
add_header r h = elim (insert_header r.headers h) [
  | none ↦ stop duplicate_header_key (record r { state = invalid })
  | some hs ↦ ok (record r { headers = hs })
]

unfoldable pub store_value : Request → Bytes → Bytes → Parse Request
store_value r key [] = trigger_invalid r
store_value r key (c ∷ cs) = add_header r (record { key = key; value = c ∷ cs })

-- One header line: `line` is `start` to `end`, and `rest` is the buffer from `start` on, which is
-- where `strchr` looks.
unfoldable pub parse_header : Request → Bytes → Bytes → Parse Request
parse_header r line rest = elim (strchr_colon rest) [
  | overrun ↦ fault
  | absent ↦ trigger_invalid r
  | found key ↦
      if any_space key
      then trigger_invalid r
      else store_value r key (trim_end (trim_start (drop (length key + 1) line)))
]

-- The loop over the header lines.
unfoldable pub parse_headers : ℕ → Request → Bytes → Parse (Request × Bytes)
parse_headers zero r rest = out_of_fuel
parse_headers (suc fuel) r rest = do
  (line, crlf) ← range_line r rest
  elim line [
    | [] ↦ ok (r, drop 2 crlf)
    | c ∷ cs ↦ parse_header r (c ∷ cs) rest >>= λ r'. parse_headers fuel r' (drop 2 crlf)
  ]

abbrev pub with_url : Request → Bytes → Request
with_url r url = record r {
  start_line = record r.start_line { url = some url; url_length = length url };
}

abbrev pub with_version : Request → Bytes → Request
with_version r v = record r {
  start_line = record r.start_line { http_version = some v; http_version_length = length v };
}

abbrev pub with_method : Request → Request
with_method r = record r { start_line = record r.start_line { method = get } }

-- METHOD and the blanks behind it.
unfoldable pub parse_method : Request → Bytes → Parse (Request × Bytes)
parse_method r buffer =
    let (method, rest) = range_non_blank buffer in
    if strncmp_eq (codes "GET") buffer (length method)
    then skip_whitespaces (with_method r) rest >>= (λ rest₁. ok (with_method r, rest₁))
    else stop unsupported_method r

-- A token must not be empty.
unfoldable pub take_token : Request → Bytes × Bytes → Parse (Bytes × Bytes)
take_token r ([], rest) = trigger_incomplete r
take_token r (c ∷ cs, rest) = ok (c ∷ cs, rest)

unfoldable pub parse_token : Request → Bytes → Parse (Bytes × Bytes)
parse_token r buffer = take_token r (range_non_blank buffer)

-- The CRLF behind the start line.
unfoldable pub expect_crlf : Request → Bytes → Parse Bytes
expect_crlf r [] = trigger_incomplete r
expect_crlf r (c ∷ []) = trigger_incomplete r
expect_crlf r (c ∷ d ∷ cs) = if c == 13 && d == 10 then ok cs else trigger_invalid r

unfoldable pub parse_start_line : Request → Bytes → Parse (Request × Bytes)
parse_start_line r buffer = do
  (r₁, rest) ← parse_method r buffer
  (url, rest₁) ← parse_token r₁ rest
  let r₂ = with_url r₁ url
  rest₂ ← skip_whitespaces r₂ rest₁
  (version, rest₃) ← parse_token r₂ rest₂
  let r₃ = with_version r₂ version
  rest₄ ← expect_crlf r₃ rest₃
  ok (r₃, rest₄)

-- No body: the headers must end the buffer.
unfoldable pub finish : Request × Bytes → Parse Request
finish (r, []) = ok (record r { state = parsed })
finish (r, c ∷ cs) = trigger_invalid r

-- A structure that `http_request_initialize` has filled in.
abbrev pub cleared : Request
cleared = record {
  state = initialized;
  start_line = record {
    method = get;
    http_version = none;
    http_version_length = 0;
    url = none;
    url_length = 0;
  };
  headers = [];
  body = record { body = none; length = 0 };
}

unfoldable pub http_request_from_buffer : Request → Bytes → Parse Request
http_request_from_buffer destination buffer = do
  (r, rest) ← parse_start_line (http_request_destroy destination) buffer
  done ← parse_headers (length rest + 1) r rest
  finish done
