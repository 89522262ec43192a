-- ===== src/Request/Query.antt =====
-- The queries of a parsed request, and the server's two-call use of them. A buffer argument is the
-- block it points to, or `none` for NULL; `*length` goes in and comes out as a number. `none` as a
-- result is a read through a NULL pointer.
use h_ss.Prelude.{
  ℕ, ◌+◌, ◌≤◌, ◌≡◌, refl, ap, ◌∙◌, Bool, true, false, [], ◌∷◌, ◌++◌, Option, none, some, arith,
  Bytes, length, drop, c_str, strlen, ltb, if◌then◌else◌, Option-cases, length-append, append-nil,
  inl, inr, length-drop,
}
use h_ss.Errors.{
  ErrorCode, request_no_valid_data, insufficient_buffer_size, no_such_header, succeed,
}
use h_ss.Headers
use h_ss.Headers.Lookup.{find, get-find}
use h_ss.Request.{Request, RequestState, Method, parsed}
use h_ss.Request.State.{IsValid}

pub record Copy : Type 0 where
  pub code : ErrorCode
  pub length_out : ℕ
  pub buffer : Option Bytes

abbrev pub is_parsed : RequestState → Bool
is_parsed parsed = true
is_parsed _ = false

-- `none` is an error code, and `some` the method that is returned in its place.
unfoldable pub http_request_get_method : Request → Option Method
http_request_get_method r = if is_parsed r.state then some r.start_line.method else none

-- `strcpy`: the string and its NUL over the front of the block.
abbrev pub strcpy : Bytes → Bytes → Bytes
strcpy block s = (c_str s ++ (0 ∷ [])) ++ drop (strlen s + 1) block

-- The common end of the two queries: `s` is copied if `length` has room for `n` bytes and a NUL.
unfoldable pub copy_out : Bytes → ℕ → Option Bytes → ℕ → Copy
copy_out s n none length = record { code = succeed; length_out = n + 1; buffer = none }
copy_out s n (some block) length =
    if ltb length (n + 1)
    then record { code = insufficient_buffer_size; length_out = n + 1; buffer = some block }
    else record { code = succeed; length_out = n; buffer = some (strcpy block s) }

abbrev pub refuse : ErrorCode → Option Bytes → ℕ → Copy
refuse e buffer length = record { code = e; length_out = length; buffer = buffer }

unfoldable pub http_request_get_url : Request → Option Bytes → ℕ → Option Copy
http_request_get_url r buffer length =
    if is_parsed r.state
    then elim r.start_line.url [
      | none ↦ none
      | some url ↦ some (copy_out url r.start_line.url_length buffer length)
    ]
    else some (refuse request_no_valid_data buffer length)

unfoldable pub http_request_get_header : Request → Bytes → Option Bytes → ℕ → Copy
http_request_get_header r name buffer length =
    if is_parsed r.state
    then elim (Headers.get r.headers name) [
      | none ↦ refuse no_such_header buffer length
      | some value ↦ copy_out value (strlen value) buffer length
    ]
    else refuse request_no_valid_data buffer length

-- server.c: `get_request_header`. `malloc n` is the block that the call hands out; the length that
-- goes into the first call is whatever the variable holds.
unfoldable pub get_request_header : (ℕ → Bytes) → ℕ → Request → Bytes → Option Bytes
get_request_header malloc garbage r name =
    let first = http_request_get_header r name none garbage in
    elim first.code [
      | succeed ↦
          (http_request_get_header r name (some (malloc first.length_out)) first.length_out).buffer
      | _ ↦ none
    ]

-- The block of a string.
abbrev pub block_of : Bytes → Bytes
block_of s = c_str s ++ (0 ∷ [])

length-nil : (b : Bytes) → length b ≡ 0 → b ≡ []
length-nil [] e = refl
length-nil (c ∷ b) e = absurd (omega arith)

-- A copy into a block of just the size asked for fills it exactly.
strcpy-exact : (block s : Bytes) → length block ≡ strlen s + 1 → strcpy block s ≡ block_of s
strcpy-exact block s e =
    ap (λ t. block_of s ++ t)
      (length-nil (drop (strlen s + 1) block) (omega (arith, length-drop (strlen s + 1) block)))
    ∙ append-nil (block_of s)

-- The server's helper returns the value of the header in a block of its own, and NULL exactly when
-- the request has no such header: asking for the length first always leaves room for the copy.
pub get_request_header-find :
    (malloc : ℕ → Bytes) (garbage : ℕ) (r : Request) (name : Bytes)
    → ((n : ℕ) → length (malloc n) ≡ n)
    → IsValid r
    → r.state ≡ parsed
    → get_request_header malloc garbage r name
      ≡ elim (find r.headers name) [ none ↦ none | some v ↦ some (block_of v) ]
unfolding get_request_header http_request_get_header copy_out
get_request_header-find malloc garbage r name sized v p =
    elim (Option-cases (find r.headers name)) [
      | inl e ↦ ground (arith, get-find r.headers name v.sorted)
      | inr (val, e) ↦ ground (
        arith,
        get-find r.headers name v.sorted,
        strcpy-exact (malloc (strlen val + 1)) val (sized (strlen val + 1)),
      )
    ]

length-c_str : (s : Bytes) → length (c_str s) ≤ length s
unfolding c_str
length-c_str [] = omega arith
length-c_str (c ∷ s) = ground (arith, length-c_str s)

-- The URL of a parsed request. A call without a buffer tells the size that is needed; a buffer
-- that is told to be smaller is left alone and the size is told; any other buffer gets the string
-- and its NUL at its front, which are no more bytes than that size, and keeps its other bytes.
pub get_url-fits :
    (r : Request) (url block : Bytes) (length_in : ℕ)
    → IsValid r
    → r.state ≡ parsed
    → r.start_line.url ≡ some url
    → (http_request_get_url r none length_in
        ≡ some (record { code = succeed; length_out = length url + 1; buffer = none }))
      × (http_request_get_url r (some block) length_in
          ≡ some (
              if ltb length_in (length url + 1)
              then record {
                code = insufficient_buffer_size;
                length_out = length url + 1;
                buffer = some block;
              }
              else record {
                code = succeed;
                length_out = length url;
                buffer = some (strcpy block url);
              }))
      × (length (block_of url) ≤ length url + 1)
unfolding http_request_get_url copy_out
get_url-fits r url block n v p u =
    let size : r.start_line.url_length ≡ length url = (rw u at (v.url_held p)).0 in
    (
      ground arith,
      ground arith,
      omega (arith, length-append (c_str url) (0 ∷ []), length-c_str url),
    )
