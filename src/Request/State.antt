-- ===== src/Request/State.antt =====
-- The life of a request structure: what every call leaves behind, and reuse of the structure.
use h_ss.Prelude.{
  ℕ, zero, suc, ◌+◌, ◌<◌, ◌≡◌, ◌≢◌, ◌⊎◌, refl, inl, inr, ap, [], ◌∷◌, Option, none, some, arith,
  Bytes, length, length-append, Option-cases, Bool-cases, isspace, ◌==◌, ◌&&◌, codes,
}
use h_ss.Errors.{
  ErrorCode, unsupported_method, incomplete_request, parse_invalid_request_syntax,
  duplicate_header_key,
}
use h_ss.Headers.{Header, insert_header}
use h_ss.Headers.Lookup.{IsSorted, insert_header-IsSorted}
use h_ss.Request.{
  Request, RequestState, initialized, parsed, invalid, Method, Parse, ok, stop, fault, out_of_fuel,
  ◌>>=◌, cleared, http_request_initialize, http_request_destroy, destroy_body,
  http_request_from_buffer, parse_headers, parse_header, range_line, parse_method, parse_token,
  take_token, strncmp_eq, range_non_blank, parse_start_line, expect_crlf, skip_whitespaces,
  until_crlf, with_method, with_url, with_version, store_value, add_header, finish, strchr_colon,
  Colon, found, absent, overrun, any_space,
}
use h_ss.Request.Tokens.{until_crlf_sound}

-- `start_line` holds a URL and a version with their lengths.
abbrev pub Holds : Option Bytes → ℕ → Type 0
Holds none n = ⊥
Holds (some u) n = (n ≡ length u) × (u ≢ [])

pub record IsValid (r : Request) : Type 0 where
  pub sorted : IsSorted r.headers
  pub clear : r.state ≡ initialized → r ≡ cleared
  pub url_held : r.state ≡ parsed → Holds r.start_line.url r.start_line.url_length
  pub version_held :
      r.state ≡ parsed → Holds r.start_line.http_version r.start_line.http_version_length

pub initialize-cleared : (r : Request) → http_request_initialize r ≡ cleared
unfolding http_request_initialize
initialize-cleared r = go r.start_line.method
  where
    go :
        (m : Method)
        → http_request_initialize (record r { start_line = record r.start_line { method = m } })
          ≡ cleared
    go Method.get = refl

-- Destroying a request, whatever happened to it before, makes it as good as a new one.
pub destroy-cleared : (r : Request) → IsValid r → http_request_destroy r ≡ cleared
unfolding http_request_destroy
destroy-cleared r v = go r.state refl
  where
    go : (s : RequestState) → r.state ≡ s → http_request_destroy r ≡ cleared
    go initialized e = ground (arith, v.clear e)
    go parsed e =
        ground (arith, initialize-cleared (record r { headers = []; body = destroy_body r.body }))
    go invalid e =
        ground (arith, initialize-cleared (record r { headers = []; body = destroy_body r.body }))

pub cleared-IsValid : IsValid cleared
cleared-IsValid = record {
  sorted = tt;
  clear = λ e. refl;
  url_held = λ e. cc;
  version_held = λ e. cc;
}

-- The result of a parse depends on the buffer alone: no state of an earlier request leaks in.
pub from_buffer-reuse :
    (r : Request) (buffer : Bytes)
    → IsValid r
    → http_request_from_buffer r buffer ≡ http_request_from_buffer cleared buffer
unfolding http_request_from_buffer
from_buffer-reuse r buffer v = rw (destroy-cleared r v, destroy-cleared cleared cleared-IsValid)

-- What an early return leaves: an invalid request, or, for another method, an untouched one.
abbrev pub Ends : ErrorCode → Request → Type 0
Ends e r = IsValid r × ((r.state ≡ invalid) ⊎ ((e ≡ unsupported_method) × (r ≡ cleared)))

-- A stretch of the parser does not run out of fuel, and each of its other ends is as it should be.
abbrev pub Ensures {ℓ} : {A : Type ℓ} → (A → Type 0) → Parse A → Type 0
Ensures P (ok a) = P a
Ensures P (stop e r) = Ends e r
Ensures P fault = Unit
Ensures P out_of_fuel = ⊥

Ensures-bind {ℓ κ} :
    {A : Type ℓ} {B : Type κ} (P : A → Type 0) (Q : B → Type 0) (m : Parse A) (f : A → Parse B)
    → Ensures P m
    → ((a : A) → P a → Ensures Q (f a))
    → Ensures Q (m >>= f)
Ensures-bind P Q (ok a) f h k = k a h
Ensures-bind P Q (stop e r) f h k = h
Ensures-bind P Q fault f h k = tt
Ensures-bind P Q out_of_fuel f h k = h

invalid-Ends :
    (e : ErrorCode) (r : Request) → IsSorted r.headers → Ends e (record r { state = invalid })
invalid-Ends e r s =
    (record { sorted = s; clear = λ x. cc; url_held = λ x. cc; version_held = λ x. cc }, inl refl)

skip_whitespaces-Ensures :
    (r : Request) (b : Bytes) → IsSorted r.headers → Ensures (λ _. Unit {0}) (skip_whitespaces r b)
unfolding skip_whitespaces
skip_whitespaces-Ensures r [] s = tt
skip_whitespaces-Ensures r (c ∷ []) s = elim (Bool-cases (isspace c)) [
  | inl t ↦ rw t (invalid-Ends incomplete_request r s)
  | inr t ↦ rw t tt
]
skip_whitespaces-Ensures r (c ∷ d ∷ b) s = elim (Bool-cases (isspace c)) [
  | inl t ↦ rw t (skip_whitespaces-Ensures r (d ∷ b) s)
  | inr t ↦ rw t tt
]

parse_method-Ensures :
    (b : Bytes) → Ensures (λ (p : Request × Bytes). IsSorted p.0.headers) (parse_method cleared b)
unfolding parse_method
parse_method-Ensures b =
    elim (Bool-cases (strncmp_eq (codes "GET") b (length (range_non_blank b).0))) [
      | inl t ↦ rw t (
          Ensures-bind (λ _. Unit {0}) _
            (skip_whitespaces (with_method cleared) (range_non_blank b).1) _
            (skip_whitespaces-Ensures (with_method cleared) _ tt) (λ a h. tt))
      | inr t ↦ rw t (cleared-IsValid, inr (refl, refl))
    ]

take_token-Ensures :
    (r : Request) (p : Bytes × Bytes)
    → IsSorted r.headers
    → Ensures (λ (q : Bytes × Bytes). q.0 ≢ []) (take_token r p)
unfolding take_token
take_token-Ensures r ([], rest) s = invalid-Ends incomplete_request r s
take_token-Ensures r (c ∷ t, rest) s = λ e. cc

expect_crlf-Ensures :
    (r : Request) (b : Bytes) → IsSorted r.headers → Ensures (λ _. Unit {0}) (expect_crlf r b)
unfolding expect_crlf
expect_crlf-Ensures r [] s = invalid-Ends incomplete_request r s
expect_crlf-Ensures r (c ∷ []) s = invalid-Ends incomplete_request r s
expect_crlf-Ensures r (c ∷ d ∷ b) s = elim (Bool-cases (c == 13 && d == 10)) [
  | inl t ↦ rw t tt
  | inr t ↦ rw t (invalid-Ends parse_invalid_request_syntax r s)
]

-- The start line's tokens are kept with their lengths.
abbrev pub IsLoaded : Request → Type 0
IsLoaded r =
    IsSorted r.headers
    × Holds r.start_line.url r.start_line.url_length
    × Holds r.start_line.http_version r.start_line.http_version_length

parse_start_line-Ensures :
    (b : Bytes) → Ensures (λ (p : Request × Bytes). IsLoaded p.0) (parse_start_line cleared b)
unfolding parse_start_line parse_token
parse_start_line-Ensures b =
    Ensures-bind _ _ (parse_method cleared b) _ (parse_method-Ensures b) λ (r, rest) s.
      Ensures-bind _ _ (take_token r (range_non_blank rest)) _ (take_token-Ensures r _ s)
        λ (url, rest₁) u.
          Ensures-bind _ _ (skip_whitespaces (with_url r url) rest₁) _
            (skip_whitespaces-Ensures (with_url r url) rest₁ s)
            λ rest₂ _.
              Ensures-bind _ _ (take_token (with_url r url) (range_non_blank rest₂)) _
                (take_token-Ensures (with_url r url) _ s)
                λ (v, rest₃) w.
                  Ensures-bind _ _ (expect_crlf (with_version (with_url r url) v) rest₃) _
                    (expect_crlf-Ensures (with_version (with_url r url) v) rest₃ s)
                    λ rest₄ _. (s, (refl, u), (refl, w))

add_header-Ensures : (r : Request) (h : Header) → IsLoaded r → Ensures IsLoaded (add_header r h)
unfolding add_header
add_header-Ensures r h s = elim (Option-cases (insert_header r.headers h)) [
  | inl e ↦ rw (e, add_header) (invalid-Ends duplicate_header_key r s.0)
  | inr (hs, e) ↦ rw (e, add_header) (insert_header-IsSorted r.headers h hs s.0 e, s.1, s.2)
]

store_value-Ensures :
    (r : Request) (key value : Bytes) → IsLoaded r → Ensures IsLoaded (store_value r key value)
unfolding store_value
store_value-Ensures r key [] s = invalid-Ends parse_invalid_request_syntax r s.0
store_value-Ensures r key (c ∷ value) s = add_header-Ensures r _ s

parse_header-Ensures :
    (r : Request) (line rest : Bytes) → IsLoaded r → Ensures IsLoaded (parse_header r line rest)
unfolding parse_header
parse_header-Ensures r line rest s = go (strchr_colon rest) refl
  where
    go : (c : Colon) → strchr_colon rest ≡ c → Ensures IsLoaded (parse_header r line rest)
    go overrun e = rw (e, parse_header) tt
    go absent e = rw (e, parse_header) (invalid-Ends parse_invalid_request_syntax r s.0)
    go (found key) e = elim (Bool-cases (any_space key)) [
      | inl t ↦ rw (e, parse_header) (rw t (invalid-Ends parse_invalid_request_syntax r s.0))
      | inr t ↦ rw (e, parse_header) (rw t (store_value-Ensures r key _ s))
    ]

parse_headers-Ensures :
    (fuel : ℕ) (r : Request) (rest : Bytes)
    → length rest < fuel
    → IsLoaded r
    → Ensures (λ (p : Request × Bytes). IsLoaded p.0) (parse_headers fuel r rest)
unfolding parse_headers range_line
parse_headers-Ensures zero r rest f s = absurd (omega arith)
parse_headers-Ensures (suc fuel) r rest f s = elim (Option-cases (until_crlf rest)) [
  | inl e ↦ rw (e, range_line) (invalid-Ends incomplete_request r s.0)
  | inr ((line, crlf), e) ↦
      let (rest', tail, split, one) = until_crlf_sound rest line crlf e in
      go (parse_headers-Ensures fuel) line crlf rest' e tail
        (ground (arith, ap length split, length-append line (13 ∷ 10 ∷ rest')))
]
  where
    go :
        ((q : Request) (b : Bytes)
          → length b < fuel
          → IsLoaded q
          → Ensures (λ (p : Request × Bytes). IsLoaded p.0) (parse_headers fuel q b))
        → (line crlf rest' : Bytes) → until_crlf rest ≡ some (line, crlf)
        → crlf ≡ 13 ∷ 10 ∷ rest'
        → length rest' < fuel
        → Ensures (λ (p : Request × Bytes). IsLoaded p.0) (parse_headers (suc fuel) r rest)
    go ih [] crlf rest' e tail shorter = rw (e, range_line) s
    go ih (c ∷ line) crlf rest' e tail shorter =
        rw (e, range_line)
          (Ensures-bind _ _ (parse_header r (c ∷ line) rest) _
            (parse_header-Ensures r (c ∷ line) rest s) λ r' s'. rw tail (ih r' rest' shorter s'))

finish-Ensures :
    (p : Request × Bytes) → IsLoaded p.0 → Ensures (λ r. (r.state ≡ parsed) × IsValid r) (finish p)
unfolding finish
finish-Ensures (r, []) s =
    (refl, record { sorted = s.0; clear = λ e. cc; url_held = λ e. s.1; version_held = λ e. s.2 })
finish-Ensures (r, c ∷ rest) s = invalid-Ends parse_invalid_request_syntax r s.0

-- Whatever the buffer and the request's past, the parser ends: it does not run out of fuel, and
-- unless it reads outside the buffer it leaves a valid request. The request is parsed when the
-- call succeeds. After an error it is invalid or, for a method other than GET, cleared.
pub from_buffer-Ensures :
    (r : Request) (buffer : Bytes)
    → IsValid r
    → Ensures (λ q. (q.state ≡ parsed) × IsValid q) (http_request_from_buffer r buffer)
unfolding http_request_from_buffer
from_buffer-Ensures r buffer v = rw (destroy-cleared r v) (
    Ensures-bind _ _ (parse_start_line cleared buffer) _ (parse_start_line-Ensures buffer)
      λ (q, rest) s.
        Ensures-bind _ _ (parse_headers (length rest + 1) q rest) _
          (parse_headers-Ensures (length rest + 1) q rest (omega arith) s)
          λ p s'. finish-Ensures p s')
