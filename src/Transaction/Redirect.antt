-- ===== src/Transaction/Redirect.antt =====
-- server.c: requests on a plain TCP connection.
use mathlib.Core.Option
use h_ss.Prelude.{
  ℕ, sym, Option, ◌+◌, ◌≤◌, ◌<◌, ◌≡◌, refl, ap, ◌∙◌, inl, inr, arith, false, [], ◌∷◌, ◌++◌, none,
  some, ◌==◌, ltb, Bytes, codes, length, drop, c_str, strlen, length-append, Bool-cases,
}
use h_ss.Decimal.{decimal, digits}
use h_ss.Headers.Lookup.{find, find-set_header}
use h_ss.Request.{Request, parsed}
use h_ss.Request.State.{IsValid}
use h_ss.Request.Query.{get_url-fits, strcpy}
use h_ss.Response.{
  Response, StateLine, describe, choose_description, free_description, http_response_set_code,
  get_representative_state_code, http_moved_permanently, http_response_set_header,
}
use h_ss.Response.Framing.{same_self}
use h_ss.Response.Valid
use h_ss.Response.Valid.{NotDangling, set_code-IsValid}
use h_ss.Descriptors.{tcp_socket}
use h_ss.Statics.{ok, Statics}
use h_ss.Transaction.{
  World, get_url, redirect, route, location, https_port, inet6_addrstrlen, handle_http_transaction,
}

c_str-block : (s b : Bytes) → c_str ((c_str s ++ (0 ∷ [])) ++ b) ≡ c_str s
unfolding c_str
c_str-block [] b = refl
c_str-block (c ∷ s) b = elim (Bool-cases (c == 0)) [
  | inl e ↦ rw e refl
  | inr e ↦ rw (e, e) (ap (λ t. c ∷ t) (c_str-block s b))
]

pub c_str-strcpy : (block s : Bytes) → c_str (strcpy block s) ≡ c_str s
c_str-strcpy block s = c_str-block s (drop (strlen s + 1) block)

length-c_str : (s : Bytes) → length (c_str s) ≤ length s
unfolding c_str
length-c_str [] = omega arith
length-c_str (c ∷ s) = ground (arith, length-c_str s)

-- The URL that the transaction works on is the one of the request.
pub get_url_lem :
    (w : World) (request : Request) (url : Bytes)
    → IsValid request
    → request.state ≡ parsed
    → request.start_line.url ≡ some url
    → get_url w request ≡ some (strcpy (w.malloc (length url + 1)) url, length url)
unfolding get_url
get_url_lem w request url v p u =
    let fits = get_url-fits request url (w.malloc (length url + 1)) w.garbage v p u in
    let again = get_url-fits request url (w.malloc (length url + 1)) (length url + 1) v p u in
    let room : ltb (length url + 1) (length url + 1) ≡ false = ground arith in
    rw (fits.0, again.1, room, get_url) refl

port_digits : length (decimal https_port) ≡ 3
unfolding decimal digits
port_digits = refl

location_lem :
    (w : World) (url : Bytes)
    → location w url ≡ codes "https://" ++ (c_str w.own_address ++ (codes ":443" ++ url))
unfolding decimal digits
location_lem w url = refl

moved_code : get_representative_state_code http_moved_permanently ≡ codes "301"
unfolding get_representative_state_code
moved_code = refl

set_code-code :
    (r t : Response) (code : ℕ) (description : Option Bytes)
    → http_response_set_code r code description ≡ some t
    → t.state_line.code ≡ code
unfolding http_response_set_code
set_code-code r t code description e = by_freed (free_description r.state_line) e
  where
    described :
        (l : StateLine) (d : Option Bytes) → (describe (record l { code = code }) d).code ≡ code
    described l none = refl
    described l (some d) = refl

    by_freed :
        (o : Option StateLine)
        → (elim o as (λ _. Option Response) [
          | none ↦ none
          | some l ↦ some (record r {
            state_line = describe (record l { code = code }) (choose_description code description);
          })
        ])
          ≡ some t
        → t.state_line.code ≡ code
    by_freed none e = cc
    by_freed (some l) e =
        ap (λ (x : Response). x.state_line.code) (sym (Option.some-injective _ t e))
        ∙ described l (choose_description code description)

location-bound :
    (w : World) (url : Bytes)
    → length (c_str w.own_address) < 46
    → length (location w url) + 1 ≤ 61 + length url
location-bound w url h = omega (
  arith,
  length-append (c_str w.own_address) (58 ∷ (decimal https_port ++ url)),
  length-append (decimal https_port) url,
  port_digits,
)

-- A request on a plain TCP connection, with a usable response and an address of the socket that fits
-- its array, is answered with the state code 301, and a `Location` that is `https://`, the address, the
-- port 443 and the URL of the request, whatever files there are. It fits the array that it is printed
-- into.
pub transaction-redirect :
    (w : World) (s : Statics) (request : Request) (response : Response) (url : Bytes)
    → IsValid request
    → request.state ≡ parsed
    → request.start_line.url ≡ some url
    → Valid.IsValid response
    → NotDangling response.state_line.description
    → length (c_str w.own_address) < 46
    → (r : Response) × (handle_http_transaction w tcp_socket s request response ≡ ok (s, r))
      × (get_representative_state_code r.state_line.code ≡ codes "301")
      × (find r.headers (codes "Location")
          ≡ some (c_str (codes "https://" ++ (c_str w.own_address ++ (codes ":443" ++ c_str url)))))
unfolding handle_http_transaction route redirect http_response_set_header
transaction-redirect w s request response url v p u rv nd short =
    let block = strcpy (w.malloc (length url + 1)) url in
    let (r, made, valid, usable, same_headers, same_body) =
      set_code-IsValid response http_moved_permanently none rv nd (inl (omega arith)) in
    let same_url : c_str block ≡ c_str url = c_str-strcpy (w.malloc (length url + 1)) url in
    let room : ltb (inet6_addrstrlen + length url + 15) (length (location w (c_str url)) + 1)
        ≡ false =
      ground (arith, location-bound w (c_str url) short, length-c_str url) in
    (
      http_response_set_header r (codes "Location") (location w (c_str url)),
      rw (get_url_lem w request url v p u, same_url, made, room, handle_http_transaction) refl,
      ap get_representative_state_code (set_code-code response r http_moved_permanently none made)
          ∙ moved_code,
      find-set_header r.headers (codes "Location") (location w (c_str url)) (codes "Location")
            valid.sorted
          ∙ rw (same_self (codes "Location")) refl
          ∙ ap (λ l. some (c_str l)) (location_lem w (c_str url)),
    )
