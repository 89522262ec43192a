-- ===== src/Request/Accepts.antt =====
-- Every message of the grammar is read as what it means.
use h_ss.Prelude.{
  ℕ, zero, suc, ◌+◌, ◌<◌, ◌≤◌, ◌≡◌, ◌≢◌, refl, inl, inr, ap, ◌∙◌, true, false, List, [], ◌∷◌, ◌++◌,
  some, arith, Bytes, codes, length, All, drop, Option-cases, append_assoc, length-append,
}
use h_ss.Headers.{Headers, insert_header}
use h_ss.Request.{
  Request, ok, parse_headers, parse_header, range_line, strncmp_eq, cleared, parse_method,
  parse_token, take_token, parse_start_line, expect_crlf, with_url, with_version, with_method,
  strchr_colon, any_space, trim_start, trim_end, found, store_value, add_header,
  http_request_from_buffer, http_request_destroy, finish,
}
use h_ss.Request.Tokens.{
  IsInk, IsToken, NoCrlf, Stops, Starts, range_non_blank-append, skip_whitespaces-append,
  until_crlf-append, strncmp_eq-append,
}
use h_ss.Request.Fields.{
  drop-key, isspace_cr, strchr_colon-append, any_space-key, trim_start-append, trim_end-append,
}
use h_ss.Request.Grammar
use h_ss.Request.Methods.{method_language}

Starts-append : (v rest : Bytes) → Starts v → Starts (v ++ rest)
Starts-append [] rest s = absurd s
Starts-append (c ∷ v) rest s = s

Stops-append : (gap rest : Bytes) → Grammar.IsGap gap → Stops (gap ++ rest)
Stops-append [] rest g = absurd (g.0 refl)
Stops-append (c ∷ gap) rest g = g.1.0

Starts-token : (t rest : Bytes) → IsToken t → Starts (t ++ rest)
Starts-token [] rest t = absurd (t.0 refl)
Starts-token (c ∷ t) rest h = h.1.0

store_value-some :
    (r : Request) (key value : Bytes) (hs : Headers)
    → Starts value
    → insert_header r.headers (record { key = key; value = value }) ≡ some hs
    → store_value r key value ≡ ok (record r { headers = hs })
unfolding store_value add_header
store_value-some r key [] hs s e = absurd s
store_value-some r key (c ∷ value) hs s e = rw (e, store_value, add_header)

parse_header-found :
    (r : Request) (line rest key : Bytes)
    → strchr_colon rest ≡ found key
    → any_space key ≡ false
    → parse_header r line rest
      ≡ store_value r key (trim_end (trim_start (drop (length key + 1) line)))
unfolding parse_header
parse_header-found r line rest key e s = ground arith

trimmed-value :
    (l : Grammar.Line)
    → Grammar.IsLine l
    → trim_end (trim_start (drop (length l.key + 1) (Grammar.line_bytes l))) ≡ l.value
trimmed-value l v =
    ap (λ b. trim_end (trim_start b)) (drop-key l.key _)
    ∙ ap trim_end
        (trim_start-append l.lead _ v.lead_blank (Starts-append l.value _ v.value_trimmed.0))
    ∙ trim_end-append l.value l.trail v.trail_blank v.value_trimmed.1

parse_header-line :
    (r : Request) (l : Grammar.Line) (rest : Bytes) (hs : Headers)
    → Grammar.IsLine l
    → insert_header r.headers (Grammar.header_of l) ≡ some hs
    → parse_header r (Grammar.line_bytes l) (Grammar.line_bytes l ++ rest)
      ≡ ok (record r { headers = hs })
parse_header-line r l rest hs v e =
    parse_header-found r _ _ l.key
      (ap strchr_colon (append_assoc l.key _ rest) ∙ strchr_colon-append l.key _ v.key_bytes)
      (any_space-key l.key v.key_bytes)
    ∙ rw (trimmed-value l v) (store_value-some r l.key l.value hs v.value_trimmed.0 e)

pub range_line-append :
    (r : Request) (line rest : Bytes)
    → NoCrlf line
    → range_line r (line ++ (13 ∷ 10 ∷ rest)) ≡ ok (line, 13 ∷ 10 ∷ rest)
unfolding range_line
range_line-append r line rest h = rw ((until_crlf-append line rest h), range_line)

-- One round of the loop over a line that is not empty.
parse_headers_round :
    (fuel : ℕ) (r r' : Request) (line : Bytes) (rest : Bytes)
    → line ≢ []
    → NoCrlf line
    → parse_header r line (line ++ (13 ∷ 10 ∷ rest)) ≡ ok r'
    → parse_headers (suc fuel) r (line ++ (13 ∷ 10 ∷ rest)) ≡ parse_headers fuel r' rest
unfolding parse_headers
parse_headers_round fuel r r' [] rest ne h e = absurd (ne refl)
parse_headers_round fuel r r' (c ∷ line) rest ne h e = rw (range_line-append r (c ∷ line) rest h, e)

line-ne-nil : (l : Grammar.Line) → Grammar.line_bytes l ≢ []
line-ne-nil l = go l.key
  where
    go : (k : Bytes) → k ++ (b':' ∷ (l.lead ++ (l.value ++ l.trail))) ≢ []
    go [] e = cc
    go (c ∷ k) e = cc

parse_headers-print_lines :
    (ls : List Grammar.Line) (fuel : ℕ) (r : Request) (rest : Bytes) (hs : Headers)
    → All Grammar.IsLine ls
    → Grammar.insert_all r.headers ls ≡ some hs
    → length ls < fuel
    → parse_headers fuel r (Grammar.print_lines ls rest) ≡ ok (record r { headers = hs }, rest)
unfolding Grammar.insert_all
parse_headers-print_lines ls zero r rest hs v e f = absurd (omega arith)
parse_headers-print_lines [] (suc fuel) r rest hs v e f =
    unfold parse_headers range_line in ground arith
parse_headers-print_lines (l ∷ ls) (suc fuel) r rest hs v e f =
    elim (Option-cases (insert_header r.headers (Grammar.header_of l))) [
      | inl n ↦ absurd (ground arith)
      | inr (hs', m) ↦
          parse_headers_round fuel r (record r { headers = hs' }) (Grammar.line_bytes l) _
            (line-ne-nil l) v.0.one_line (parse_header-line r l _ hs' v.0 m)
          ∙ parse_headers-print_lines ls fuel (record r { headers = hs' }) rest hs v.1
              (ground arith) (omega arith)
    ]

parse_token-append :
    (r : Request) (t rest : Bytes)
    → IsToken t
    → Stops rest
    → parse_token r (t ++ rest) ≡ ok (t, rest)
unfolding parse_token take_token
parse_token-append r [] rest h s = absurd (h.0 refl)
parse_token-append r (c ∷ t) rest h s = rw (range_non_blank-append (c ∷ t) rest h.1 s)

parse_method-append :
    (r : Request) (m gap rest : Bytes)
    → All IsInk m
    → strncmp_eq (codes "GET") m (length m) ≡ true
    → Grammar.IsGap gap
    → Starts rest
    → parse_method r (m ++ (gap ++ rest)) ≡ ok (with_method r, rest)
unfolding parse_method
parse_method-append r m gap rest ink getting g s = rw (
  range_non_blank-append m (gap ++ rest) ink (Stops-append gap rest g),
  strncmp_eq-append (codes "GET") m (gap ++ rest),
  getting,
  skip_whitespaces-append (with_method r) gap rest g.1 s,
)

pub parse_start_line-print :
    (r : Request) (m : Grammar.Message) (tail : Bytes)
    → Grammar.IsMessage m
    → parse_start_line r (Grammar.print_start m tail)
      ≡ ok (with_version (with_url (with_method r) m.url) m.version, tail)
unfolding parse_start_line expect_crlf
parse_start_line-print r m tail v =
    rw
      (parse_method-append r m.method m.gap _ v.method_ink
        ((method_language m.method).1 v.method_get) v.gap_blank (Starts-token m.url _ v.url_token))
      (rw
        (parse_token-append (with_method r) m.url _ v.url_token
          (Stops-append m.gap' _ v.gap'_blank))
        (rw
          (skip_whitespaces-append (with_url (with_method r) m.url) m.gap' _ v.gap'_blank.1
            (Starts-token m.version _ v.version_token))
          (rw (
            parse_token-append (with_url (with_method r) m.url) m.version _ v.version_token
              isspace_cr))))

-- Each line is at least two bytes, so the loop's fuel covers the lines.
length-print_lines :
    (ls : List Grammar.Line) (rest : Bytes) → length ls ≤ length (Grammar.print_lines ls rest)
length-print_lines [] rest = omega arith
length-print_lines (l ∷ ls) rest = omega (
  arith,
  length-print_lines ls rest,
  length-append (Grammar.line_bytes l) (13 ∷ 10 ∷ Grammar.print_lines ls rest),
)

-- The parser from a cleared request, on a message and what follows it.
pub from_cleared-print :
    (m : Grammar.Message) (rest : Bytes) (hs : Headers)
    → Grammar.IsMessage m
    → Grammar.insert_all [] m.lines ≡ some hs
    → http_request_from_buffer cleared (Grammar.print_message m rest)
      ≡ finish (record (with_version (with_url cleared m.url) m.version) { headers = hs }, rest)
unfolding http_request_from_buffer http_request_destroy
from_cleared-print m rest hs v e = rw (parse_start_line-print cleared m _ v) (
    rw (
      parse_headers-print_lines m.lines (length (Grammar.print_lines m.lines rest) + 1)
        (with_version (with_url (with_method cleared) m.url) m.version) rest hs v.lines_valid e
        (omega (arith, length-print_lines m.lines rest))))
