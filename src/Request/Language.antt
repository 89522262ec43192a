-- ===== src/Request/Language.antt =====
-- The language that `http_request_from_buffer` reads, from any valid request structure.
use h_ss.Prelude.{
  ℕ, suc, ◌≡◌, ◌≢◌, ◌↔◌, refl, inl, inr, sym, ap, ◌∙◌, List, [], ◌∷◌, ◌++◌, arith, Bytes, codes,
  length, All, append_assoc, append-nil, Bool-cases, isspace, if◌then◌else◌,
}
use native.Mathlib.Numerals.{add-one}
use h_ss.Errors.{ErrorCode, parse_invalid_request_syntax, unsupported_method}
use h_ss.Request.{
  Request, ok, stop, fault, ◌>>=◌, cleared, invalid, http_request_from_buffer, http_request_destroy,
  finish, strncmp_eq, parse_start_line, parse_method, with_method, strchr_colon, overrun,
  parse_headers, parse_header, skip_whitespaces,
}
use h_ss.Request.Grammar
use h_ss.Request.Grammar.{IsGetLike}
use h_ss.Request.Methods.{method_language}
use h_ss.Request.Names.{insert_all-place_all, place_all-insert_all}
use h_ss.Request.Accepts.{from_cleared-print, parse_start_line-print, range_line-append}
use h_ss.Request.Sound.{IsRead, from_cleared_sound}
use h_ss.Request.State.{IsValid, from_buffer-reuse}
use h_ss.Request.Tokens.{IsInk, range_non_blank-append, Stops, strncmp_eq-append, NoCrlf}

-- A buffer that is a message of the grammar, no two lines of which have the same name, with what the
-- message means: its URL, its version, and its headers in the order of their names.
pub record IsMeant (b : Bytes) (q : Request) : Type 0 where
  pub message : Grammar.Message
  pub whole : b ≡ Grammar.print_message message []
  pub valid : Grammar.IsMessage message
  pub names : Grammar.AreNew [] message.lines
  pub result : q ≡ Grammar.request_of message (Grammar.place_all [] message.lines)

IsRead-IsMeant : (b : Bytes) (q : Request) → IsRead b q → IsMeant b q
IsRead-IsMeant b q read =
    let (names, same) = insert_all-place_all [] read.hs read.message.lines tt read.added in
    record {
      message = read.message;
      whole = read.whole;
      valid = read.valid;
      names = names;
      result = read.result ∙ ap (Grammar.request_of read.message) same;
    }

IsMeant-IsRead : (b : Bytes) (q : Request) → IsMeant b q → IsRead b q
IsMeant-IsRead b q meant = record {
  message = meant.message;
  hs = Grammar.place_all [] meant.message.lines;
  whole = meant.whole;
  valid = meant.valid;
  added = place_all-insert_all [] meant.message.lines meant.names;
  result = meant.result;
}

-- From a valid request structure, a buffer is read exactly when it is a message of the grammar, whose
-- method is a prefix of GET or GET with a NUL behind it, and no two of whose headers have the same
-- name, and the result is what the message means, with the headers in the order of their names.
pub from_buffer-reads :
    (r q : Request) (buffer : Bytes)
    → IsValid r
    → (http_request_from_buffer r buffer ≡ ok q) ↔ IsMeant buffer q
unfolding finish
from_buffer-reads r q buffer v = (
  λ e.
      IsRead-IsMeant buffer q
        (from_cleared_sound buffer q (sym (from_buffer-reuse r buffer v) ∙ e)),
  λ meant.
      let read = IsMeant-IsRead buffer q meant in
      from_buffer-reuse r buffer v
      ∙ ap (http_request_from_buffer cleared) read.whole
      ∙ from_cleared-print read.message [] read.hs read.valid read.added
      ∙ ap ok (sym read.result),
)

print_lines-append :
    (ls : List Grammar.Line) (rest : Bytes)
    → Grammar.print_lines ls [] ++ rest ≡ Grammar.print_lines ls rest
print_lines-append [] rest = refl
print_lines-append (l ∷ ls) rest =
    append_assoc (Grammar.line_bytes l) _ rest
    ∙ ap (λ t. Grammar.line_bytes l ++ (13 ∷ 10 ∷ t)) (print_lines-append ls rest)

print_message-append :
    (m : Grammar.Message) (rest : Bytes)
    → Grammar.print_message m [] ++ rest ≡ Grammar.print_message m rest
print_message-append m rest = simp append_assoc (rw (print_lines-append m.lines rest))

-- Bytes behind a message that is read, such as a body or a second request in the same buffer,
-- make the whole buffer a syntax error.
pub from_buffer_trailing :
    (r q : Request) (buffer : Bytes) (c : ℕ) (cs : Bytes)
    → IsValid r
    → http_request_from_buffer r buffer ≡ ok q
    → http_request_from_buffer r (buffer ++ (c ∷ cs))
      ≡ stop parse_invalid_request_syntax (record q { state = invalid })
unfolding finish
from_buffer_trailing r q buffer c cs v e =
    let read = from_cleared_sound buffer q (sym (from_buffer-reuse r buffer v) ∙ e) in
    from_buffer-reuse r _ v
    ∙ ap (λ b. http_request_from_buffer cleared (b ++ (c ∷ cs))) read.whole
    ∙ ap (http_request_from_buffer cleared) (print_message-append read.message (c ∷ cs))
    ∙ from_cleared-print read.message (c ∷ cs) read.hs read.valid read.added
    ∙ ap (λ (p : Request). stop parse_invalid_request_syntax (record p { state = invalid }))
        (sym read.result)

-- The parser looks at the buffer through `parse_method` first.
parse_method_congr :
    (b b' : Bytes)
    → parse_method cleared b ≡ parse_method cleared b'
    → http_request_from_buffer cleared b ≡ http_request_from_buffer cleared b'
unfolding http_request_from_buffer http_request_destroy parse_start_line
parse_method_congr b b' e = rw e

parse_method_stop :
    (b : Bytes) (e : ErrorCode) (q : Request)
    → parse_method cleared b ≡ stop e q
    → http_request_from_buffer cleared b ≡ stop e q
unfolding http_request_from_buffer http_request_destroy parse_start_line
parse_method_stop b e q h = rw h

parse_method_fault :
    (b : Bytes) → parse_method cleared b ≡ fault → http_request_from_buffer cleared b ≡ fault
unfolding http_request_from_buffer http_request_destroy parse_start_line
parse_method_fault b h = rw h

-- METHOD at a buffer that starts with the token `m`.
parse_method_at :
    (m rest : Bytes)
    → All IsInk m
    → Stops rest
    → parse_method cleared (m ++ rest) ≡ (
        if strncmp_eq (codes "GET") m (length m)
        then skip_whitespaces (with_method cleared) rest >>= (λ b. ok (with_method cleared, b))
        else stop unsupported_method cleared)
unfolding parse_method
parse_method_at m rest ink stops =
    rw (range_non_blank-append m rest ink stops, strncmp_eq-append (codes "GET") m rest)

parse_method_like :
    (m rest : Bytes)
    → All IsInk m
    → Stops rest
    → IsGetLike m
    → parse_method cleared (m ++ rest)
      ≡ skip_whitespaces (with_method cleared) rest >>= (λ b. ok (with_method cleared, b))
parse_method_like m rest ink stops like =
    rw (parse_method_at m rest ink stops, (method_language m).1 like)

get-IsInk : All IsInk (codes "GET")
unfolding isspace
get-IsInk = (refl, (refl, (refl, tt)))

-- A method outside that language is refused, and the request is left cleared.
pub from_buffer_other_method :
    (r : Request) (m rest : Bytes)
    → IsValid r
    → All IsInk m
    → Stops rest
    → ¬ IsGetLike m
    → http_request_from_buffer r (m ++ rest) ≡ stop unsupported_method cleared
from_buffer_other_method r m rest v ink stops other =
    elim (Bool-cases (strncmp_eq (codes "GET") m (length m))) [
      | inl t ↦ absurd (other ((method_language m).0 t))
      | inr t ↦
          from_buffer-reuse r _ v
          ∙ parse_method_stop (m ++ rest) unsupported_method cleared
              (rw (parse_method_at m rest ink stops, t))
    ]

-- A prefix of GET in the place of the method, or GET and a NUL and more, is taken for GET.
pub from_buffer_get_like :
    (r : Request) (m rest : Bytes)
    → IsValid r
    → All IsInk m
    → Stops rest
    → IsGetLike m
    → http_request_from_buffer r (m ++ rest) ≡ http_request_from_buffer r (codes "GET" ++ rest)
from_buffer_get_like r m rest v ink stops like =
    from_buffer-reuse r _ v
    ∙ parse_method_congr _ _ (
        parse_method_like m rest ink stops like
        ∙ sym (parse_method_like (codes "GET") rest get-IsInk stops (inl refl)))
    ∙ sym (from_buffer-reuse r _ v)

-- A buffer that ends inside its method is read past its end.
pub from_buffer_method_only :
    (r : Request) (m : Bytes)
    → IsValid r
    → All IsInk m
    → IsGetLike m
    → http_request_from_buffer r m ≡ fault
unfolding skip_whitespaces
from_buffer_method_only r m v ink like =
    from_buffer-reuse r m v
    ∙ parse_method_fault m
        (ap (parse_method cleared) (sym (append-nil m)) ∙ parse_method_like m [] ink tt like)

-- Neither a colon nor a NUL.
abbrev pub NoColon : Bytes → Type 0
NoColon = All (λ c. (c ≢ b':') × (c ≢ 0))

strchr_colon-NoColon : (b : Bytes) → NoColon b → strchr_colon b ≡ overrun
unfolding strchr_colon
strchr_colon-NoColon [] h = refl
strchr_colon-NoColon (c ∷ b) h = ground (arith, strchr_colon-NoColon b h.1)

parse_headers-NoColon :
    (r : Request) (fuel : ℕ) (line rest : Bytes)
    → line ≢ []
    → NoCrlf line
    → NoColon (line ++ (13 ∷ 10 ∷ rest))
    → parse_headers (suc fuel) r (line ++ (13 ∷ 10 ∷ rest)) ≡ fault
unfolding parse_headers parse_header
parse_headers-NoColon r fuel [] rest ne one h = absurd (ne refl)
parse_headers-NoColon r fuel (c ∷ line) rest ne one h =
    rw (range_line-append r (c ∷ line) rest one, strchr_colon-NoColon _ h, parse_header)

-- A header line with no colon, in a buffer that has neither a colon nor a NUL from there on, makes
-- the search for the colon leave the buffer.
pub from_buffer-NoColon :
    (r : Request) (m : Grammar.Message) (line rest : Bytes)
    → IsValid r
    → Grammar.IsMessage m
    → line ≢ []
    → NoCrlf line
    → NoColon (line ++ (13 ∷ 10 ∷ rest))
    → http_request_from_buffer r (Grammar.print_start m (line ++ (13 ∷ 10 ∷ rest))) ≡ fault
unfolding http_request_from_buffer http_request_destroy
from_buffer-NoColon r m line rest v valid ne one h =
    from_buffer-reuse r _ v
    ∙ rw (parse_start_line-print cleared m _ valid)
        (rw add-one (rw (parse_headers-NoColon _ _ line rest ne one h)))
