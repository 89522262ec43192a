-- ===== src/Request/Tests.antt =====
-- Requests parsed at concrete inputs, and the theorems applied there.
use h_ss.Prelude.{
  ℕ, suc, ◌+◌, ◌≤◌, ◌≡◌, ◌↔◌, refl, inl, inr, [], ◌∷◌, ◌++◌, Option, none, some, Bytes, codes, ltb,
  length, arith, if◌then◌else◌, isspace, All,
}
use h_ss.Errors.{parse_invalid_request_syntax}
use h_ss.Decimal.{zeros, length-zeros}
use h_ss.Headers.Lookup.{find}
use h_ss.Request
use h_ss.Request.{cleared, http_request_from_buffer, ok, stop, fault, parsed, invalid}
use h_ss.Request.Grammar
use h_ss.Request.Language.{IsMeant, from_buffer-reads, from_buffer_trailing, from_buffer-NoColon}
use h_ss.Request.Query.{get_request_header, get_request_header-find, block_of}
use h_ss.Request.State.{IsValid, cleared-IsValid, Ensures, from_buffer-Ensures, from_buffer-reuse}
use h_ss.Request.Tokens.{IsInk}

abbrev small : Bytes
small = codes "GET /a HTTP/1.1\r\nHost: x\r\nAccept:  b \r\n\r\n"

abbrev small_request : Request.Request
small_request = record {
  state = parsed;
  start_line = record {
    method = Request.Method.get;
    http_version = some (codes "HTTP/1.1");
    http_version_length = 8;
    url = some (codes "/a");
    url_length = 2;
  };
  headers =
      record { key = codes "Accept"; value = codes "b" }
      ∷ record { key = codes "Host"; value = codes "x" }
      ∷ [];
  body = record { body = none; length = 0 };
}

small-parses : http_request_from_buffer cleared small ≡ ok small_request
unfolding Request.http_request_from_buffer Request.http_request_destroy Request.parse_start_line
    Request.parse_method Request.parse_token Request.take_token Request.skip_whitespaces
    Request.expect_crlf Request.range_non_blank Request.strncmp_eq Request.parse_headers
    Request.range_line Request.parse_header Request.strchr_colon Request.any_space Request.trim_end
    Request.store_value Request.add_header Request.finish h_ss.Prelude.isspace
    h_ss.Headers.insert_header h_ss.Headers.precedes h_ss.Prelude.strcmp h_ss.Prelude.lex
    h_ss.Prelude.c_str h_ss.Headers.same
small-parses = refl

small_request-IsValid : IsValid small_request
small_request-IsValid = (rw small-parses at (from_buffer-Ensures cleared small cleared-IsValid)).1

-- A request that failed, with its fields still set.
abbrev failed : Request.Request
failed = record small_request { state = invalid }

failed-IsValid : IsValid failed
failed-IsValid = record {
  sorted = small_request-IsValid.sorted;
  clear = λ e. cc;
  url_held = λ e. cc;
  version_held = λ e. cc;
}

from_buffer-reads_example :
    (http_request_from_buffer failed small ≡ ok small_request) ↔ IsMeant small small_request
from_buffer-reads_example = from_buffer-reads failed small_request small failed-IsValid

from_buffer-Ensures_example :
    Ensures (λ q. (q.state ≡ parsed) × IsValid q) (http_request_from_buffer failed small)
from_buffer-Ensures_example = from_buffer-Ensures failed small failed-IsValid

from_buffer-reuse_example :
    http_request_from_buffer failed small ≡ http_request_from_buffer cleared small
from_buffer-reuse_example = from_buffer-reuse failed small failed-IsValid

from_buffer_trailing_example :
    http_request_from_buffer cleared (small ++ codes "x") ≡ stop parse_invalid_request_syntax failed
from_buffer_trailing_example =
    from_buffer_trailing cleared small_request small b'x' [] cleared-IsValid small-parses

post-IsInk : All IsInk (codes "POST")
unfolding isspace
post-IsInk = (refl, (refl, (refl, (refl, tt))))

abbrev after_method : Bytes
after_method = codes " /a HTTP/1.1\r\n\r\n"

abbrev start : Grammar.Message
start = record {
  method = codes "GET";
  gap = codes " ";
  url = codes "/";
  gap' = codes " ";
  version = codes "HTTP/1.1";
  lines = [];
}

start-IsMessage : Grammar.IsMessage start
unfolding isspace Request.strncmp_eq
start-IsMessage = record {
  method_ink = (refl, (refl, (refl, tt)));
  method_get = inl refl;
  gap_blank = ((λ e. cc), (refl, tt));
  url_token = ((λ e. cc), (refl, tt));
  gap'_blank = ((λ e. cc), (refl, tt));
  version_token = ((λ e. cc), (refl, (refl, (refl, (refl, (refl, (refl, (refl, (refl, tt)))))))));
  lines_valid = tt;
}

from_buffer-NoColon_example :
    http_request_from_buffer cleared (codes "GET / HTTP/1.1\r\nfoo\r\n\r\n") ≡ fault
from_buffer-NoColon_example =
    from_buffer-NoColon cleared start (codes "foo") (codes "\r\n") cleared-IsValid start-IsMessage
      (λ e. cc) (refl, (refl, tt)) (omega arith)

get_request_header-find_example :
    get_request_header zeros 7 small_request (codes "Host")
    ≡ elim (find small_request.headers (codes "Host")) [ none ↦ none | some v ↦ some (block_of v) ]
get_request_header-find_example =
    get_request_header-find zeros 7 small_request (codes "Host") length-zeros small_request-IsValid
      refl
