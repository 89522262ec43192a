-- ===== src/Samples.antt =====
-- Data that the tests of several modules share: a request, a response, a connection and a world.
use h_ss.Prelude.{[], ◌∷◌, ◌++◌, none, some, Bytes, codes, replicate, true, refl, ◌≡◌}
use h_ss.Request
use h_ss.Request.{Request, cleared, parsed, ok, http_request_from_buffer}
use h_ss.Request.State.{IsValid, cleared-IsValid, from_buffer-Ensures}
use h_ss.Response.{Response, null}
use h_ss.Descriptors.{Connection, waiting_request}
use h_ss.Statics.{Statics}
use h_ss.Transaction.{World, missing}

abbrev pub get_a : Bytes
get_a = codes "GET /a HTTP/1.1\r\n\r\n"

abbrev pub request_a : Request
request_a = record {
  state = parsed;
  start_line = record {
    method = Request.Method.get;
    http_version = some (codes "HTTP/1.1");
    http_version_length = 8;
    url = some (codes "/a");
    url_length = 2;
  };
  headers = [];
  body = record { body = none; length = 0 };
}

pub get_a-parses : http_request_from_buffer cleared get_a ≡ ok request_a
unfolding Request.http_request_from_buffer Request.http_request_destroy Request.parse_start_line
    Request.parse_method Request.parse_token Request.take_token Request.skip_whitespaces
    Request.expect_crlf Request.range_non_blank Request.strncmp_eq Request.parse_headers
    Request.range_line Request.parse_header Request.strchr_colon Request.any_space Request.trim_end
    Request.store_value Request.add_header Request.finish h_ss.Prelude.isspace
    h_ss.Headers.insert_header h_ss.Headers.precedes h_ss.Prelude.strcmp h_ss.Prelude.lex
    h_ss.Prelude.c_str h_ss.Headers.same
get_a-parses = refl

pub request_a-IsValid : IsValid request_a
request_a-IsValid = (rw get_a-parses at (from_buffer-Ensures cleared get_a cleared-IsValid)).1

abbrev pub fresh_response : Response
fresh_response = record {
  state_line = record { code = 0; description = null; description_length = 0 };
  headers = [];
  body = record { body = none; length = 0 };
}

abbrev pub fresh_connection : Connection
fresh_connection = record {
  state = waiting_request;
  file_descriptor = 5;
  buffer = record { buffer = none; capability = 0; start = 0; end = 0 };
  request = cleared;
  response = fresh_response;
}

-- No file exists.
abbrev pub world : World
world = record {
  malloc = λ n. replicate n 0;
  garbage = 0;
  random = (0, 0, 0);
  own_address = codes "::1";
  getcwd = some (codes "/srv");
  realpath = λ _. none;
  open_file = λ _. missing;
}

abbrev pub statics : Statics
statics = record {
  running = true;
  log_level = 3;
  authorization = record { initialize = true; code = [] };
  directory = record { initialize = true; length = 0; path = [] };
}
