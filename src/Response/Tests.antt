-- ===== src/Response/Tests.antt =====
-- Responses at concrete inputs, and the theorems applied there.
use h_ss.Prelude.{
  ◌≡◌, refl, inl, List, [], ◌∷◌, ◌++◌, none, some, Bytes, codes, length, drop, ltb, arith,
  if◌then◌else◌, strcmp, lex, c_str,
}
use h_ss.Errors.{succeed, insufficient_buffer_size}
use h_ss.Decimal.{decimal, digits}
use h_ss.Headers.{same, precedes, set_header}
use h_ss.Headers.Lookup.{find}
use h_ss.Response
use h_ss.Response.{
  Response, live, http_response_initialize, http_response_set_code, http_response_render, complete,
  render_bytes, measure_response_size, content_length,
}
use h_ss.Response.Framing.{
  Call, set_code, set_body, run, call, AllProper, run-content_length, set_code_double_free,
}
use h_ss.Response.Framing
use h_ss.Response.Render.{render-fits}
use h_ss.Response.Valid.{IsValid, initialize-IsValid}

abbrev raw : Response
raw = record {
  state_line = record { code = 77; description = Response.dangling; description_length = 3 };
  headers = [];
  body = record { body = none; length = 5 };
}

abbrev page : List Call
page =
    set_code 0 none
    ∷ Framing.set_header (codes "Server") (codes "hSS")
    ∷ set_body (codes "hello") (some 5)
    ∷ []

page-AllProper : AllProper page
unfolding same strcmp lex c_str
page-AllProper = (inl (omega arith), (refl, (omega arith, tt)))

run-content_length_example :
    (r' : Response) × (run (http_response_initialize raw) page ≡ some r')
    × IsValid (complete r')
    × (find (complete r').headers content_length ≡ some (decimal (complete r').body.length))
run-content_length_example = run-content_length raw page page-AllProper

fresh-IsValid : IsValid (http_response_initialize raw)
fresh-IsValid = initialize-IsValid raw

render-fits_example :
    (out : Bytes) × (render_bytes (complete (http_response_initialize raw)) ≡ some out)
    × (length out ≡ measure_response_size (complete (http_response_initialize raw)))
    × IsValid (complete (http_response_initialize raw))
    × (http_response_render (http_response_initialize raw) none 8
        ≡ some (record {
          response = complete (http_response_initialize raw);
          code = succeed;
          length_out = length out;
          buffer = none;
        }))
    × (http_response_render (http_response_initialize raw) (some (codes "12345678")) 8
        ≡ some (
            if ltb 8 (length out)
            then record {
              response = complete (http_response_initialize raw);
              code = insufficient_buffer_size;
              length_out = length out;
              buffer = some (codes "12345678");
            }
            else record {
              response = complete (http_response_initialize raw);
              code = succeed;
              length_out = length out;
              buffer = some (out ++ drop (length out) (codes "12345678"));
            }))
render-fits_example =
    render-fits (http_response_initialize raw) (codes "12345678") 8 fresh-IsValid (omega arith)

abbrev page_bytes : Bytes
page_bytes = codes "HTTP/1.1 200 OK\r\nContent-Length: 5\r\nServer: hSS\r\n\r\nhello"

-- What the calls of `page` render to.
page_renders :
    elim (run (http_response_initialize raw) page) [ none ↦ none | some r ↦ render_bytes r ]
    ≡ some page_bytes
unfolding run call http_response_initialize http_response_set_code Response.http_response_set_header
    Response.http_response_set_body Response.free_description Response.get_default_description
    render_bytes Response.render_description Response.render_headers set_header
    Response.get_representative_state_code decimal digits precedes same strcmp lex c_str
page_renders = refl

abbrev described : Response
described = record raw {
  state_line = record { code = 0; description = live (codes "OK"); description_length = 2 };
}

abbrev spoiled : Response
spoiled = record raw {
  state_line = record { code = 10; description = Response.dangling; description_length = 0 };
}

spoils : http_response_set_code described 10 none ≡ some spoiled
unfolding http_response_set_code Response.free_description Response.get_default_description
spoils = refl

set_code_double_free_example : http_response_set_code spoiled 0 none ≡ none
set_code_double_free_example =
    set_code_double_free described spoiled (codes "OK") 10 0 none refl (omega arith) spoils
