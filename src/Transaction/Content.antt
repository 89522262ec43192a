-- ===== src/Transaction/Content.antt =====
-- server.c: the last part of `handle_http_transaction`, which answers with the content of a file.
use h_ss.Prelude.{ℕ, ◌-◌, ◌++◌, Option, none, some, if◌then◌else◌, ◌==◌, Bytes, codes, length, drop}
use h_ss.Decimal.{decimal}
use h_ss.Response.{
  Response, http_ok, http_partial_content, http_response_set_code, http_response_set_header,
  http_response_set_body,
}
use h_ss.Range.{Range, parse_range}

-- `sprintf` of `bytes %lu-%lu/%lu`.
abbrev pub content_range : Range → ℕ → Bytes
content_range range size =
    codes "bytes "
    ++ (decimal range.start
        ++ (codes "-" ++ (decimal (range.end - 1) ++ (codes "/" ++ decimal size))))

abbrev pub real_length : Range → ℕ → ℕ
real_length range size = if range.start == range.end then size else range.end - range.start

abbrev pub describe_content : Response → Range → ℕ → Option Response
describe_content r range size =
    if range.start == range.end
    then http_response_set_code r http_ok none
    else elim (http_response_set_code r http_partial_content none) [
      | none ↦ none
      | some t ↦
          some (http_response_set_header t (codes "Content-Range") (content_range range size))
    ]

-- From the value of the Range header on; the file is `content`.
unfoldable pub serve_content : Response → Option Bytes → Bytes → Option Response
serve_content r range_value content =
    let size = length content in
    elim (parse_range range_value size) [
      | none ↦ none
      | some range ↦
          elim (http_response_set_body r (drop range.start content)
            (some (real_length range size))) [
              | none ↦ none
              | some t ↦ describe_content t range size
            ]
    ]
