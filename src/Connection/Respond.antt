-- ===== src/Connection/Respond.antt =====
-- server.c: the part of `handle_connection` that parses the buffer, has the request answered and
-- renders the response into the buffer.
pub mod Rendered
use h_ss.Prelude.{ℕ, [], Option, none, some, Bytes, codes, take, drop}
use h_ss.Errors.{ErrorCode, incomplete_request, insufficient_buffer_size}
use h_ss.Request.{Request, Parse, stop, out_of_fuel, http_request_from_buffer, http_request_destroy}
use h_ss.Request
use h_ss.Response.{
  Response, http_bad_request, http_response_set_code, http_response_set_header,
  http_response_render,
}
use h_ss.Descriptors.{DescriptorType, Buffer, Connection, writing_response}
use h_ss.Statics.{Outcome, ok, fault, ◌>>=◌, defined, Statics}
use h_ss.Transaction.{World, handle_http_transaction}
use h_ss.Connection.Fill.{block_at, sub_size}

-- The response goes into the block if it fits, and into a new block of its size otherwise.
unfoldable pub render_into : (ℕ → Bytes) → Buffer → Response → Option (Buffer × Response)
render_into malloc b r = elim (http_response_render r b.buffer b.capability) [
  | none ↦ none
  | some first ↦ elim first.code [
    | insufficient_buffer_size ↦
        elim (http_response_render first.response (some (malloc first.length_out))
          first.length_out) [
            | none ↦ none
            | some second ↦ some (
              record {
                buffer = second.buffer;
                capability = first.length_out;
                start = 0;
                end = second.length_out;
              },
              second.response,
            )
          ]
    | _ ↦ some (
      record {
        buffer = first.buffer;
        capability = b.capability;
        start = 0;
        end = first.length_out;
      },
      first.response,
    )
  ]
]

-- The parser wants more bytes, or there is a response to send.
pub data Responding : Type 0 where
  waits : Statics → Connection → Responding
  responds : Statics → Connection → Responding

-- The common end, with the response that the request got.
unfoldable pub prepare : World → Connection → Request → Statics × Response → Outcome Responding
prepare w c request (s, response) = do
  (b, rendered) ← defined (
      render_into w.malloc c.buffer
        (http_response_set_header response (codes "Server") (codes "hSS/0.0.1-alpha")))
  ok (
      responds s (record c {
        state = writing_response;
        request = http_request_destroy request;
        response = rendered;
        buffer = b;
      }))

abbrev pub refuse : World → Statics → Connection → ErrorCode → Request → Outcome Responding
refuse w s c incomplete_request request = ok (waits s (record c { request = request }))
refuse w s c _ request = do
  response ← defined (http_response_set_code c.response http_bad_request none)
  prepare w c request (s, response)

-- What the parser said.
abbrev pub answer_parse :
    World → DescriptorType → Statics → Connection → Parse Request → Outcome Responding
answer_parse w type s c (Request.ok request) =
    handle_http_transaction w type s request c.response >>= prepare w c request
answer_parse w type s c (stop e request) = refuse w s c e request
answer_parse w type s c Request.fault = fault
answer_parse w type s c out_of_fuel = fault

abbrev pub request_bytes : Connection → Bytes
request_bytes c =
    take (sub_size c.buffer.end c.buffer.start) (drop c.buffer.start (block_at c.buffer.buffer))

unfoldable pub respond : World → DescriptorType → Statics → Connection → Outcome Responding
respond w type s c = answer_parse w type s c (http_request_from_buffer c.request (request_bytes c))
