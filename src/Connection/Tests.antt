-- ===== src/Connection/Tests.antt =====
-- Connections at concrete inputs, and the theorems applied there.
use h_ss.Prelude.{
  ◌≡◌, refl, arith, true, [], ◌∷◌, ◌++◌, none, some, Bytes, codes, length, take, length-replicate,
  isspace, c_str, strcmp, lex,
}
use h_ss.Errors.{incomplete_request}
use h_ss.Request.{cleared, stop, http_request_from_buffer}
use h_ss.Headers.{precedes, same}
use h_ss.Headers.{set_header}
use h_ss.Decimal.{decimal, digits}
use h_ss.Request.Query.{http_request_get_url, copy_out}
use h_ss.Request
use h_ss.Response
use h_ss.Response.{Response, http_response_set_header, render_bytes, complete}
use h_ss.Response.Valid.{IsValid}
use h_ss.Descriptors.{Connection, waiting_request, writing_response, tcp_socket}
use h_ss.Statics
use h_ss.Transaction
use h_ss.Transaction.{handle_http_transaction}
use h_ss.Connection.{Kernel, handle_connection, kept, after_send}
use h_ss.Connection.Receive.{
  Socket, recv, Pages, no_pages, would_block, end_of_stream, receive, stopped, out_of_fuel,
  overflow,
}
use h_ss.Connection.Receive.Step.{flatten}
use h_ss.Connection.Receive.Drained.{socket}
use h_ss.Connection.Receive.Paged.{recv-Fits}
use h_ss.Connection.Receive.Follows.{recv-Presents}
use h_ss.Connection.Fill.{fill, filled}
use h_ss.Connection.Fill.Kept.{IsBuffer, unread}
use h_ss.Connection.Send.{Sent, accepts, no_room, send_loop}
use h_ss.Connection.Send.Exact.{Accounts}
use h_ss.Connection.Answered.{with_server, handle_connection-answers, handle_connection-waits}
use h_ss.Request.State.{cleared-IsValid}
use h_ss.Connection.Receive
use h_ss.Connection.Fill
use h_ss.Connection.Respond
use h_ss.Connection.Invariant.{IsConnection}
use h_ss.Connection.Invariant.Calls.{handle_connection-IsConnection}
use h_ss.Samples.{request_a, get_a-parses, fresh_response, fresh_connection, world, statics}

abbrev kernel : Kernel Socket
kernel = record {
  readable = true;
  writable = true;
  recv = recv;
  socket = socket (codes "GET /a HT" ∷ codes "TP/1.1\r\n\r\n" ∷ []) would_block;
  results = accepts 10 ∷ no_room ∷ [];
  granted = true;
  junk = 7;
  world = world;
}

abbrev kernel_first : Kernel Socket
kernel_first = record kernel { socket = socket (codes "GET /a HT" ∷ []) would_block }

fresh-IsBuffer : IsBuffer fresh_connection.buffer
fresh-IsBuffer = record {
  sized = refl;
  ordered = omega arith;
  within = omega arith;
  bounded = omega arith;
}

abbrev moved : Response
moved = record {
  state_line = record {
    code = 3;
    description = Response.live (codes "Moved Permanently");
    description_length = 17;
  };
  headers = record { key = codes "Location"; value = codes "https://::1:443/a" } ∷ [];
  body = record { body = none; length = 0 };
}

abbrev moved_bytes : Bytes
moved_bytes =
    codes
      "HTTP/1.1 301 Moved Permanently\r\nContent-Length: 0\r\nLocation: https://::1:443/a\r\nServer: hSS/0.0.1-alpha\r\n\r\n"

moved-IsValid : IsValid moved
moved-IsValid = record { sorted = (tt, tt); described = refl; embodied = refl }

get_a-moved :
    handle_http_transaction world tcp_socket statics request_a fresh_response
    ≡ Statics.ok (statics, moved)
unfolding handle_http_transaction Transaction.get_url Transaction.route Transaction.redirect
    http_request_get_url copy_out Response.http_response_set_code Response.http_response_set_header
    Response.free_description Response.get_default_description set_header precedes same strcmp lex
    c_str decimal digits
get_a-moved = refl

moved-renders : render_bytes (complete (with_server moved)) ≡ some moved_bytes
unfolding complete Response.http_response_set_header render_bytes Response.render_description
    Response.render_headers set_header Response.get_representative_state_code decimal digits
    precedes same strcmp lex c_str
moved-renders = refl

handle_connection-answers_example :
    (sent : Sent) × (rest : Socket) × (handle_connection 20 kernel tcp_socket statics
        fresh_connection
      ≡ after_send statics rest sent)
    × (rest ≡ socket [] would_block)
    × Accounts writing_response moved_bytes sent
unfolding flatten
handle_connection-answers_example =
    handle_connection-answers ◌≡◌ 20 kernel tcp_socket statics fresh_connection
      (codes "GET /a HT" ∷ codes "TP/1.1\r\n\r\n" ∷ []) recv-Presents refl refl refl refl
      fresh-IsBuffer ((λ e. cc), ((λ e. cc), tt)) (omega arith) (omega arith) (omega arith)
      (omega arith) statics request_a moved moved_bytes (λ n. length-replicate n 0) get_a-parses
      get_a-moved moved-IsValid moved-renders (omega arith)

-- The connection behind the first ten bytes of the answer.
abbrev partly_sent : Connection
partly_sent = record {
  state = writing_response;
  file_descriptor = 5;
  buffer = record {
    buffer = some moved_bytes;
    capability = length moved_bytes;
    start = 10;
    end = length moved_bytes;
  };
  request = cleared;
  response = complete (with_server moved);
}

runs :
    handle_connection 20 kernel tcp_socket statics fresh_connection
    ≡ kept statics partly_sent (take 10 moved_bytes) (socket [] would_block)
unfolding handle_connection receive Receive.receive_round Receive.recv fill Fill.shift
    Fill.copy_pages Fill.copy_last Fill.copy_all Fill.write_at Respond.respond Respond.prepare
    Respond.render_into send_loop Response.http_response_render Response.measure_response_size
    Request.http_request_from_buffer Request.http_request_destroy Request.parse_start_line
    Request.parse_method Request.parse_token Request.take_token Request.skip_whitespaces
    Request.expect_crlf Request.range_non_blank Request.strncmp_eq Request.parse_headers
    Request.range_line Request.finish isspace handle_http_transaction Transaction.get_url
    Transaction.route Transaction.redirect http_request_get_url copy_out
    Response.http_response_set_code Response.http_response_set_header Response.free_description
    Response.get_default_description set_header precedes same strcmp lex c_str decimal digits
    complete render_bytes Response.render_description Response.render_headers
    Response.get_representative_state_code Response.measure_headers
runs = refl

handle_connection-IsConnection_example : IsConnection partly_sent
handle_connection-IsConnection_example =
    handle_connection-IsConnection kernel recv-Fits (λ n. length-replicate n 0) tcp_socket statics
      fresh_connection
      (record {
        buffered = fresh-IsBuffer;
        requested = cleared-IsValid;
        answered = (record { sorted = tt; described = refl; embodied = refl }, (λ e. cc));
      })
      (omega arith) 20 statics partly_sent (take 10 moved_bytes) (socket [] would_block) runs
      (omega arith)

abbrev started : Request.Request
started = record cleared {
  state = Request.invalid;
  start_line = record cleared.start_line {
    url = some (codes "/a");
    url_length = 2;
    http_version = some (codes "HT");
    http_version_length = 2;
  };
}

starts : http_request_from_buffer cleared (codes "GET /a HT") ≡ stop incomplete_request started
unfolding Request.http_request_from_buffer Request.http_request_destroy Request.parse_start_line
    Request.parse_method Request.parse_token Request.take_token Request.skip_whitespaces
    Request.expect_crlf Request.range_non_blank Request.strncmp_eq isspace c_str
starts = refl

handle_connection-waits_example :
    (d : Connection) × (rest : Socket) × (handle_connection 20 kernel_first tcp_socket statics
        fresh_connection
      ≡ kept statics d [] rest)
    × (rest ≡ socket [] would_block)
    × (d.state ≡ waiting_request)
    × (d.request ≡ started)
    × IsBuffer d.buffer
    × (unread d.buffer ≡ unread fresh_connection.buffer ++ flatten (codes "GET /a HT" ∷ []))
unfolding flatten
handle_connection-waits_example =
    handle_connection-waits ◌≡◌ 20 kernel_first tcp_socket statics fresh_connection
      (codes "GET /a HT" ∷ []) recv-Presents refl refl refl refl fresh-IsBuffer ((λ e. cc), tt)
      (omega arith) (omega arith) (omega arith) (omega arith) started starts
