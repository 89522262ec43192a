-- ===== src/Server/Answers/Tests.antt =====
-- A request on the TLS connection of the sample, and the theorem applied there.
use std.Path.{subst}
use mathlib.Core.Option
use h_ss.Prelude.{
  ◌+◌, ◌*◌, ◌^◌, ◌≤◌, ◌≡◌, refl, arith, [], ◌∷◌, some, Bytes, codes, length-replicate, c_str,
  strcmp, lex,
}
use h_ss.Headers.{precedes, same, set_header}
use h_ss.Decimal.{decimal, digits}
use h_ss.Response
use h_ss.Response.{Response, http_response_initialize, render_bytes, complete}
use h_ss.Response.Valid.{IsValid}
use h_ss.Request.{http_request_initialize}
use h_ss.Request.Query
use h_ss.Statics
use h_ss.Transaction
use h_ss.Transaction.{handle_http_transaction}
use h_ss.Descriptors.{
  Connection, Information, node_of, tls_socket, initialize_connection_information, find_node,
  writing_response,
}
use h_ss.Connection.{handle_connection, after_send}
use h_ss.Connection.Answered.{with_server}
use h_ss.Connection.Receive.{Socket, would_block, page_size, page_count}
use h_ss.Connection.Receive.Drained.{socket}
use h_ss.Connection.Receive.Follows.{recv-Presents}
use h_ss.Connection.Receive.Paged.{recv-Fits}
use h_ss.Connection.Receive.Step.{flatten}
use h_ss.Connection.Send.{Sent}
use h_ss.Connection.Send.Exact.{Accounts}
use h_ss.Server.{Server, Event, continues, handle_event}
use h_ss.Server.Samples.{connected, asks, kernel, with_code}
use h_ss.Server.Served.{IsServed, IsRoomy, new_connection-Bounded}
use h_ss.Server.Answers.{LeftAs, handle_event-answers}
use h_ss.Samples.{request_a, get_a-parses, fresh_connection, fresh_response, world}

abbrev arrives : Event Socket
arrives = record asks {
  kernel = record kernel {
    socket = socket (codes "GET /a HT" ∷ codes "TP/1.1\r\n\r\n" ∷ []) would_block;
  };
}

abbrev accepted : Connection
accepted = initialize_connection_information fresh_connection 5

abbrev node : Information
node = (node_of 300 fresh_connection (some 200) 5 tls_socket).information

connected-IsServed : IsServed connected
connected-IsServed =
    ((refl, new_connection-Bounded fresh_connection 5), ((refl, refl), ((refl, refl), tt)))

connected-IsRoomy : IsRoomy connected
unfolding initialize_connection_information
connected-IsRoomy = (
  λ c e.
      subst (λ (x : Connection). x.buffer.capability + page_size * page_count ≤ 2 ^ 64)
        (Option.some-injective _ c e) (omega arith),
  ((λ c e. cc), ((λ c e. cc), tt)),
)

abbrev missing : Response
missing = record fresh_response {
  state_line = record {
    code = Response.http_not_found;
    description = Response.live (codes "Not Found");
    description_length = 9;
  };
}

abbrev missing_bytes : Bytes
missing_bytes =
    codes "HTTP/1.1 404 Not Found\r\nContent-Length: 0\r\nServer: hSS/0.0.1-alpha\r\n\r\n"

get_a-missing :
    handle_http_transaction world tls_socket with_code request_a accepted.response
    ≡ Statics.ok (with_code, missing)
unfolding handle_http_transaction Transaction.get_url Transaction.route Transaction.handle_file
    initialize_connection_information http_response_initialize Query.http_request_get_url
    Query.copy_out Response.http_response_set_code Response.free_description
    Response.get_default_description c_str h_ss.Range.strip_prefix
get_a-missing = refl

missing-IsValid : IsValid missing
missing-IsValid = record { sorted = tt; described = refl; embodied = refl }

missing-renders : render_bytes (complete (with_server missing)) ≡ some missing_bytes
unfolding complete Response.http_response_set_header render_bytes Response.render_description
    Response.render_headers set_header Response.get_representative_state_code decimal digits
    precedes same strcmp lex c_str
missing-renders = refl

handle_event-answers_example :
    (u : Server) × (sent : Sent) × (rest : Socket) × (handle_connection 20 arrives.kernel tls_socket
        with_code accepted
      ≡ after_send with_code rest sent)
    × (handle_event arrives connected ≡ continues u)
    × (u.statics ≡ with_code)
    × Accounts writing_response missing_bytes sent
    × LeftAs 300 node connected.descriptors u.descriptors sent
unfolding flatten find_node initialize_connection_information http_request_initialize
handle_event-answers_example =
    handle_event-answers arrives connected connected-IsServed node accepted refl refl ◌≡◌
      (codes "GET /a HT" ∷ codes "TP/1.1\r\n\r\n" ∷ []) recv-Presents
      (recv-Fits, λ n. length-replicate n 0) connected-IsRoomy refl refl (λ e. cc) refl refl refl
      refl ((λ e. cc), ((λ e. cc), tt)) (omega arith) (omega arith) (omega arith) with_code
      request_a missing missing_bytes get_a-parses get_a-missing missing-IsValid missing-renders
      (omega arith)
