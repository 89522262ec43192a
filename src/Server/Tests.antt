-- ===== src/Server/Tests.antt =====
-- A run of the whole server at concrete inputs, and the theorems applied there.
use mathlib.Core.Option
use h_ss.Prelude.{
  none, false, ◌≡◌, ◌⊎◌, refl, true, [], ◌∷◌, some, isspace, c_str, strcmp, lex, memcmp_eq,
}
use h_ss.Authorization
use h_ss.Authorization.{get_authorization_code}
use h_ss.Statics
use h_ss.Statics.{Statics}
use h_ss.Headers.{precedes, same, set_header}
use h_ss.Descriptors.{
  Connection, find_node, register_file_descriptor, initialize_connection_information,
}
use h_ss.Sockets.{listen_address, listen_addresses, accept_connection}
use h_ss.Connection.{handle_connection}
use h_ss.Connection.Receive
use h_ss.Connection.Receive.{Socket, recv, would_block, receive}
use h_ss.Connection.Send.{send_loop}
use h_ss.Connection.Fill
use h_ss.Connection.Respond
use h_ss.Request
use h_ss.Request.Query
use h_ss.Response
use h_ss.Transaction
use h_ss.Transport.{initialize_underlying}
use h_ss.Tls.{fatal_alert_received}
use h_ss.Tls.Credential.{tls_initialize_underlying, get_credential, load_credential}
use h_ss.Server.{
  set_connection, serve, destroy_underlying, Server, Event, Turn, continues, leaves, runs_on, fault,
  exits, handle_event, handle_events, main_loop, start,
}
use h_ss.Server.Runs.{all_events}
use h_ss.Server.Authority.{WasDeserted, WasAuthorized, main_loop-authority}
use h_ss.Samples.{statics}
use h_ss.Server.Samples.{http, https, begun, comes, asks, session, connected, loading}

begins_so : start (0, 0, 0) http https statics ≡ Statics.ok begun
unfolding start get_authorization_code Authorization.characters Authorization.sextets
    Authorization.shifted listen_addresses listen_address register_file_descriptor
begins_so = refl

abbrev server_of : Turn → Server
server_of (continues u) = u
server_of (leaves u) = u
server_of runs_on = begun
server_of fault = begun
server_of exits = begun

abbrev IsLeft : Turn → Type 0
IsLeft t = t ≡ leaves (server_of t)

stops : IsLeft (main_loop session begun)
unfolding main_loop handle_events handle_event find_node accept_connection register_file_descriptor
    initialize_underlying tls_initialize_underlying get_credential load_credential serve
    destroy_underlying set_connection initialize_connection_information handle_connection receive
    Receive.receive_round Receive.recv Fill.fill Fill.shift Fill.copy_pages Fill.copy_last
    Fill.copy_all Fill.write_at Respond.respond Respond.prepare Respond.render_into send_loop
    Response.http_response_render Response.measure_response_size Response.http_response_set_code
    Response.http_response_set_header Response.free_description Response.get_default_description
    Response.complete Response.render_bytes Response.render_description Response.render_headers
    Response.get_representative_state_code Response.measure_headers
    Response.http_response_initialize Request.http_request_initialize
    Request.http_request_from_buffer Request.http_request_destroy Request.parse_start_line
    Request.parse_method Request.parse_token Request.take_token Request.skip_whitespaces
    Request.expect_crlf Request.range_non_blank Request.strncmp_eq Request.parse_headers
    Request.range_line Request.finish Request.parse_header Request.strchr_colon Request.any_space
    Request.trim_end Request.store_value Request.add_header isspace h_ss.Headers.insert_header
    precedes strcmp lex c_str same set_header h_ss.Headers.get Transaction.handle_http_transaction
    Transaction.get_url Transaction.route Transaction.handle_magic_call Transaction.perform_call
    get_authorization_code h_ss.Range.strip_prefix Query.get_request_header
    Query.http_request_get_url Query.copy_out Query.http_request_get_header memcmp_eq
    h_ss.Decimal.decimal h_ss.Decimal.digits
stops = refl

abbrev stopped : Server
stopped = server_of (main_loop session begun)

main_loop-authority_example :
    WasDeserted begun (all_events session) stopped ⊎ WasAuthorized begun (all_events session)
main_loop-authority_example =
    main_loop-authority (0, 0, 0) http https statics session begun stopped refl begins_so stops

-- The newest of the three connections hangs up.
abbrev hangs_up : Event Socket
hangs_up = record asks { hung_up = true }

-- The certificate of the connection that comes in cannot be loaded.
abbrev unloaded : Event Socket
unloaded = record comes {
  setup = record {
    init = none;
    priority = none;
    credentials_set = none;
    loading = record loading { load = some fatal_alert_received };
  };
}

unloaded_ends : handle_event unloaded begun ≡ exits
unfolding handle_event find_node initialize_underlying tls_initialize_underlying get_credential
    load_credential
unloaded_ends = refl

-- The session of the connection that comes in is not initialized, and then a request comes.
abbrev uninitialized : Event Socket
uninitialized = record comes {
  setup = record {
    init = some fatal_alert_received;
    priority = none;
    credentials_set = none;
    loading = loading;
  };
}

uninitialized_is_called : handle_events (uninitialized ∷ asks ∷ []) begun ≡ fault
unfolding handle_events handle_event find_node accept_connection register_file_descriptor serve
    initialize_connection_information initialize_underlying tls_initialize_underlying
uninitialized_is_called = refl

-- The peer of the newest connection hangs up and never answers the end of its session.
never_ends : handle_event (record asks { hung_up = true; closes = false }) connected ≡ runs_on
unfolding handle_event find_node destroy_underlying h_ss.Descriptors.destroy_file_information
    h_ss.Descriptors.write_link h_ss.Descriptors.destroy_connection_information
    Response.http_response_destroy Response.free_pointer initialize_connection_information
    Response.http_response_initialize
never_ends = refl
