-- ===== src/Lib.antt =====
-- hSS, a small static HTTP server in C (http.c, server.c and their neighbours).
--
-- Headers models the sorted header list of http.c, Request its request structure and parser, and
-- Response its response structure and renderer. Range models the parser of the Range header in
-- http_hl.c. Of server.c, Descriptors models the list of open descriptors, Statics the static
-- variables with `current_working_directory`, Authorization `get_authorization_code`, Transaction
-- `handle_http_transaction`, Connection `handle_connection`, Sockets the listening sockets and the
-- accepting of connections, and Server `main` with its event loop. Tls models tls_connection.c,
-- Transport tcp_connection.c and how server.c sees the `recv` of either kind of connection, Hooks the
-- function pointers of a connection, Logging the messages and the log level of common.c, and Peer the
-- address and the port of the peer.
--
-- `main` makes the authorization code, listens to both ports and handles the events of `epoll_wait`
-- one by one (Server): it destroys a node that hung up, accepts on a listening socket, or calls
-- `handle_connection`. A server is its static variables, its descriptor list and the function pointers
-- of its connections: `initialize_connection_information` may end the process while it sets up a TLS
-- connection or leave its pointers unset, and `destroy_underlying`, which is called when a node is
-- destroyed, may go on for ever. Server has both as parts of an event; Descriptors has what else is done
-- to the list. Server.Runs has the runs of events as a data type, to which Server.Loop relates the
-- loops; Server.Start is about what they begin with. Server.Served and Server.Turns, Server.Guard
-- and Server.Stops are about one event, with rules for the function pointers in Server.Underlying, and
-- Server.Whole and Server.Authority about a whole run; Server.Answers is about an event that completes
-- a request, and Server.Isolation about the nodes that an event is not of.
--
-- server.c empties a socket into pages (Connection.Receive), puts them behind the unread bytes of the
-- buffer (Connection.Fill), hands the buffer to `http_request_from_buffer`, lets
-- `handle_http_transaction` fill a response by `http_response_set_code`, `http_response_set_header`
-- and `http_response_set_body`, renders it into the buffer by `http_response_render`
-- (Connection.Respond), and sends it, over several events if need be (Connection.Send). The
-- transaction redirects a plain connection, performs a magic call, or answers with a file; the value
-- of the Range header goes to `parse_range`, whose result says which bytes of the file become the
-- body. A TLS connection receives and sends by the functions of Tls.
--
-- A block of memory is a list of bytes. A block that ends in a NUL is kept without the NUL, and
-- `c_str` cuts it at the first NUL inside. A cursor into the request buffer is the rest of the
-- buffer. The nodes of the descriptor list stand in a store, each at its address. What the kernel and
-- the C library answer stands in the records `World` (Transaction) and `Kernel` (Connection), and
-- what GnuTLS answers in `Gnutls` (Tls). `handle_connection` takes the `recv` of its connection as a
-- function on what that keeps, a socket or a TLS session; a socket is the chunks that arrive and what
-- `recv` says behind them. An `Event` (Server) is one of those that `epoll_wait` reports, with what the
-- kernel has for it, and the calls of `epoll_wait` are a list of lists of events. Undefined behaviour
-- is a value: `fault` in the parser of requests, in a transaction, in a connection and in the server,
-- `dead_block` where all descriptors are closed, and `none` elsewhere; an `exit`
-- of the process is `exits`. `malloc` succeeds, and sizes do not wrap but in Range, Connection.Fill
-- and Connection.Send, which write the wrap-around out.
--
-- The loop over header lines runs on fuel, one more than the bytes left: each line takes two bytes
-- at least. Closing all descriptors runs on fuel, one more than there are live nodes. Decimal printing
-- makes 20 rounds, enough for a 64-bit number. The receiving loop runs on fuel, for which one more
-- than the bytes of the socket is enough where the loop ends. The loop of `tls_destroy_underlying`
-- runs on fuel, for which one more than the calls that have to wait is enough.
--
-- Not modelled: `epoll_create1`, `epoll_ctl` and the options of sockets (server.c), which only call the
-- kernel, and the debug dump of a request (http.c), which is output only and which nothing calls. The
-- closing of all descriptors behind the event loop is modelled for the list alone
-- (`close_all_file_descriptors` in Descriptors), without the calls of `destroy_underlying`. The cleaning
-- up of blocks at the end of a function, and logging calls, are left out of the functions that have
-- them.
pub mod Authorization
pub mod Connection
pub mod Decimal
pub mod Descriptors
pub mod Errors
pub mod Headers
pub mod Hooks
pub mod Logging
pub mod Peer
pub mod Prelude
pub mod Range
pub mod Request
pub mod Response
pub mod Samples
pub mod Server
pub mod Sockets
pub mod Statics
pub mod Tls
pub mod Transaction
pub mod Transport
