-- ===== src/Transport/Tests.antt =====
-- TLS connections as transports at concrete inputs, and the theorems applied there.
use h_ss.Prelude.{◌≡◌, refl, true, [], ◌∷◌, none, some, codes, Bytes}
use h_ss.Descriptors.{tls_socket}
use h_ss.Tls
use h_ss.Tls.{
  Gnutls, GnutlsError, fatal_alert_received, Operation, Underlying, initialized, handshake_state,
  set_errno, transfer,
}
use h_ss.Connection.{Kernel, handle_connection}
use h_ss.Connection.Receive
use h_ss.Connection.Receive.{Socket, Recv, recv, would_block}
use h_ss.Connection.Receive.Drained.{socket}
use h_ss.Transport.{recv_of, tls_transport}
use h_ss.Transport.Presented.{after_handshake_error, handle_connection-handshakes}
use h_ss.Samples.{fresh_connection, world, statics}

abbrev operation_of : Recv → Operation Bytes
operation_of (Receive.received bytes) = Tls.size bytes
operation_of Receive.again = Tls.error Tls.again
operation_of Receive.error = Tls.error fatal_alert_received

-- Records that are those of a socket.
abbrev gnutls : Gnutls Socket
gnutls = record {
  handshake = λ s. (none, s);
  record_recv = λ n s. (operation_of (recv s n).0, (recv s n).1);
  record_send = λ b s. (Tls.size 0, s);
  bye = λ s. (none, s);
}

operation_of-seen : (r : Recv) → recv_of (transfer (operation_of r)) ≡ r
unfolding set_errno
operation_of-seen (Receive.received bytes) = refl
operation_of-seen Receive.again = refl
operation_of-seen Receive.error = refl

abbrev greeting : Socket
greeting = socket (codes "GET /a HT" ∷ []) would_block

abbrev opening : Underlying Socket
opening = record { state = initialized; session = greeting }

-- The peer refuses.
abbrev refused : Gnutls Socket
refused = record gnutls { handshake = λ s. (some fatal_alert_received, s) }

abbrev kernel : Kernel (Underlying Socket)
kernel = record {
  readable = true;
  writable = true;
  recv = tls_transport refused;
  socket = opening;
  results = [];
  granted = true;
  junk = 7;
  world = world;
}

handle_connection-handshakes_example :
    handle_connection 20 kernel tls_socket statics fresh_connection
    ≡ after_handshake_error statics fresh_connection greeting fatal_alert_received
handle_connection-handshakes_example =
    handle_connection-handshakes refused 19 kernel tls_socket statics fresh_connection greeting
      fatal_alert_received refl refl refl refl refl
