-- ===== src/Transport.antt =====
-- tcp_connection.c, and how server.c sees the `recv` of a connection: a plain connection's is the one
-- of the kernel, a TLS connection's is `tls_recv`. What is logged is left out.
pub mod Presented
mod Tests
use h_ss.Prelude.{ℕ, none, Bytes}
use h_ss.Hooks.{Hooks, tcp_hooks, tls_hooks}
use h_ss.Statics.{Outcome, ok, ◌>>=◌}
use h_ss.Descriptors.{DescriptorType, listen_socket, tcp_socket, tls_socket}
use h_ss.Tls.{
  Gnutls, Underlying, Errno, eagain, eintr, ebadf, cleared, Transfer, transferred, minus_one,
  tls_recv,
}
use h_ss.Tls.Credential.{Credentials, Setup, TlsConnection, tls_initialize_underlying}
use h_ss.Connection.Receive.{Socket, Recv, received, again, error, recv}

-- What the receiving loop makes of a result: EAGAIN is no more for now, any other `errno` an error.
abbrev pub recv_of : Transfer Bytes → Recv
recv_of (transferred bytes) = received bytes
recv_of (minus_one eagain) = again
recv_of (minus_one eintr) = error
recv_of (minus_one ebadf) = error
recv_of (minus_one cleared) = error

-- `recv` on the descriptor, without flags.
abbrev pub tcp_recv : Socket → ℕ → Recv × Socket
tcp_recv s nbytes = recv s nbytes

abbrev pub tls_transport : {S : Type 0} → Gnutls S → Underlying S → ℕ → Recv × Underlying S
tls_transport g u nbytes = (recv_of (tls_recv g u nbytes).0, (tls_recv g u nbytes).1)

abbrev pub tcp_initialize_underlying : Hooks → Hooks
tcp_initialize_underlying memory = tcp_hooks

-- The end of `initialize_connection_information`: the function pointers and the certificate.
unfoldable pub initialize_underlying :
    DescriptorType → Hooks → Setup → Credentials → Outcome (Hooks × Credentials)
initialize_underlying tcp_socket memory r s = ok (tcp_initialize_underlying memory, s)
initialize_underlying type memory r s =
    tls_initialize_underlying r s >>= λ t. ok (TlsConnection.hooks t.0, t.1)
