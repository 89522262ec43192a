-- ===== src/Sockets.antt =====
-- server.c: the listening sockets and the connections that are accepted. What `epoll_ctl` and the
-- options of a socket do is left out; ports are those of a build with NDEBUG.
use h_ss.Prelude.{ℕ, Bool, not, ◌&&◌, List, [], ◌∷◌, Option, none, some, if◌then◌else◌, ◌==◌}
use h_ss.Transaction.{https_port}
use h_ss.Descriptors.{
  Connection, listen_socket, tcp_socket, tls_socket, Descriptors, register_file_descriptor,
}

abbrev pub http_port : ℕ
http_port = 80

-- What `socket` returns, and whether `bind` and `listen` succeed.
pub record Attempt : Type 0 where
  pub socket : Option ℕ
  pub bound : Bool
  pub listening : Bool

-- Where `malloc` puts a node, and what it holds.
pub record Block : Type 0 where
  pub address : ℕ
  pub memory : Connection

unfoldable pub listen_address : Block → Attempt → Descriptors → Descriptors
listen_address b a s = elim a.socket [
  | none ↦ s
  | some file_descriptor ↦
      if a.bound
      then (if a.listening
          then register_file_descriptor b.address b.memory s file_descriptor listen_socket
          else s)
      else s
]

-- The loop over the addresses that `getaddrinfo` gives.
unfoldable pub listen_addresses : List (Block × Attempt) → Descriptors → Descriptors
listen_addresses [] s = s
listen_addresses ((b, a) ∷ targets) s = listen_addresses targets (listen_address b a s)

pub data Family : Type 0 where
  inet inet6 other : Family

-- A connection that `accept` gives, with its own address.
pub record Accepted : Type 0 where
  pub file_descriptor : ℕ
  pub family : Family
  pub port : ℕ

abbrev pub close : ℕ → Descriptors → Descriptors
close file_descriptor s = record s { closed = file_descriptor ∷ s.closed }

abbrev pub accept_port : Block → Accepted → Descriptors → Descriptors
accept_port b a s =
    if not (a.port == http_port) && not (a.port == https_port)
    then close a.file_descriptor s
    else register_file_descriptor b.address b.memory s a.file_descriptor
        (if a.port == http_port then tcp_socket else tls_socket)

abbrev pub accept_family : Block → Accepted → Family → Descriptors → Descriptors
accept_family b a inet s = accept_port b a s
accept_family b a inet6 s = accept_port b a s
accept_family b a other s = close a.file_descriptor s

unfoldable pub accept_connection : Block → Option Accepted → Descriptors → Descriptors
accept_connection b none s = s
accept_connection b (some a) s = accept_family b a a.family s
