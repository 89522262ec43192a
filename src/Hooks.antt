-- ===== src/Hooks.antt =====
-- common.h: the function pointers `recv`, `send` and `destroy_underlying` of a connection.

-- Those of a plain or of a TLS connection, or what the connection's memory held.
pub data Hooks : Type 0 where
  tcp_hooks tls_hooks memory_hooks : Hooks
