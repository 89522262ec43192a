-- ===== src/Tls.antt =====
-- tls_connection.c: the state of a TLS connection, its receiving and sending, and its end. GnuTLS is
-- a parameter: a session and what its functions return, with the session that they leave. The calls
-- that only log are left out.
pub mod Credential
pub mod Closing
pub mod Leak
pub mod Protocol
mod Tests
use h_ss.Prelude.{ℕ, zero, suc, Option, none, some, Bytes}

-- The error codes of GnuTLS that are told apart, by name, and the others.
pub data GnutlsError : Type 0 where
  again interrupted warning_alert_received fatal_alert_received : GnutlsError
  other : ℕ → GnutlsError

-- What a receiving or sending function returns: a size that is not negative (for the receiving one
-- with the bytes), or an error code.
pub data Operation {ℓ} (A : Type ℓ) : Type ℓ where
  size : A → Operation A
  error : GnutlsError → Operation A

-- `none` as an error code is 0.
pub record Gnutls (S : Type 0) : Type 0 where
  pub handshake : S → Option GnutlsError × S
  pub record_recv : ℕ → S → Operation Bytes × S
  pub record_send : Bytes → S → Operation ℕ × S
  pub bye : S → Option GnutlsError × S

pub data TlsState : Type 0 where
  initialized handshaking established failed : TlsState

pub record Underlying (S : Type 0) : Type 0 where
  pub state : TlsState
  pub session : S

-- The values of `errno` that are set; `cleared` is 0.
pub data Errno : Type 0 where
  eagain eintr ebadf cleared : Errno

unfoldable pub set_errno : GnutlsError → Errno
set_errno again = eagain
set_errno warning_alert_received = eagain
set_errno interrupted = eintr
set_errno fatal_alert_received = ebadf
set_errno (other _) = cleared

-- The state after a handshake with this result.
unfoldable pub handshake_state : TlsState → Option GnutlsError → TlsState
handshake_state state none = established
handshake_state state (some fatal_alert_received) = failed
handshake_state state (some again) = state
handshake_state state (some interrupted) = state
handshake_state state (some warning_alert_received) = state
handshake_state state (some (other _)) = state

unfoldable pub do_handshake :
    {S : Type 0} → Gnutls S → Underlying S → Option GnutlsError × Underlying S
do_handshake g u =
    let (result, session) = g.handshake u.session in
    (result, record { state = handshake_state u.state result; session = session })

-- A size, or -1 with `errno`.
pub data Transfer {ℓ} (A : Type ℓ) : Type ℓ where
  transferred : A → Transfer A
  minus_one : Errno → Transfer A

abbrev pub transfer : {A : Type 0} → Operation A → Transfer A
transfer (size a) = transferred a
transfer (error e) = minus_one (set_errno e)

-- The second half of `tls_recv_send`.
abbrev pub operate :
    {S A : Type 0} → (S → Operation A × S) → TlsState → S → Transfer A × Underlying S
operate operation established session =
    let (result, next) = operation session in
    (transfer result, record { state = established; session = next })
operate operation initialized session =
    (minus_one ebadf, record { state = initialized; session = session })
operate operation handshaking session =
    (minus_one ebadf, record { state = handshaking; session = session })
operate operation failed session = (minus_one ebadf, record { state = failed; session = session })

abbrev pub after_handshake :
    {S A : Type 0}
    → (S → Operation A × S)
    → Option GnutlsError × Underlying S
    → Transfer A × Underlying S
after_handshake operation (some e, u) = (minus_one (set_errno e), u)
after_handshake operation (none, u) = operate operation u.state u.session

abbrev pub by_state :
    {S A : Type 0}
    → Gnutls S
    → (S → Operation A × S)
    → TlsState
    → Underlying S
    → Transfer A × Underlying S
by_state g operation failed u = (minus_one ebadf, u)
by_state g operation initialized u = after_handshake operation (do_handshake g u)
by_state g operation handshaking u = after_handshake operation (do_handshake g u)
by_state g operation established u = operate operation u.state u.session

unfoldable pub tls_recv_send :
    {S A : Type 0} → Gnutls S → Underlying S → (S → Operation A × S) → Transfer A × Underlying S
tls_recv_send g u operation = by_state g operation u.state u

unfoldable pub tls_recv : {S : Type 0} → Gnutls S → Underlying S → ℕ → Transfer Bytes × Underlying S
tls_recv g u nbytes = tls_recv_send g u (g.record_recv nbytes)

unfoldable pub tls_send : {S : Type 0} → Gnutls S → Underlying S → Bytes → Transfer ℕ × Underlying S
tls_send g u bytes = tls_recv_send g u (g.record_send bytes)

-- What the loop of `tls_destroy_underlying` comes to: the last result, or the model's fuel ends.
pub data Goodbye (S : Type 0) : Type 0 where
  closed : Option GnutlsError → S → Goodbye S
  out_of_fuel : Goodbye S

unfoldable pub tls_destroy_underlying : {S : Type 0} → Gnutls S → ℕ → S → Goodbye S
tls_destroy_underlying g zero session = out_of_fuel
tls_destroy_underlying g (suc fuel) session =
    let rest = tls_destroy_underlying g fuel (g.bye session).1 in
    elim (g.bye session).0 [ some again ↦ rest | result ↦ closed result (g.bye session).1 ]
