-- ===== src/Transport/Presented.antt =====
-- tls_connection.c under server.c: a TLS connection whose handshake fails.
use h_ss.Prelude.{ℕ, suc, ◌≡◌, refl, ap, ◌∙◌, true, [], some, if◌then◌else◌, Option, Bytes}
use h_ss.Descriptors.{DescriptorType, Connection, waiting_request}
use h_ss.Statics.{Statics}
use h_ss.Tls.{
  Gnutls, GnutlsError, again, interrupted, warning_alert_received, fatal_alert_received, other,
  initialized, Underlying, Errno, eagain, eintr, ebadf, cleared, Transfer, minus_one, set_errno,
  handshake_state, after_handshake, do_handshake, tls_recv_send, tls_recv,
}
use h_ss.Connection.Receive.{Recv, Received, stopped, closed, no_pages, receive, receive_round}
use h_ss.Connection.{Kernel, Handled, kept, destroyed, after_receive, by_state, handle_connection}
use h_ss.Transport.{recv_of, tls_transport}

abbrev seen : {S : Type 0} → Transfer Bytes × Underlying S → Recv × Underlying S
seen x = (recv_of x.0, x.1)

-- What comes of a connection whose handshake fails with this `errno`.
abbrev pub after_failure :
    {S : Type 0} → Statics → Connection → Underlying S → Errno → Handled (Underlying S)
after_failure s c u eagain = kept s c [] u
after_failure s c u eintr = destroyed s c []
after_failure s c u ebadf = destroyed s c []
after_failure s c u cleared = destroyed s c []

abbrev failed_receive : {S : Type 0} → Underlying S → Errno → Received (Underlying S)
failed_receive u eagain = stopped no_pages u
failed_receive u eintr = closed no_pages u
failed_receive u ebadf = closed no_pages u
failed_receive u cleared = closed no_pages u

receive_failed :
    {S : Type 0} (get : Underlying S → ℕ → Recv × Underlying S) (fuel : ℕ) (t u : Underlying S)
    (e : Errno)
    → get t 4096 ≡ (recv_of (minus_one e), u)
    → receive get (suc fuel) no_pages t ≡ failed_receive u e
unfolding receive receive_round
receive_failed get fuel t u eagain h = rw (h, receive) refl
receive_failed get fuel t u eintr h = rw (h, receive) refl
receive_failed get fuel t u ebadf h = rw (h, receive) refl
receive_failed get fuel t u cleared h = rw (h, receive) refl

after_failed :
    {S : Type 0} (k : Kernel (Underlying S)) (type : DescriptorType) (s : Statics) (c : Connection)
    (u : Underlying S) (e : Errno)
    → after_receive k type s c (failed_receive u e) ≡ after_failure s c u e
after_failed k type s c u eagain = refl
after_failed k type s c u eintr = refl
after_failed k type s c u ebadf = refl
after_failed k type s c u cleared = refl

after_recv :
    {S : Type 0} (fuel : ℕ) (k : Kernel (Underlying S)) (type : DescriptorType) (s : Statics)
    (c : Connection) (e : Errno) (u : Underlying S)
    → k.recv k.socket 4096 ≡ (recv_of (minus_one e), u)
    → k.readable ≡ true
    → c.state ≡ waiting_request
    → handle_connection (suc fuel) k type s c ≡ after_failure s c u e
unfolding handle_connection
after_recv fuel k type s c e u h r w =
    ap (by_state (suc fuel) k type s c) w
    ∙ ap
        (λ b.
          if b
          then after_receive k type s c (receive k.recv (suc fuel) no_pages k.socket)
          else kept s c [] k.socket)
        r
    ∙ ap (after_receive k type s c) (receive_failed k.recv fuel k.socket u e h)
    ∙ after_failed k type s c u e

-- What comes of a connection whose handshake fails, error by error.
abbrev pub after_handshake_error :
    {S : Type 0} → Statics → Connection → S → GnutlsError → Handled (Underlying S)
after_handshake_error s c session again =
    kept s c [] (record { state = initialized; session = session })
after_handshake_error s c session warning_alert_received =
    kept s c [] (record { state = initialized; session = session })
after_handshake_error s c session interrupted = destroyed s c []
after_handshake_error s c session fatal_alert_received = destroyed s c []
after_handshake_error s c session (other code) = destroyed s c []

after_failure_lem :
    {S : Type 0} (s : Statics) (c : Connection) (session : S) (e : GnutlsError)
    → after_failure s c
        (record { state = handshake_state initialized (some e); session = session })
        (set_errno e)
      ≡ after_handshake_error s c session e
unfolding handshake_state set_errno
after_failure_lem s c session again = refl
after_failure_lem s c session warning_alert_received = refl
after_failure_lem s c session interrupted = refl
after_failure_lem s c session fatal_alert_received = refl
after_failure_lem s c session (other code) = refl

-- A waiting TLS connection that is readable and whose handshake has not succeeded yet, and fails again:
-- nothing is read or sent and the connection is as it was. It goes on waiting with the session behind
-- that handshake, when GnuTLS answers GNUTLS_E_AGAIN or GNUTLS_E_WARNING_ALERT_RECEIVED, and is
-- destroyed for any other error.
pub handle_connection-handshakes :
    {S : Type 0} (g : Gnutls S) (fuel : ℕ) (k : Kernel (Underlying S)) (type : DescriptorType)
    (s : Statics) (c : Connection) (session : S) (e : GnutlsError)
    → k.recv ≡ tls_transport g
    → k.socket ≡ record { state = initialized; session = session }
    → k.readable ≡ true
    → c.state ≡ waiting_request
    → (g.handshake session).0 ≡ some e
    → handle_connection (suc fuel) k type s c ≡ after_handshake_error s c (g.handshake session).1 e
unfolding tls_recv tls_recv_send do_handshake handshake_state
handle_connection-handshakes g fuel k type s c session e recvs at r w fails =
    let u : Underlying _ = record {
      state = handshake_state initialized (some e);
      session = (g.handshake session).1;
    } in
    let read = λ (r : Option GnutlsError). seen (
      after_handshake (g.record_recv 4096)
        (r, record { state = handshake_state initialized r; session = (g.handshake session).1 })) in
    after_recv fuel k type s c (set_errno e) u
      (ap (λ f. f k.socket 4096) recvs ∙ ap (λ x. tls_transport g x 4096) at ∙ ap read fails) r w
    ∙ after_failure_lem s c (g.handshake session).1 e
