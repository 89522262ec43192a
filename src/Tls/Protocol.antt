-- ===== src/Tls/Protocol.antt =====
-- tls_connection.c: the order in which a connection uses its session.
use h_ss.Prelude.{ℕ, ◌≡◌, List, [], ◌∷◌, Option, none, some, Bytes}
use h_ss.Tls.{
  Operation, Gnutls, GnutlsError, again, interrupted, warning_alert_received, fatal_alert_received,
  other, TlsState, initialized, established, failed, Underlying, tls_recv, tls_send,
}

-- What is asked of a session: a handshake, with its result, or the moving of data.
pub data Use : Type 0 where
  handshook : Option GnutlsError → Use
  moved_data : Use

-- The sessions of a library, with the uses made of them, the last one first.
abbrev pub watched : {S : Type 0} → Gnutls S → Gnutls (S × List Use)
watched g = record {
  handshake = λ t. let (result, s) = g.handshake t.0 in (result, (s, handshook result ∷ t.1));
  record_recv = λ n t. let (result, s) = g.record_recv n t.0 in (result, (s, moved_data ∷ t.1));
  record_send = λ b t. let (result, s) = g.record_send b t.0 in (result, (s, moved_data ∷ t.1));
  bye = λ t. let (result, s) = g.bye t.0 in (result, (s, t.1));
}

-- The protocol: handshakes until one succeeds, then only data; nothing behind a fatal alert of a
-- handshake. A result of the moving of data is not looked at, a fatal alert included.
-- `none` for uses out of this order.
unfoldable pub follow_up : Option TlsState → Use → Option TlsState
follow_up (some initialized) (handshook none) = some established
follow_up (some initialized) (handshook (some fatal_alert_received)) = some failed
follow_up (some initialized) (handshook (some again)) = some initialized
follow_up (some initialized) (handshook (some interrupted)) = some initialized
follow_up (some initialized) (handshook (some warning_alert_received)) = some initialized
follow_up (some initialized) (handshook (some (other _))) = some initialized
follow_up (some established) moved_data = some established
follow_up _ _ = none

unfoldable pub reached : List Use → Option TlsState
reached [] = some initialized
reached (u ∷ us) = follow_up (reached us) u

pub data Call : Type 0 where
  receives : ℕ → Call
  sends : Bytes → Call

abbrev pub call : {S : Type 0} → Gnutls S → Underlying S → Call → Underlying S
call g u (receives n) = (tls_recv g u n).1
call g u (sends b) = (tls_send g u b).1

unfoldable pub calls : {S : Type 0} → Gnutls S → Underlying S → List Call → Underlying S
calls g u [] = u
calls g u (c ∷ cs) = calls g (call g u c) cs

abbrev Orderly : {S : Type 0} → Underlying (S × List Use) → Type 0
Orderly u = reached u.session.1 ≡ some u.state

module _ {S : Type 0} (g : Gnutls S) where
  -- Data is moved by an operation that leaves its trace.
  abbrev IsWatched : {A : Type 0} → (S × List Use → Operation A × (S × List Use)) → Type 0
  IsWatched op = (t : S × List Use) → (op t).1.1 ≡ moved_data ∷ t.1
