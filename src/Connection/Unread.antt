-- ===== src/Connection/Unread.antt =====
-- server.c: a connection that is being answered does not read. Its descriptor is watched for edges
-- (`EPOLLET`), so what has arrived meanwhile is not reported again.
use std.Path.{subst}
use h_ss.Prelude.{ℕ, ◌≡◌, refl, sym, ap, ◌∙◌, inl, inr, [], Bytes, Bool-cases}
use h_ss.Descriptors.{DescriptorType, Connection, writing_response}
use h_ss.Statics.{Statics}
use h_ss.Connection.{
  Kernel, Handled, kept, destroyed, runs_on, fault, exits, after_send, by_state, handle_connection,
}
use h_ss.Connection.Send.{Sent, finished, paused, broken, send_loop}

abbrev Unread : {S : Type 0} → S → Handled S → Type 0
Unread u (kept s c out rest) = rest ≡ u
Unread u (destroyed s c out) = Unit
Unread u runs_on = Unit
Unread u fault = Unit
Unread u exits = Unit

after_send-Unread : {S : Type 0} (s : Statics) (u : S) (o : Sent) → Unread u (after_send s u o)
after_send-Unread s u (finished c out) = refl
after_send-Unread s u (paused c out) = refl
after_send-Unread s u (broken c out) = tt

-- A call that finds a response to send, reads nothing, also when it has sent the response and waits for
-- the next request, and whatever has arrived.
pub handle_connection-unread :
    {S : Type 0} (fuel : ℕ) (k : Kernel S) (type : DescriptorType) (s t : Statics)
    (c d : Connection) (out : Bytes) (rest : S)
    → c.state ≡ writing_response
    → handle_connection fuel k type s c ≡ kept t d out rest
    → rest ≡ k.socket
unfolding handle_connection
handle_connection-unread fuel k type s t c d out rest writing e =
    subst (Unread k.socket) (sym (ap (by_state fuel k type s c) writing) ∙ e)
      (elim (Bool-cases k.writable) [
        | inl given ↦ rw given (after_send-Unread s k.socket (send_loop k.results c []))
        | inr denied ↦ rw denied refl
      ])
