-- ===== src/Server/Stops.antt =====
-- server.c: when the event loop is left.
use std.Path.{subst}
use h_ss.Prelude.{
  ℕ, Bool-cases, ◌≡◌, refl, inl, inr, Bool, true, false, if◌then◌else◌, Option, none, some,
}
use h_ss.Descriptors.{
  Information, Descriptors, DescriptorType, Connection, listen_socket, tcp_socket, tls_socket,
  find_node, destroy_file_information,
}
use h_ss.Connection
use h_ss.Connection.{Handled, kept, destroyed, handle_connection}
use h_ss.Server.Underlying.{destroy_underlying-rule, serve-rule, accept-rule}
use h_ss.Server.{
  Server, Event, Turn, continues, leaves, runs_on, fault, exits, with_connection, turn_of,
  after_handle, hang_up, destroy_underlying, serve, accepted_type, by_type, handle_event,
}

-- The server has stopped, and no node is left.
abbrev pub IsStopped : Server → Type 0
IsStopped u = (u.statics.running ≡ false) × (u.descriptors.head ≡ none)

-- The loops are left at a hang-up only, and then the server has stopped.
abbrev Leaves : Bool → Turn → Type 0
Leaves up (continues u) = Unit
Leaves up (leaves u) = (up ≡ true) × IsStopped u
Leaves up runs_on = Unit
Leaves up fault = Unit
Leaves up exits = Unit

hang_up-Leaves : (s : Server) (o : Option Descriptors) → Leaves true (hang_up s o)
hang_up-Leaves s none = tt
hang_up-Leaves s (some d) = by_head d.head refl
  where
    by_head :
        (h : Option ℕ)
        → d.head ≡ h
        → Leaves true (elim h [
          | none ↦
              leaves (record s { statics = record s.statics { running = false }; descriptors = d })
          | some _ ↦ continues (record s { descriptors = d })
        ])
    by_head none e = (refl, (refl, e))
    by_head (some a) e = tt

module _ {S : Type 0} (e : Event S) (t : Server) where
  after_handle-Leaves :
      (type : DescriptorType) (h : Handled S) → Leaves false (after_handle e t type h)
  after_handle-Leaves type (kept s c out rest) = tt
  after_handle-Leaves type (destroyed s c out) =
      destroy_underlying-rule e t (Leaves false) type _
        (by_result (destroy_file_information (with_connection t.descriptors e.address c) e.address))
        (λ _. tt) (λ _. tt)
    where
      by_result : (o : Option Descriptors) → Leaves false (turn_of (record t { statics = s }) o)
      by_result none = tt
      by_result (some d) = tt
  after_handle-Leaves type Connection.runs_on = tt
  after_handle-Leaves type Connection.fault = tt
  after_handle-Leaves type Connection.exits = tt

  by_type-Leaves :
      (type : DescriptorType) (o : Option Connection) → Leaves false (by_type e t type o)
  by_type-Leaves listen_socket o =
      accept-rule e t (Leaves false) (accepted_type e.accepted) (λ h s. tt) (λ k at ends. tt)
  by_type-Leaves tcp_socket none = unfold serve in tt
  by_type-Leaves tcp_socket (some c) =
      serve-rule e t (Leaves false) tcp_socket c
        (after_handle-Leaves tcp_socket (handle_connection e.fuel e.kernel tcp_socket t.statics c))
        (λ _. tt)
  by_type-Leaves tls_socket none = unfold serve in tt
  by_type-Leaves tls_socket (some c) =
      serve-rule e t (Leaves false) tls_socket c
        (after_handle-Leaves tls_socket (handle_connection e.fuel e.kernel tls_socket t.statics c))
        (λ _. tt)

  handle_event-Leaves : Leaves e.hung_up (handle_event e t)
  unfolding handle_event destroy_underlying serve
  handle_event-Leaves = by_node (find_node t.descriptors.nodes e.address)
    where
      by_node :
          (o : Option Information)
          → Leaves e.hung_up (elim o [
            | none ↦ fault
            | some i ↦
                if e.hung_up
                then destroy_underlying e t i.type
                    (hang_up t (destroy_file_information t.descriptors e.address))
                else by_type e t i.type i.connection
          ])
      by_node none = tt
      by_node (some i) = elim (Bool-cases e.hung_up) [
        | inl up ↦ rw up (
            destroy_underlying-rule e t (Leaves true) i.type _
              (hang_up-Leaves t (destroy_file_information t.descriptors e.address)) (λ _. tt)
              (λ _. tt))
        | inr down ↦ rw down (by_type-Leaves i.type i.connection)
      ]

  pub leaves-IsStopped :
      (u : Server) → handle_event e t ≡ leaves u → (e.hung_up ≡ true) × IsStopped u
  leaves-IsStopped u at = subst (Leaves e.hung_up) at handle_event-Leaves
