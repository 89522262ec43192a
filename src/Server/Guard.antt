-- ===== src/Server/Guard.antt =====
-- server.c: who can stop the server.
use h_ss.Prelude.{ℕ, ◌≡◌, refl, inl, inr, false, Bool-cases, if◌then◌else◌, Option, none, some}
use h_ss.Statics.{Statics}
use h_ss.Descriptors.{
  DescriptorType, listen_socket, tcp_socket, tls_socket, Connection, Information, Descriptors,
  find_node, destroy_file_information,
}
use h_ss.Connection
use h_ss.Connection.{Kernel, Handled, kept, destroyed, handle_connection}
use h_ss.Connection.Guarded.{Guards, HandledGuards, IsCallAuthorized, handle_connection-Guards}
use h_ss.Server.Underlying.{destroy_underlying-rule, serve-rule, accept-rule}
use h_ss.Server.{
  Server, Event, Turn, continues, leaves, runs_on, fault, exits, with_connection, turn_of, hang_up,
  destroy_underlying, serve, accepted_type, after_handle, by_type, handle_event,
}

-- The event is one of a live connection, whose request is authorized.
abbrev pub IsEventAuthorized : {S : Type 0} → Event S → Server → Type 0
IsEventAuthorized e t =
    (i : Information) × (c : Connection) × (find_node t.descriptors.nodes e.address ≡ some i)
    × (i.connection ≡ some c)
    × IsCallAuthorized e.fuel e.kernel t.statics c

module _ {S : Type 0} (e : Event S) (t : Server) where
  -- An event that leaves the server running.
  abbrev pub TurnGuards : Turn → Type 0
  TurnGuards (continues u) = Guards (IsEventAuthorized e t) t.statics u.statics
  TurnGuards (leaves u) = u.statics.authorization ≡ t.statics.authorization
  TurnGuards runs_on = Unit
  TurnGuards fault = Unit
  TurnGuards exits = Unit

  after_handle-Guards :
      (type : DescriptorType) (h : Handled S)
      → HandledGuards (Guards (IsEventAuthorized e t) t.statics) h
      → TurnGuards (after_handle e t type h)
  after_handle-Guards type (kept s c out rest) g = g
  after_handle-Guards type (destroyed s c out) g =
      destroy_underlying-rule e t TurnGuards type _
        (by_result (destroy_file_information (with_connection t.descriptors e.address c) e.address))
        (λ _. tt) (λ _. tt)
    where
      by_result : (o : Option Descriptors) → TurnGuards (turn_of (record t { statics = s }) o)
      by_result none = tt
      by_result (some d) = g
  after_handle-Guards type Connection.runs_on g = tt
  after_handle-Guards type Connection.fault g = tt
  after_handle-Guards type Connection.exits g = tt

  serve-Guards :
      (i : Information) (type : DescriptorType) (c : Connection)
      → find_node t.descriptors.nodes e.address ≡ some i
      → i.connection ≡ some c
      → TurnGuards (serve e t type (some c))
  serve-Guards i type c found at =
      serve-rule e t TurnGuards type c
        (after_handle-Guards type (handle_connection e.fuel e.kernel type t.statics c) (
          widen (handle_connection e.fuel e.kernel type t.statics c)
            (handle_connection-Guards e.fuel e.kernel type t.statics c)))
        (λ _. tt)
    where
      wider :
          (s : Statics)
          → Guards (IsCallAuthorized e.fuel e.kernel t.statics c) t.statics s
          → Guards (IsEventAuthorized e t) t.statics s
      wider s (inl switches, keeps) = (inl switches, keeps)
      wider s (inr asked, keeps) = (inr (i, c, found, at, asked), keeps)

      widen :
          (h : Handled S)
          → HandledGuards (Guards (IsCallAuthorized e.fuel e.kernel t.statics c) t.statics) h
          → HandledGuards (Guards (IsEventAuthorized e t) t.statics) h
      widen (kept s d out rest) g = wider s g
      widen (destroyed s d out) g = wider s g
      widen Connection.runs_on g = tt
      widen Connection.fault g = tt
      widen Connection.exits g = tt

  by_type-Guards :
      (i : Information) (type : DescriptorType) (o : Option Connection)
      → find_node t.descriptors.nodes e.address ≡ some i
      → i.connection ≡ o
      → TurnGuards (by_type e t type o)
  by_type-Guards i listen_socket o found at =
      accept-rule e t TurnGuards (accepted_type e.accepted) (λ h s. (inl (refl, refl), λ k. refl))
        (λ k seen ends. tt)
  by_type-Guards i tcp_socket none found at = unfold serve in tt
  by_type-Guards i tls_socket none found at = unfold serve in tt
  by_type-Guards i tcp_socket (some c) found at = serve-Guards i tcp_socket c found at
  by_type-Guards i tls_socket (some c) found at = serve-Guards i tls_socket c found at

  hang_up-Guards : (o : Option Descriptors) → TurnGuards (hang_up t o)
  hang_up-Guards none = tt
  hang_up-Guards (some d) = by_head d.head
    where
      by_head :
          (h : Option ℕ)
          → TurnGuards (elim h [
            | none ↦
                leaves
                  (record t { statics = record t.statics { running = false }; descriptors = d })
            | some _ ↦ continues (record t { descriptors = d })
          ])
      by_head none = refl
      by_head (some a) = (inl (refl, refl), λ k. refl)

  pub handle_event-Guards : TurnGuards (handle_event e t)
  unfolding handle_event destroy_underlying serve
  handle_event-Guards = by_node (find_node t.descriptors.nodes e.address) refl
    where
      by_node :
          (o : Option Information)
          → find_node t.descriptors.nodes e.address ≡ o
          → TurnGuards (elim o [
            | none ↦ fault
            | some i ↦
                if e.hung_up
                then destroy_underlying e t i.type
                    (hang_up t (destroy_file_information t.descriptors e.address))
                else by_type e t i.type i.connection
          ])
      by_node none found = tt
      by_node (some i) found = elim (Bool-cases e.hung_up) [
        | inl up ↦ rw up (
            destroy_underlying-rule e t TurnGuards i.type _
              (hang_up-Guards (destroy_file_information t.descriptors e.address)) (λ _. tt)
              (λ _. tt))
        | inr down ↦ rw down (by_type-Guards i i.type i.connection found refl)
      ]
