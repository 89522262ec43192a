-- ===== src/Server/Turns.antt =====
-- server.c: what the body of the event loop comes to.
use mathlib.Core.Option
use std.Path.{subst}
use h_ss.Prelude.{
  ℕ, ◌∷◌, ◌≡◌, ◌⊎◌, refl, ap, sym, ◌∙◌, inl, inr, arith, Option, none, some, Bool-cases,
  if◌then◌else◌, List,
}
use h_ss.Transaction.Sound.{IsSound}
use h_ss.Descriptors.{
  DescriptorType, listen_socket, tcp_socket, tls_socket, Connection, Information, Node, Descriptors,
  find_node, free_node, destroy_file_information,
}
use h_ss.Descriptors.Skip.{destroy-found}
use h_ss.Connection
use h_ss.Connection.{Kernel, Handled, kept, destroyed, handle_connection}
use h_ss.Connection.Invariant.{Bounded, Bounded-IsConnection, Good}
use h_ss.Connection.Invariant.Calls.{handle_connection-Good}
use h_ss.Hooks.{memory_hooks}
use h_ss.Statics
use h_ss.Server.Underlying.{
  HangsUnderlying, init_of, destroy_underlying-rule, serve-rule, accept-rule,
}
use h_ss.Server.{
  Server, Event, Turn, continues, leaves, runs_on, fault, exits, with_connection, turn_of, hang_up,
  destroy_underlying, accepted_type, after_handle, serve, by_type, handle_event,
}
use h_ss.Server.Nodes.{
  OnNodes-find, OnNodes-free, OnNodes-set, find-set_connection, free-set_connection,
}
use h_ss.Server.Served.{
  Held, InOrder, IsServed, HasRoom, IsRoomy, Honest, destroy_sound, destroy-InOrder, accept-InOrder,
}

-- The event is one of a live connection, and the call of `handle_connection` comes to this.
abbrev pub CallIs : {S : Type 0} → Event S → Server → Handled S → Type 0
CallIs e t h =
    (i : Information) × (c : Connection) × (find_node t.descriptors.nodes e.address ≡ some i)
    × (i.connection ≡ some c)
    × (handle_connection e.fuel e.kernel i.type t.statics c ≡ h)

-- The receiving loop goes on, or that which asks for the end of a TLS session does, since it never gets
-- an answer.
abbrev pub RunsOn : {S : Type 0} → Event S → Server → Type 0
RunsOn e t = CallIs e t Connection.runs_on ⊎ HangsUnderlying e t

-- No live node, a function pointer of the connection that was never set, or `handle_connection`.
abbrev pub IsUndefined : {S : Type 0} → Event S → Server → Type 0
IsUndefined e t =
    (find_node t.descriptors.nodes e.address ≡ none)
    ⊎ ((t.hooks e.address ≡ memory_hooks) ⊎ CallIs e t Connection.fault)

-- `handle_connection`, or a connection that is accepted, whose certificate is not to be had.
abbrev pub Exits : {S : Type 0} → Event S → Server → Type 0
Exits e t =
    CallIs e t Connection.exits
    ⊎ ((i : Information) × (type : DescriptorType) × (find_node t.descriptors.nodes e.address
          ≡ some i)
        × (i.type ≡ listen_socket)
        × (accepted_type e.accepted ≡ some type)
        × (init_of e t type ≡ Statics.exits))

-- A server that is left is in order, and each other end is one of these.
abbrev pub Explained : {S : Type 0} → Event S → Server → Turn → Type 0
Explained e t (continues u) = IsServed u
Explained e t (leaves u) = IsServed u
Explained e t runs_on = RunsOn e t
Explained e t fault = IsUndefined e t
Explained e t exits = Exits e t

Held-any :
    (type : DescriptorType) (c d : Connection) → Held type (some c) → Bounded d → Held type (some d)
Held-any listen_socket c d h b = cc
Held-any tcp_socket c d h b = b
Held-any tls_socket c d h b = b

module _ {S : Type 0} (e : Event S) (t : Server) (served : IsServed t) where
  -- The connection of a live node in order, destroyed in whatever state the call left it.
  pub destroy_changed :
      (i : Information) (c : Connection)
      → find_node t.descriptors.nodes e.address ≡ some i
      → IsSound c.response
      → destroy_file_information (with_connection t.descriptors e.address c) e.address
        ≡ some (record {
          nodes = free_node t.descriptors.nodes e.address;
          head = i.next;
          closed = i.file_descriptor ∷ t.descriptors.closed;
        })
  destroy_changed i c found sound =
      let left : List Node → Option Descriptors = λ ns.
        some (record {
          nodes = ns;
          head = i.next;
          closed = i.file_descriptor ∷ t.descriptors.closed;
        }) in
      destroy-found (with_connection t.descriptors e.address c) e.address
        (record i { connection = some c })
        (find-set_connection t.descriptors.nodes e.address c i found)
        (OnNodes-find InOrder t.descriptors.nodes e.address i served found).0
        (destroy_sound c sound)
      ∙ ap left (free-set_connection t.descriptors.nodes e.address c)

  after_handle-Explained :
      (i : Information) (c : Connection) (h : Handled S)
      → find_node t.descriptors.nodes e.address ≡ some i
      → i.connection ≡ some c
      → Held i.type (some c)
      → handle_connection e.fuel e.kernel i.type t.statics c ≡ h
      → Good h
      → Explained e t (after_handle e t i.type h)
  after_handle-Explained i c (kept s d out rest) found at held call good =
      OnNodes-set InOrder t.descriptors.nodes e.address d served (λ j again.
        subst (λ (x : Information). InOrder (record x { connection = some d }))
          (Option.some-injective i j (sym found ∙ again))
          (
            (OnNodes-find InOrder t.descriptors.nodes e.address i served found).0,
            Held-any i.type c d held good,
          ))
  after_handle-Explained i c (destroyed s d out) found at held call good =
      destroy_underlying-rule e t (Explained e t) i.type _
        (subst (λ o. Explained e t (turn_of (record t { statics = s }) o))
          (sym (destroy_changed i d found good))
          (OnNodes-free InOrder t.descriptors.nodes e.address served))
        inr (λ unset. inr (inl unset))
  after_handle-Explained i c Connection.runs_on found at held call good =
      inl (i, c, found, at, call)
  after_handle-Explained i c Connection.fault found at held call good =
      inr (inr (i, c, found, at, call))
  after_handle-Explained i c Connection.exits found at held call good = inl (i, c, found, at, call)

  module _ (honest : Honest e.kernel) (roomy : IsRoomy t) where
    pub call-Good :
        (type : DescriptorType) (i : Information) (c : Connection)
        → find_node t.descriptors.nodes e.address ≡ some i
        → i.connection ≡ some c
        → Bounded c
        → Good (handle_connection e.fuel e.kernel type t.statics c)
    call-Good type i c found at b =
        let room = OnNodes-find HasRoom t.descriptors.nodes e.address i roomy found c at in
        let v = Bounded-IsConnection c b (omega (arith, room)) in
        handle_connection-Good e.kernel honest.0 honest.1 type t.statics c v
          (omega (arith, room, v.buffered.within)) e.fuel

    serve-Explained :
        (i : Information) (c : Connection)
        → find_node t.descriptors.nodes e.address ≡ some i
        → i.connection ≡ some c
        → Held i.type (some c)
        → Bounded c
        → Explained e t (serve e t i.type (some c))
    serve-Explained i c found at held b =
        serve-rule e t (Explained e t) i.type c
          (after_handle-Explained i c (handle_connection e.fuel e.kernel i.type t.statics c) found
            at held refl (call-Good i.type i c found at b))
          (λ unset. inr (inl unset))

    by_type-Explained :
        (i : Information) (type : DescriptorType) (o : Option Connection)
        → find_node t.descriptors.nodes e.address ≡ some i
        → i.type ≡ type
        → i.connection ≡ o
        → Held type o
        → Explained e t (by_type e t type o)
    by_type-Explained i listen_socket o found kind at held =
        accept-rule e t (Explained e t) (accepted_type e.accepted)
          (λ h s. accept-InOrder e.block e.accepted t.descriptors served)
          (λ new seen ends. inr (i, new, found, kind, seen, ends))
    by_type-Explained i tcp_socket none found kind at held = elim held [ ]
    by_type-Explained i tls_socket none found kind at held = elim held [ ]
    by_type-Explained i tcp_socket (some c) found kind at held =
        subst (λ k. Explained e t (serve e t k (some c))) kind
          (serve-Explained i c found at (subst (λ k. Held k (some c)) (sym kind) held) held)
    by_type-Explained i tls_socket (some c) found kind at held =
        subst (λ k. Explained e t (serve e t k (some c))) kind
          (serve-Explained i c found at (subst (λ k. Held k (some c)) (sym kind) held) held)

    hang_up-Explained :
        (i : Information)
        → find_node t.descriptors.nodes e.address ≡ some i
        → Explained e t (hang_up t (destroy_file_information t.descriptors e.address))
    hang_up-Explained i found =
        subst (λ o. Explained e t (hang_up t o))
          (sym (
            destroy-InOrder t.descriptors e.address i found
              (OnNodes-find InOrder t.descriptors.nodes e.address i served found)))
          (left i.next)
      where
        left :
            (next : Option ℕ)
            → Explained e t (
                hang_up t (
                  some (record {
                    nodes = free_node t.descriptors.nodes e.address;
                    head = next;
                    closed = i.file_descriptor ∷ t.descriptors.closed;
                  })))
        left none = OnNodes-free InOrder t.descriptors.nodes e.address served
        left (some a) = OnNodes-free InOrder t.descriptors.nodes e.address served

    handle_found-Explained :
        (o : Option Information)
        → find_node t.descriptors.nodes e.address ≡ o
        → Explained e t (elim o [
          | none ↦ fault
          | some i ↦
              if e.hung_up
              then destroy_underlying e t i.type
                  (hang_up t (destroy_file_information t.descriptors e.address))
              else by_type e t i.type i.connection
        ])
    unfolding destroy_underlying serve
    handle_found-Explained none found = inl found
    handle_found-Explained (some i) found = elim (Bool-cases e.hung_up) [
      | inl up ↦ rw up (
          destroy_underlying-rule e t (Explained e t) i.type _ (hang_up-Explained i found) inr
            (λ unset. inr (inl unset)))
      | inr down ↦ rw down (
          by_type-Explained i i.type i.connection found refl refl
            (OnNodes-find InOrder t.descriptors.nodes e.address i served found).1)
    ]

    -- A server whose nodes are in order, each buffer ending half a megabyte before 2^64, gets an event
    -- whose `recv` and `malloc` give no more and no less bytes than they may. Then the nodes are in order
    -- again: connections in `handle_connection`, destroyed, hung up, or accepted. The event is undefined
    -- behaviour only when its address is not that of a live node, the function pointers of its connection
    -- were never set, or `handle_connection` is undefined behaviour. It goes on for ever only as
    -- `handle_connection` does, or while the end of a TLS session is asked for; the process ends only as
    -- `handle_connection` does, or when a certificate for an accepted connection is not to be had.
    pub handle_event-Explained : Explained e t (handle_event e t)
    unfolding handle_event
    handle_event-Explained = handle_found-Explained (find_node t.descriptors.nodes e.address) refl
