-- ===== src/Server/Served.antt =====
-- server.c: the invariant of the event loop. Each node of a connection has a connection in order, and
-- what an event does keeps that.
use std.Path.{subst}
use h_ss.Prelude.{
  ℕ, ◌∷◌, ◌+◌, ◌*◌, ◌^◌, ◌≤◌, ◌≡◌, refl, sym, inl, inr, arith, true, not, ◌&&◌, Option, none, some,
  ◌==◌, length, Bool-cases,
}
use h_ss.Request.State.{initialize-cleared, cleared-IsValid}
use h_ss.Request.State
use h_ss.Response.{
  Pointer, null, live, dangling, http_response_initialize, http_response_destroy, free_pointer,
}
use h_ss.Response.Valid.{NotDangling, initialize-IsValid}
use h_ss.Transaction.{https_port}
use h_ss.Transaction.Sound.{IsSound}
use h_ss.Descriptors.{
  DescriptorType, listen_socket, tcp_socket, tls_socket, Connection, Information, list_head,
  Descriptors, find_node, free_node, initialize_connection_information, register_file_descriptor,
  connection_of, destroy_connection_information, destroy_file_information,
}
use h_ss.Descriptors.Skip.{destroy-found}
use h_ss.Sockets.{
  Block, Accepted, Family, inet, inet6, other, http_port, accept_port, accept_family,
  accept_connection,
}
use h_ss.Connection.{Kernel}
use h_ss.Connection.Receive.{page_size, page_count}
use h_ss.Connection.Receive.Paged.{Fits}
use h_ss.Connection.Invariant.{Bounded}
use h_ss.Server.{Server}
use h_ss.Server.Nodes.{OnNodes}

-- A listening socket has no connection; any other descriptor has one in order.
abbrev pub Held : DescriptorType → Option Connection → Type 0
Held listen_socket c = c ≡ none
Held tcp_socket none = ⊥
Held tcp_socket (some c) = Bounded c
Held tls_socket none = ⊥
Held tls_socket (some c) = Bounded c

abbrev pub InOrder : Information → Type 0
InOrder i = (i.prev ≡ list_head) × Held i.type i.connection

abbrev pub IsServed : Server → Type 0
IsServed t = OnNodes InOrder t.descriptors.nodes

-- The buffer of a connection ends half a megabyte before 2^64.
abbrev pub HasRoom : Information → Type 0
HasRoom i =
    (c : Connection) → i.connection ≡ some c → c.buffer.capability + page_size * page_count ≤ 2 ^ 64

abbrev pub IsRoomy : Server → Type 0
IsRoomy t = OnNodes HasRoom t.descriptors.nodes

-- `recv` gives no more than it is asked for, and `malloc` the bytes it is asked for.
abbrev pub Honest : {S : Type 0} → Kernel S → Type 0
Honest k = ((u : _) (n : ℕ) → Fits n (k.recv u n)) × ((n : ℕ) → length (k.world.malloc n) ≡ n)

free_pointer-usable : (p : Pointer) → NotDangling p → (q : Pointer) × (free_pointer p ≡ some q)
unfolding free_pointer
free_pointer-usable null h = (_, refl)
free_pointer-usable (live d) h = (_, refl)
free_pointer-usable dangling h = absurd (h refl)

pub destroy_sound :
    (c : Connection) → IsSound c.response → destroy_connection_information (some c) ≡ some true
unfolding destroy_connection_information http_response_destroy
destroy_sound c v =
    let (q, freed) = free_pointer-usable c.response.state_line.description v.1 in
    rw (freed, destroy_connection_information, http_response_destroy) refl

destroy-Held :
    (type : DescriptorType) (o : Option Connection)
    → Held type o
    → destroy_connection_information o ≡ some true
unfolding destroy_connection_information
destroy-Held listen_socket o h = rw h refl
destroy-Held tcp_socket none h = elim h [ ]
destroy-Held tls_socket none h = elim h [ ]
destroy-Held tcp_socket (some c) h = destroy_sound c h.2
destroy-Held tls_socket (some c) h = destroy_sound c h.2

-- A node in order is destroyed without any fault.
pub destroy-InOrder :
    (d : Descriptors) (a : ℕ) (i : Information)
    → find_node d.nodes a ≡ some i
    → InOrder i
    → destroy_file_information d a
      ≡ some (record {
        nodes = free_node d.nodes a;
        head = i.next;
        closed = i.file_descriptor ∷ d.closed;
      })
destroy-InOrder d a i e h = destroy-found d a i e h.0 (destroy-Held i.type i.connection h.1)

pub new_connection-Bounded :
    (memory : Connection) (fd : ℕ) → Bounded (initialize_connection_information memory fd)
unfolding initialize_connection_information
new_connection-Bounded memory fd = (
  λ small. record { sized = refl; ordered = omega arith; within = omega arith; bounded = small },
  subst State.IsValid (sym (initialize-cleared memory.request)) cleared-IsValid,
  (initialize-IsValid memory.response, unfold http_response_initialize in (λ e. cc)),
)

connection_of-Held :
    (type : DescriptorType) (memory : Connection) (fd : ℕ)
    → Held type (connection_of type memory fd)
connection_of-Held listen_socket memory fd = refl
connection_of-Held tcp_socket memory fd = new_connection-Bounded memory fd
connection_of-Held tls_socket memory fd = new_connection-Bounded memory fd

pub register-InOrder :
    (a : ℕ) (memory : Connection) (d : Descriptors) (fd : ℕ) (type : DescriptorType)
    → OnNodes InOrder d.nodes
    → OnNodes InOrder (register_file_descriptor a memory d fd type).nodes
unfolding register_file_descriptor
register-InOrder a memory d fd type h = ((refl, connection_of-Held type memory fd), h)

accept_port-InOrder :
    (b : Block) (a : Accepted) (d : Descriptors)
    → OnNodes InOrder d.nodes
    → OnNodes InOrder (accept_port b a d).nodes
accept_port-InOrder b a d h =
    elim (Bool-cases (not (a.port == http_port) && not (a.port == https_port))) [
      | inl e ↦ rw e h
      | inr e ↦ rw e (register-InOrder b.address b.memory d a.file_descriptor _ h)
    ]

accept_family-InOrder :
    (b : Block) (a : Accepted) (f : Family) (d : Descriptors)
    → OnNodes InOrder d.nodes
    → OnNodes InOrder (accept_family b a f d).nodes
accept_family-InOrder b a inet d h = accept_port-InOrder b a d h
accept_family-InOrder b a inet6 d h = accept_port-InOrder b a d h
accept_family-InOrder b a other d h = h

pub accept-InOrder :
    (b : Block) (o : Option Accepted) (d : Descriptors)
    → OnNodes InOrder d.nodes
    → OnNodes InOrder (accept_connection b o d).nodes
unfolding accept_connection
accept-InOrder b none d h = h
accept-InOrder b (some a) d h = accept_family-InOrder b a a.family d h
