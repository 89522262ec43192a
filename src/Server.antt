-- ===== src/Server.antt =====
-- server.c: `main` with its event loop. Connections are in the list of descriptors; what an event
-- finds in the kernel comes with it. The closing of all descriptors behind the loop is in Descriptors. `epoll_wait` is the list of its results.
pub mod Isolation
pub mod Nodes
pub mod Answers
pub mod Authority
pub mod Guard
pub mod Start
pub mod Whole
pub mod Runs
pub mod Samples
pub mod Served
pub mod Loop
pub mod Stops
pub mod Turns
pub mod Underlying
mod Tests
use h_ss.Prelude.{
  ℕ, suc, zero, Bool, true, false, List, [], ◌∷◌, ◌++◌, Option, none, some, ◌&&◌, if◌then◌else◌,
  ◌==◌, Bytes, length,
}
use h_ss.Authorization.{get_authorization_code}
use h_ss.Descriptors.{
  DescriptorType, ConnectionStatus, waiting_request, writing_response, listen_socket, tcp_socket,
  tls_socket, Connection, Information, Node, Descriptors, find_node, destroy_file_information,
  Closing, close_all_file_descriptors,
}
use h_ss.Statics
use h_ss.Statics.{Outcome, Statics, ◌>>=◌, defined}
use h_ss.Hooks.{Hooks, tcp_hooks, tls_hooks, memory_hooks}
use h_ss.Tls.Credential.{Credentials, no_credentials, Setup}
use h_ss.Transport.{initialize_underlying}
use h_ss.Transaction.{https_port}
use h_ss.Sockets.{
  Block, Attempt, Accepted, Family, inet, inet6, other, http_port, listen_addresses,
  accept_connection,
}
use h_ss.Connection
use h_ss.Connection.{Kernel, Handled, kept, destroyed, handle_connection}

-- The function pointers of the connection of each node stand beside the descriptor list, and so do
-- the static variables of `get_credential`.
pub record Server : Type 0 where
  pub statics : Statics
  pub descriptors : Descriptors
  pub hooks : ℕ → Hooks
  pub credentials : Credentials

-- What `epoll_wait` reports of a node: whether there is an error or the peer hung up, what the kernel
-- has for its connection, and for a listening socket what `accept` returns, with the memory that a new
-- node gets. The fuel is that of the receiving loop. `setup` is what GnuTLS returns when a new
-- connection is set up, and `closes` whether it ever answers when the session of the node is to end.
pub record Event (S : Type 0) : Type 0 where
  pub address : ℕ
  pub hung_up : Bool
  pub fuel : ℕ
  pub kernel : Kernel S
  pub accepted : Option Accepted
  pub block : Block
  pub setup : Setup
  pub closes : Bool

-- What an event comes to: the next one, the end of the loops, a receiving loop that goes on,
-- undefined behaviour, or the end of the process.
pub data Turn : Type 0 where
  continues : Server → Turn
  leaves : Server → Turn
  runs_on : Turn
  fault : Turn
  exits : Turn

-- The connection of a node, changed in place.
unfoldable pub set_connection : List Node → ℕ → Connection → List Node
set_connection [] a c = []
set_connection (n ∷ ns) a c =
    let rest = set_connection ns a c in
    if n.address == a
    then record n { information = record n.information { connection = some c } } ∷ ns
    else n ∷ rest

abbrev pub with_connection : Descriptors → ℕ → Connection → Descriptors
with_connection d a c = record d { nodes = set_connection d.nodes a c }

abbrev pub turn_of : Server → Option Descriptors → Turn
turn_of t none = fault
turn_of t (some d) = continues (record t { descriptors = d })

-- The error or hang-up of a node; without any node left the server ends.
abbrev pub hang_up : Server → Option Descriptors → Turn
hang_up t none = fault
hang_up t (some d) = elim d.head [
  | none ↦ leaves (record t { statics = record t.statics { running = false }; descriptors = d })
  | some _ ↦ continues (record t { descriptors = d })
]

-- The call of `destroy_underlying` is the last thing that is done when a node is destroyed, but for
-- blocks that are freed: what comes before it may already be undefined. It logs, or asks for the end of
-- the TLS session until there is an answer, or the pointer was never set.
abbrev pub hangs : Turn → Turn
hangs (continues u) = runs_on
hangs (leaves u) = runs_on
hangs runs_on = runs_on
hangs fault = fault
hangs exits = runs_on

abbrev pub by_hooks : Hooks → Bool → Turn → Turn
by_hooks tcp_hooks closes rest = rest
by_hooks tls_hooks closes rest = if closes then rest else hangs rest
by_hooks memory_hooks closes rest = fault

unfoldable pub destroy_underlying : {S : Type 0} → Event S → Server → DescriptorType → Turn → Turn
destroy_underlying e t listen_socket rest = rest
destroy_underlying e t tcp_socket rest = by_hooks (t.hooks e.address) e.closes rest
destroy_underlying e t tls_socket rest = by_hooks (t.hooks e.address) e.closes rest

abbrev pub after_handle : {S : Type 0} → Event S → Server → DescriptorType → Handled S → Turn
after_handle e t type (kept s c out rest) =
    continues (record t { statics = s; descriptors = with_connection t.descriptors e.address c })
after_handle e t type (destroyed s c out) = destroy_underlying e t type (
    turn_of (record t { statics = s })
      (destroy_file_information (with_connection t.descriptors e.address c) e.address))
after_handle e t type Connection.runs_on = runs_on
after_handle e t type Connection.fault = fault
after_handle e t type Connection.exits = exits

-- `recv` or `send` of the connection is called.
abbrev pub is_called : {S : Type 0} → Kernel S → ConnectionStatus → Bool
is_called k waiting_request = k.readable
is_called k writing_response = k.writable

abbrev pub is_unset : Hooks → Bool
is_unset memory_hooks = true
is_unset tcp_hooks = false
is_unset tls_hooks = false

unfoldable pub serve : {S : Type 0} → Event S → Server → DescriptorType → Option Connection → Turn
serve e t type none = fault
serve e t type (some c) =
    if is_called e.kernel c.state && is_unset (t.hooks e.address)
    then fault
    else after_handle e t type (handle_connection e.fuel e.kernel type t.statics c)

-- The type with which `accept_connection` registers a descriptor, if it does.
abbrev pub type_of_port : ℕ → Option DescriptorType
type_of_port port =
    if port == http_port
    then some tcp_socket
    else if port == https_port
    then some tls_socket
    else none

abbrev pub accepted_type : Option Accepted → Option DescriptorType
accepted_type none = none
accepted_type (some a) = elim a.family [ other ↦ none | _ ↦ type_of_port a.port ]

abbrev pub hooks_at : ℕ → Hooks → (ℕ → Hooks) → ℕ → Hooks
hooks_at a h hooks b = if a == b then h else hooks b

-- The end of `initialize_connection_information`, which may end the process.
abbrev pub after_set_up : {S : Type 0} → Event S → Server → Outcome (Hooks × Credentials) → Turn
after_set_up e t (Statics.ok (h, s)) = continues (record t {
  descriptors = accept_connection e.block e.accepted t.descriptors;
  hooks = hooks_at e.block.address h t.hooks;
  credentials = s;
})
after_set_up e t Statics.exits = exits
after_set_up e t Statics.fault = fault

abbrev pub accept : {S : Type 0} → Event S → Server → Option DescriptorType → Turn
accept e t none =
    continues (record t { descriptors = accept_connection e.block e.accepted t.descriptors })
accept e t (some type) =
    after_set_up e t (initialize_underlying type memory_hooks e.setup t.credentials)

abbrev pub by_type : {S : Type 0} → Event S → Server → DescriptorType → Option Connection → Turn
by_type e t listen_socket c = accept e t (accepted_type e.accepted)
by_type e t tcp_socket c = serve e t tcp_socket c
by_type e t tls_socket c = serve e t tls_socket c

-- The body of the loop over the events.
unfoldable pub handle_event : {S : Type 0} → Event S → Server → Turn
handle_event e t = elim (find_node t.descriptors.nodes e.address) [
  | none ↦ fault
  | some i ↦
      if e.hung_up
      then destroy_underlying e t i.type
          (hang_up t (destroy_file_information t.descriptors e.address))
      else by_type e t i.type i.connection
]

unfoldable pub handle_events : {S : Type 0} → List (Event S) → Server → Turn
handle_events [] t = continues t
handle_events (e ∷ es) t = elim (handle_event e t) [
  | continues u ↦ handle_events es u
  | leaves u ↦ leaves u
  | runs_on ↦ runs_on
  | fault ↦ fault
  | exits ↦ exits
]

-- The running flag is looked at between two calls of `epoll_wait`. `continues` with the server that
-- waits in the next call, `leaves` with the one that has stopped.
unfoldable pub main_loop : {S : Type 0} → List (List (Event S)) → Server → Turn
main_loop [] t = if t.statics.running then continues t else leaves t
main_loop (es ∷ ess) t = elim t.statics.running [
  | false ↦ leaves t
  | true ↦ elim (handle_events es t) [
    | continues u ↦ main_loop ess u
    | leaves u ↦ main_loop ess u
    | runs_on ↦ runs_on
    | fault ↦ fault
    | exits ↦ exits
  ]
]

abbrev pub no_descriptors : Descriptors
no_descriptors = record { nodes = []; head = none; closed = [] }

-- Up to the loop: the authorization code is made, and both ports are listened to.
unfoldable pub start :
    ℕ × ℕ × ℕ → List (Block × Attempt) → List (Block × Attempt) → Statics → Outcome Server
start random http https s = do
  authorization ← defined (get_authorization_code s.authorization random.0 random.1 random.2)
  Statics.ok (record {
    statics = record s { authorization = authorization };
    descriptors = listen_addresses https (listen_addresses http no_descriptors);
    hooks = λ _. memory_hooks;
    credentials = no_credentials;
  })
