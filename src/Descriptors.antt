-- ===== src/Descriptors.antt =====
-- server.c: the list of open file descriptors, each with its connection (common.h), and its
-- registering and closing. `none` as a result is undefined behaviour: a block used or freed when
-- it is not live. The function pointers of a connection stand in Server: their setting and the call of
-- `destroy_underlying` are parts of an event there, and left out here. So is the peer's address.
pub mod Order
pub mod Skip
mod Tests
use h_ss.Prelude.{
  ℕ, zero, suc, List, [], ◌∷◌, Bool, true, false, Option, none, some, if◌then◌else◌, ◌==◌, Bytes,
}
use h_ss.Request.{Request, http_request_initialize}
use h_ss.Response.{Response, http_response_initialize, http_response_destroy}

pub data DescriptorType : Type 0 where
  listen_socket tcp_socket tls_socket : DescriptorType

pub record Buffer : Type 0 where
  pub buffer : Option Bytes
  pub capability : ℕ
  pub start : ℕ
  pub end : ℕ

pub data ConnectionStatus : Type 0 where
  waiting_request writing_response : ConnectionStatus

pub record Connection : Type 0 where
  pub state : ConnectionStatus
  pub file_descriptor : ℕ
  pub buffer : Buffer
  pub request : Request
  pub response : Response

-- What a `prev` points to: the head of the list, or the `next` of the node at an address.
pub data Link : Type 0 where
  list_head : Link
  next_of : ℕ → Link

pub record Information : Type 0 where
  pub type : DescriptorType
  pub file_descriptor : ℕ
  pub next : Option ℕ
  pub prev : Link
  pub connection : Option Connection

-- A live block, at its address.
pub record Node : Type 0 where
  pub address : ℕ
  pub information : Information

-- The live blocks, the newest first, the head of the list, and the descriptors closed, the last
-- one first.
pub record Descriptors : Type 0 where
  pub nodes : List Node
  pub head : Option ℕ
  pub closed : List ℕ

-- `memory` is what the new blocks hold.
unfoldable pub initialize_connection_information : Connection → ℕ → Connection
initialize_connection_information memory file_descriptor = record {
  state = waiting_request;
  file_descriptor = file_descriptor;
  buffer = record { buffer = none; capability = 0; start = 0; end = 0 };
  request = http_request_initialize memory.request;
  response = http_response_initialize memory.response;
}

abbrev pub connection_of : DescriptorType → Connection → ℕ → Option Connection
connection_of listen_socket memory file_descriptor = none
connection_of tcp_socket memory file_descriptor =
    some (initialize_connection_information memory file_descriptor)
connection_of tls_socket memory file_descriptor =
    some (initialize_connection_information memory file_descriptor)

-- `address` is where `malloc` puts the node.
abbrev pub node_of : ℕ → Connection → Option ℕ → ℕ → DescriptorType → Node
node_of address memory head file_descriptor type = record {
  address = address;
  information = record {
    type = type;
    file_descriptor = file_descriptor;
    next = head;
    prev = list_head;
    connection = connection_of type memory file_descriptor;
  };
}

unfoldable pub register_file_descriptor :
    ℕ → Connection → Descriptors → ℕ → DescriptorType → Descriptors
register_file_descriptor address memory s file_descriptor type = record {
  nodes = node_of address memory s.head file_descriptor type ∷ s.nodes;
  head = some address;
  closed = s.closed;
}

unfoldable pub find_node : List Node → ℕ → Option Information
find_node [] a = none
find_node (n ∷ ns) a =
    let rest = find_node ns a in if n.address == a then some n.information else rest

unfoldable pub free_node : List Node → ℕ → List Node
free_node [] a = []
free_node (n ∷ ns) a = let rest = free_node ns a in if n.address == a then ns else n ∷ rest

unfoldable pub set_next : List Node → ℕ → Option ℕ → List Node
set_next [] a next = []
set_next (n ∷ ns) a next =
    let rest = set_next ns a next in
    if n.address == a
    then record n { information = record n.information { next = next } } ∷ ns
    else n ∷ rest

-- `*link = next`
unfoldable pub write_link : Descriptors → Link → Option ℕ → Option Descriptors
write_link s list_head next = some (record s { head = next })
write_link s (next_of a) next = elim (find_node s.nodes a) [
  | none ↦ none
  | some _ ↦ some (record s { nodes = set_next s.nodes a next })
]

-- The request and the response of the connection are destroyed and its blocks freed. Only the
-- response can hold a pointer that is not live.
unfoldable pub destroy_connection_information : Option Connection → Option Bool
destroy_connection_information none = some true
destroy_connection_information (some c) = elim (http_response_destroy c.response) [
  | none ↦ none
  | some _ ↦ some true
]

unfoldable pub destroy_file_information : Descriptors → ℕ → Option Descriptors
destroy_file_information s a = elim (find_node s.nodes a) [
  | none ↦ none
  | some i ↦ elim (write_link (record s { closed = i.file_descriptor ∷ s.closed }) i.prev i.next) [
    | none ↦ none
    | some t ↦ elim (destroy_connection_information i.connection) [
      | none ↦ none
      | some _ ↦ some (record t { nodes = free_node t.nodes a })
    ]
  ]
]

-- What closing all comes to: it is done, it meets a block that is not live, or the model's fuel
-- runs out.
pub data Closing : Type 0 where
  done : Descriptors → Closing
  dead_block : Closing
  out_of_fuel : Closing

unfoldable pub close_all_file_descriptors : ℕ → Descriptors → Closing
close_all_file_descriptors zero s = out_of_fuel
close_all_file_descriptors (suc fuel) s = elim s.head [
  | none ↦ done s
  | some a ↦ elim (destroy_file_information s a) [
    | none ↦ dead_block
    | some t ↦ close_all_file_descriptors fuel t
  ]
]
