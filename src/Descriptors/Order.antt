-- ===== src/Descriptors/Order.antt =====
-- server.c: the list of descriptors as long as the newest is always closed first.
use h_ss.Prelude.{
  ℕ, suc, ◌≡◌, refl, arith, List, [], ◌∷◌, ◌++◌, map, reverse, true, Option, none, some, length,
  append_assoc,
}
use mathlib.Core.List.{reverse-cons}
use h_ss.Response.{http_response_initialize, http_response_destroy, free_pointer}
use h_ss.Descriptors.{
  Connection, DescriptorType, listen_socket, tcp_socket, tls_socket, Node, Descriptors, list_head,
  initialize_connection_information, connection_of, register_file_descriptor, find_node, free_node,
  write_link, destroy_connection_information, destroy_file_information, done,
  close_all_file_descriptors,
}

-- The list from `head` runs through all live blocks, the newest first, and each connection can be
-- destroyed.
unfoldable pub IsChain : Option ℕ → List Node → Type 0
IsChain head [] = head ≡ none
IsChain head (n ∷ ns) =
    (head ≡ some n.address)
    × (n.information.prev ≡ list_head)
    × (find_node ns n.address ≡ none)
    × (destroy_connection_information n.information.connection ≡ some true)
    × IsChain n.information.next ns

abbrev pub IsComplete : Descriptors → Type 0
IsComplete s = IsChain s.head s.nodes

pub connection_of-destroyed :
    (type : DescriptorType) (memory : Connection) (fd : ℕ)
    → destroy_connection_information (connection_of type memory fd) ≡ some true
unfolding destroy_connection_information initialize_connection_information http_response_initialize
    http_response_destroy free_pointer
connection_of-destroyed listen_socket memory fd = refl
connection_of-destroyed tcp_socket memory fd = refl
connection_of-destroyed tls_socket memory fd = refl

-- Registering a descriptor in a complete list, its node at a fresh address, gives a complete list.
pub register-IsComplete :
    (a : ℕ) (memory : Connection) (s : Descriptors) (fd : ℕ) (type : DescriptorType)
    → find_node s.nodes a ≡ none
    → IsComplete s
    → IsComplete (register_file_descriptor a memory s fd type)
unfolding register_file_descriptor IsChain
register-IsComplete a memory s fd type fresh h =
    (refl, refl, fresh, connection_of-destroyed type memory fd, h)

-- What the destruction of the head leaves.
destroy-head :
    (n : Node) (ns : List Node) (head : Option ℕ) (closed : List ℕ)
    → IsChain head (n ∷ ns)
    → destroy_file_information (record { nodes = n ∷ ns; head = head; closed = closed }) n.address
      ≡ some (record {
        nodes = ns;
        head = n.information.next;
        closed = n.information.file_descriptor ∷ closed;
      })
unfolding destroy_file_information find_node write_link IsChain free_node
destroy-head n ns head closed h = ground arith

-- Closing the descriptor that was registered last, its node at a fresh address, takes the list
-- back and adds it to the closed ones.
pub destroy-register :
    (a : ℕ) (memory : Connection) (s : Descriptors) (fd : ℕ) (type : DescriptorType)
    → find_node s.nodes a ≡ none
    → IsComplete s
    → destroy_file_information (register_file_descriptor a memory s fd type) a
      ≡ some (record s { closed = fd ∷ s.closed })
unfolding register_file_descriptor
destroy-register a memory s fd type fresh h =
    destroy-head _ s.nodes (some a) s.closed (register-IsComplete a memory s fd type fresh h)

abbrev pub descriptors_of : List Node → List ℕ
descriptors_of = map (λ n. n.information.file_descriptor)

close_all_from :
    (ns : List Node) (head : Option ℕ) (closed : List ℕ)
    → IsChain head ns
    → close_all_file_descriptors
        (suc (length ns))
        (record { nodes = ns; head = head; closed = closed })
      ≡ done (record { nodes = []; head = none; closed = reverse (descriptors_of ns) ++ closed })
unfolding close_all_file_descriptors IsChain
close_all_from [] none closed h = refl
close_all_from [] (some a) closed h = ground arith
close_all_from (n ∷ ns) head closed h =
    rw
      (
        h.0,
        destroy-head n ns head closed h,
        reverse-cons n.information.file_descriptor (descriptors_of ns),
        append_assoc (reverse (descriptors_of ns)) (n.information.file_descriptor ∷ []) closed,
      )
      (close_all_from ns n.information.next (n.information.file_descriptor ∷ closed) h.4)

-- Closing all descriptors of a complete list, the calls of `destroy_underlying` left out, ends within
-- one round more than it has nodes: every block is freed and every descriptor closed once, the newest
-- first.
pub close_all-closed :
    (s : Descriptors)
    → IsComplete s
    → close_all_file_descriptors (suc (length s.nodes)) s
      ≡ done (record {
        nodes = [];
        head = none;
        closed = reverse (descriptors_of s.nodes) ++ s.closed;
      })
close_all-closed s h = close_all_from s.nodes s.head s.closed h
