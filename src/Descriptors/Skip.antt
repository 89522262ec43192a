-- ===== src/Descriptors/Skip.antt =====
-- server.c: what closing a descriptor does when it is not the last one registered. `prev` of every
-- node is the head of the list, so the newer nodes drop out of the list.
use h_ss.Prelude.{true, ℕ, suc, ◌∙◌, ◌≡◌, ◌≢◌, refl, arith, List, ◌∷◌, none, some}
use h_ss.Descriptors.{
  Connection, DescriptorType, Node, Descriptors, list_head, register_file_descriptor, find_node,
  free_node, write_link, node_of, Information, destroy_connection_information,
  destroy_file_information, dead_block, close_all_file_descriptors,
}
use h_ss.Descriptors.Order.{connection_of-destroyed}

pub destroy-found :
    (s : Descriptors) (a : ℕ) (i : Information)
    → find_node s.nodes a ≡ some i
    → i.prev ≡ list_head
    → destroy_connection_information i.connection ≡ some true
    → destroy_file_information s a
      ≡ some (record {
        nodes = free_node s.nodes a;
        head = i.next;
        closed = i.file_descriptor ∷ s.closed;
      })
unfolding destroy_file_information write_link
destroy-found s a i e f g = ground arith

destroy-older-found :
    (a b : ℕ) (m k : Connection) (s : Descriptors) (fd ge : ℕ) (type kind : DescriptorType)
    → a ≢ b
    → destroy_file_information
        (register_file_descriptor b k (register_file_descriptor a m s fd type) ge kind)
        a
      ≡ some (record {
        nodes = node_of b k (some a) ge kind ∷ s.nodes;
        head = s.head;
        closed = fd ∷ s.closed;
      })
unfolding register_file_descriptor find_node free_node
destroy-older-found a b m k s fd ge type kind different =
    destroy-found (register_file_descriptor b k (register_file_descriptor a m s fd type) ge kind) a
      (node_of a m s.head fd type).information (ground arith) refl
      (connection_of-destroyed type m fd)
    ∙ ground arith

-- Two descriptors are registered, their nodes at different addresses. When the older one is
-- closed, the head of the list is again what it was before both, while the node of the newer one
-- is still live and its descriptor is not added to the closed ones.
pub destroy-older :
    (a b : ℕ) (m k : Connection) (s : Descriptors) (fd ge : ℕ) (type kind : DescriptorType)
    → a ≢ b
    → (t : Descriptors) × (destroy_file_information
          (register_file_descriptor b k (register_file_descriptor a m s fd type) ge kind)
          a
        ≡ some t)
      × (t.head ≡ s.head)
      × (find_node t.nodes b ≢ none)
      × (t.closed ≡ (fd ∷ s.closed))
unfolding register_file_descriptor find_node free_node
destroy-older a b m k s fd ge type kind different = (
  record { nodes = node_of b k (some a) ge kind ∷ s.nodes; head = s.head; closed = fd ∷ s.closed },
  destroy-older-found a b m k s fd ge type kind different,
  refl,
  ground arith,
  refl,
)

close_all-freed :
    (fuel : ℕ) (ns : List Node) (a : ℕ) (closed : List ℕ)
    → find_node ns a ≡ none
    → close_all_file_descriptors (suc fuel) (record { nodes = ns; head = some a; closed = closed })
      ≡ dead_block
unfolding close_all_file_descriptors destroy_file_information
close_all-freed fuel ns a closed fresh = ground arith

-- Two descriptors are registered, their nodes at different addresses, that of the older one fresh.
-- When the older one is closed and then the newer one, closing all descriptors meets a block that
-- is not live.
pub close_all-dead :
    (a b fuel : ℕ) (m k : Connection) (s : Descriptors) (fd ge : ℕ) (type kind : DescriptorType)
    → find_node s.nodes a ≡ none
    → a ≢ b
    → (t u : Descriptors) × (destroy_file_information
          (register_file_descriptor b k (register_file_descriptor a m s fd type) ge kind)
          a
        ≡ some t)
      × (destroy_file_information t b ≡ some u)
      × (close_all_file_descriptors (suc fuel) u ≡ dead_block)
unfolding register_file_descriptor find_node free_node
close_all-dead a b fuel m k s fd ge type kind fresh different = (
  record { nodes = node_of b k (some a) ge kind ∷ s.nodes; head = s.head; closed = fd ∷ s.closed },
  record { nodes = s.nodes; head = some a; closed = ge ∷ fd ∷ s.closed },
  destroy-older-found a b m k s fd ge type kind different,
  destroy-found
        (record {
          nodes = node_of b k (some a) ge kind ∷ s.nodes;
          head = s.head;
          closed = fd ∷ s.closed;
        })
        b (node_of b k (some a) ge kind).information (ground arith) refl
        (connection_of-destroyed kind k ge)
      ∙ ground arith,
  close_all-freed fuel s.nodes a (ge ∷ fd ∷ s.closed) fresh,
)
