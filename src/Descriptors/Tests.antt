-- ===== src/Descriptors/Tests.antt =====
-- Descriptor lists at concrete inputs, and the theorems applied there.
use h_ss.Prelude.{suc, ◌≡◌, refl, arith, [], none, some}
use h_ss.Request.{cleared}
use h_ss.Response.{null}
use h_ss.Descriptors.{
  Connection, waiting_request, listen_socket, tcp_socket, tls_socket, Descriptors, find_node,
  register_file_descriptor, destroy_file_information, dead_block, close_all_file_descriptors,
}
use h_ss.Descriptors.Order.{IsComplete, IsChain, register-IsComplete}
use h_ss.Descriptors.Skip.{close_all-dead}

abbrev memory : Connection
memory = record {
  state = waiting_request;
  file_descriptor = 0;
  buffer = record { buffer = none; capability = 0; start = 0; end = 0 };
  request = cleared;
  response = record {
    state_line = record { code = 0; description = null; description_length = 0 };
    headers = [];
    body = record { body = none; length = 0 };
  };
}

abbrev empty : Descriptors
empty = record { nodes = []; head = none; closed = [] }

abbrev listening : Descriptors
listening = register_file_descriptor 100 memory empty 3 listen_socket

abbrev two_open : Descriptors
two_open = register_file_descriptor 200 memory listening 5 tcp_socket

empty-IsComplete : IsComplete empty
unfolding IsChain
empty-IsComplete = refl

listening-IsComplete : IsComplete listening
listening-IsComplete =
    register-IsComplete 100 memory empty 3 listen_socket (unfold find_node in refl) empty-IsComplete

fresh_address : find_node listening.nodes 200 ≡ none
unfolding register_file_descriptor find_node
fresh_address = refl

two_open-IsComplete : IsComplete two_open
two_open-IsComplete =
    register-IsComplete 200 memory listening 5 tcp_socket fresh_address listening-IsComplete

close_all-dead_example :
    (t u : Descriptors) × (destroy_file_information
        (register_file_descriptor 300 memory
          (register_file_descriptor 200 memory listening 5 tcp_socket)
          6
          tls_socket)
        200
      ≡ some t)
    × (destroy_file_information t 300 ≡ some u)
    × (close_all_file_descriptors (suc 9) u ≡ dead_block)
close_all-dead_example =
    close_all-dead 200 300 9 memory memory listening 5 6 tcp_socket tls_socket fresh_address
      (ground arith)
