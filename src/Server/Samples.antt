-- ===== src/Server/Samples.antt =====
-- A run of the whole server: it listens to both ports, a TLS connection comes in, and asks it to stop.
use h_ss.Prelude.{ℕ, true, false, List, [], ◌∷◌, ◌++◌, Option, none, some, Bytes, codes, replicate}
use h_ss.Hooks.{memory_hooks, tls_hooks}
use h_ss.Tls.Credential.{Credentials, Loading, no_credentials}
use h_ss.Statics.{Statics}
use h_ss.Descriptors.{Node, listen_socket, tls_socket, node_of}
use h_ss.Sockets.{Block, Attempt, inet6}
use h_ss.Connection.{Kernel}
use h_ss.Connection.Receive.{Socket, recv, would_block}
use h_ss.Connection.Receive.Drained.{socket}
use h_ss.Connection.Send.{accepts, no_room}
use h_ss.Server.{Server, Event, hooks_at}
use h_ss.Samples.{fresh_connection, world, statics}

abbrev pub block : ℕ → Block
block a = record { address = a; memory = fresh_connection }

abbrev pub listening : ℕ → Attempt
listening fd = record { socket = some fd; bound = true; listening = true }

abbrev pub http : List (Block × Attempt)
http = (block 100, listening 3) ∷ []

abbrev pub https : List (Block × Attempt)
https = (block 200, listening 4) ∷ []

abbrev pub code : Bytes
code = replicate 32 b'0'

abbrev pub with_code : Statics
with_code = record statics { authorization = record { initialize = false; code = code } }

abbrev pub listener : ℕ → Option ℕ → ℕ → Node
listener a next fd = node_of a fresh_connection next fd listen_socket

abbrev pub begun : Server
begun = record {
  statics = with_code;
  descriptors = record {
    nodes = listener 200 (some 100) 4 ∷ listener 100 none 3 ∷ [];
    head = some 200;
    closed = [];
  };
  hooks = λ _. memory_hooks;
  credentials = no_credentials;
}

abbrev pub request : Bytes
request = codes "GET /magic-call/shutdown HTTP/1.1\r\nAuthorization: " ++ (code ++ codes "\r\n\r\n")

abbrev pub kernel : Kernel Socket
kernel = record {
  readable = true;
  writable = true;
  recv = recv;
  socket = socket (request ∷ []) would_block;
  results = accepts 10 ∷ no_room ∷ [];
  granted = true;
  junk = 7;
  world = world;
}

abbrev pub loading : Loading
loading = record { allocate = none; address = 900; load = none }

abbrev pub credentials : Credentials
credentials = record { credential = some 900; initialize = true; blocks = 900 ∷ []; at_exit = 1 }

-- A TLS connection comes in, and asks the server to stop.
abbrev pub comes : Event Socket
comes = record {
  address = 200;
  hung_up = false;
  fuel = 20;
  kernel = kernel;
  accepted = some (record { file_descriptor = 5; family = inet6; port = 443 });
  block = block 300;
  setup = record { init = none; priority = none; credentials_set = none; loading = loading };
  closes = true;
}

abbrev pub asks : Event Socket
asks = record comes { address = 300; block = block 400 }

abbrev pub session : List (List (Event Socket))
session = (comes ∷ []) ∷ (asks ∷ []) ∷ []

abbrev pub connected : Server
connected = record {
  statics = with_code;
  descriptors = record {
    nodes = node_of 300 fresh_connection (some 200) 5 tls_socket ∷ begun.descriptors.nodes;
    head = some 300;
    closed = [];
  };
  hooks = hooks_at 300 tls_hooks (λ _. memory_hooks);
  credentials = credentials;
}
