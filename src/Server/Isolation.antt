-- ===== src/Server/Isolation.antt =====
-- server.c: what an event does to the connections of other nodes.
use mathlib.Core.Option
use h_ss.Prelude.{ℕ, ◌≡◌, Option, none, some}
use h_ss.Descriptors.{Connection, Descriptors, find_node}
use h_ss.Connection
use h_ss.Server.{Server, Turn, continues, leaves, runs_on, fault, exits}

-- The node at this address is found as it was.
abbrev pub Same : ℕ → Descriptors → Descriptors → Type 0
Same b d u = find_node u.nodes b ≡ find_node d.nodes b

abbrev SameAfter : ℕ → Descriptors → Option Descriptors → Type 0
SameAfter b d none = Unit
SameAfter b d (some u) = Same b d u

-- The same for each server that an event leaves.
abbrev pub SameTurn : ℕ → Server → Turn → Type 0
SameTurn b t (continues u) = Same b t.descriptors u.descriptors
SameTurn b t (leaves u) = Same b t.descriptors u.descriptors
SameTurn b t runs_on = Unit
SameTurn b t fault = Unit
SameTurn b t exits = Unit
