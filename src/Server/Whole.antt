-- ===== src/Server/Whole.antt =====
-- server.c: the invariant of the event loop, over a whole run.
use h_ss.Prelude.{List}
use h_ss.Statics
use h_ss.Statics.{Statics}
use h_ss.Server.{Server, Event, Turn, continues, leaves, runs_on, fault, exits}
use h_ss.Server.Runs.{Meets}
use h_ss.Server.Served.{IsServed, IsRoomy, Honest}
use h_ss.Server.Turns.{RunsOn, IsUndefined, Exits}

-- An event of a kernel that keeps to its sizes, at a server whose buffers have room.
abbrev pub Fair : {S : Type 0} → Event S → Server → Type 0
Fair e t = Honest e.kernel × IsRoomy t

module _ {S : Type 0} where
  -- One of the events meets a server in order and comes to this.
  abbrev pub MeetsServed : Server → List (Event S) → (Event S → Server → Type 0) → Type 0
  MeetsServed t es P = Meets Fair t es (λ e v. IsServed v × P e v)

  -- What the loop comes to: a server in order, or what one of the events comes to.
  abbrev pub LoopExplained : Server → List (Event S) → Turn → Type 0
  LoopExplained t es (continues u) = IsServed u
  LoopExplained t es (leaves u) = IsServed u
  LoopExplained t es runs_on = MeetsServed t es RunsOn
  LoopExplained t es fault = MeetsServed t es IsUndefined
  LoopExplained t es exits = MeetsServed t es Exits
