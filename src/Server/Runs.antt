-- ===== src/Server/Runs.antt =====
-- server.c: the servers that the event loop reaches, and the events on the way.
use std.Path.{subst}
use h_ss.Prelude.{◌≡◌, refl, sym, List, [], ◌∷◌, ◌++◌, append_assoc, append-nil}
use h_ss.Server.{
  Server, Event, Turn, continues, leaves, runs_on, fault, exits, handle_event, handle_events,
}

-- The events that lead from a server to another, each allowed at the server that it finds.
pub data Run {S : Type 0} (Allowed : Event S → Server → Type 0) (t : Server)
    : List (Event S) → Server → Type 0 where
  begins : Run Allowed t [] t
  later :
      {es : List (Event S)} {u v : Server} (e : Event S)
      → Run Allowed t es u
      → Allowed e u
      → handle_event e u ≡ continues v
      → Run Allowed t (es ++ (e ∷ [])) v

-- The events of all calls of `epoll_wait`.
abbrev pub all_events : {S : Type 0} → List (List (Event S)) → List (Event S)
all_events [] = []
all_events (es ∷ ess) = es ++ all_events ess

module _ {S : Type 0} (Allowed : Event S → Server → Type 0) where
  -- One of these events is met at a server that those before it lead to.
  abbrev pub Meets : Server → List (Event S) → (Event S → Server → Type 0) → Type 0
  Meets t es P =
      (before after : List (Event S)) × (e : Event S) × (v : Server) × (es
        ≡ (before ++ (e ∷ after)))
      × Run Allowed t before v
      × P e v

  pub Meets-more :
      (t : Server) (es more : List (Event S)) (P : Event S → Server → Type 0)
      → Meets t es P
      → Meets t (es ++ more) P
  Meets-more t es more P (before, after, e, v, same, run, p) =
      (before, after ++ more, e, v, rw same (append_assoc before (e ∷ after) more), run, p)

  -- The loop over the events ends with one of these.
  abbrev pub Ended : Server → List (Event S) → Turn → Type 0
  Ended t es o = Meets t es (λ e v. Allowed e v × (handle_event e v ≡ o))

  -- The events of one call of `epoll_wait`, each allowed at the server that it finds.
  abbrev pub AllowedEvents : List (Event S) → Server → Type 0
  AllowedEvents [] t = Unit
  AllowedEvents (e ∷ es) t =
      Allowed e t × ((u : Server) → handle_event e t ≡ continues u → AllowedEvents es u)

  abbrev pub AllowedLoop : List (List (Event S)) → Server → Type 0
  AllowedLoop [] t = Unit
  AllowedLoop (es ∷ ess) t =
      AllowedEvents es t × ((u : Server) → handle_events es t ≡ continues u → AllowedLoop ess u)

  abbrev pub RunTurn : Server → List (Event S) → Turn → Type 0
  RunTurn t es (continues u) = Run Allowed t es u
  RunTurn t es (leaves u) = Ended t es (leaves u)
  RunTurn t es runs_on = Ended t es runs_on
  RunTurn t es fault = Ended t es fault
  RunTurn t es exits = Ended t es exits

  pub handle_events-Run :
      (es before : List (Event S)) (t u : Server)
      → Run Allowed t before u
      → AllowedEvents es u
      → RunTurn t (before ++ es) (handle_events es u)
  unfolding handle_events
  handle_events-Run [] before t u run all =
      subst (λ l. Run Allowed t l u) (sym (append-nil before)) run
  handle_events-Run (e ∷ es) before t u run (one, more) =
      by_turn
        (λ v at. handle_events-Run es (before ++ (e ∷ [])) t v (later e run one at) (more v at))
        (handle_event e u) refl
    where
      by_turn :
          ((v : Server)
            → handle_event e u ≡ continues v
            → RunTurn t ((before ++ (e ∷ [])) ++ es) (handle_events es v))
          → (o : Turn) → handle_event e u ≡ o
          → RunTurn t (before ++ (e ∷ es)) (elim o [
            | continues v ↦ handle_events es v
            | leaves v ↦ leaves v
            | runs_on ↦ runs_on
            | fault ↦ fault
            | exits ↦ exits
          ])
      by_turn next (continues v) at =
          subst (λ l. RunTurn t l (handle_events es v)) (append_assoc before (e ∷ []) es)
            (next v at)
      by_turn next (leaves v) at = (before, es, e, u, refl, run, (one, at))
      by_turn next runs_on at = (before, es, e, u, refl, run, (one, at))
      by_turn next fault at = (before, es, e, u, refl, run, (one, at))
      by_turn next exits at = (before, es, e, u, refl, run, (one, at))
