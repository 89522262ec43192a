-- ===== src/Server/Loop.antt =====
-- server.c: the whole event loop as a run of its events.
use std.Path.{subst}
use h_ss.Prelude.{
  ◌≡◌, ◌⊎◌, refl, sym, inl, inr, Bool, true, false, if◌then◌else◌, List, [], ◌∷◌, ◌++◌,
  append_assoc, append-nil,
}
use h_ss.Server.{
  Server, Event, Turn, continues, leaves, runs_on, fault, exits, handle_events, main_loop,
}
use h_ss.Server.Runs.{
  Run, begins, all_events, Meets-more, Ended, AllowedLoop, RunTurn, handle_events-Run,
}
use h_ss.Server.Stops.{leaves-IsStopped}

module _ {S : Type 0} (Allowed : Event S → Server → Type 0) where
  -- The first events lead to the server; the rest are not looked at.
  abbrev pub RunPart : Server → List (Event S) → Server → Type 0
  RunPart t es u =
      (before after : List (Event S)) × (es ≡ (before ++ after)) × Run Allowed t before u

  -- A loop that waits again has a running server; one that is left has a server that has stopped. Any
  -- other end is that of one of the events.
  abbrev pub RunLoop : Server → List (Event S) → Turn → Type 0
  RunLoop t es (continues u) = Run Allowed t es u × (u.statics.running ≡ true)
  RunLoop t es (leaves u) =
      (RunPart t es u ⊎ Ended Allowed t es (leaves u)) × (u.statics.running ≡ false)
  RunLoop t es runs_on = Ended Allowed t es runs_on
  RunLoop t es fault = Ended Allowed t es fault
  RunLoop t es exits = Ended Allowed t es exits

  main_loop-stopped :
      (ess : List (List (Event S))) (u : Server)
      → u.statics.running ≡ false
      → main_loop ess u ≡ leaves u
  unfolding main_loop
  main_loop-stopped [] u off = rw off refl
  main_loop-stopped (es ∷ ess) u off = rw off refl

  abbrev after_events : List (List (Event S)) → Turn → Turn
  after_events ess (continues v) = main_loop ess v
  after_events ess (leaves v) = main_loop ess v
  after_events ess runs_on = runs_on
  after_events ess fault = fault
  after_events ess exits = exits

  -- What the loop makes of the events of one call.
  after_events-Run :
      (ess : List (List (Event S))) (es : List (Event S)) (t : Server) (o : Turn)
      → ((v : Server) → o ≡ continues v → RunLoop t (es ++ all_events ess) (main_loop ess v))
      → RunTurn Allowed t es o
      → RunLoop t (es ++ all_events ess) (after_events ess o)
  after_events-Run ess es t (continues v) next h = next v refl
  after_events-Run ess es t (leaves v) next h =
      let (before, after, e, w, same, run, (allowed, left)) = h in
      let (_, (off, _)) = leaves-IsStopped e w v left in
      subst (RunLoop t (es ++ all_events ess)) (sym (main_loop-stopped ess v off))
        (inr (Meets-more Allowed t es (all_events ess) _ h), off)
  after_events-Run ess es t runs_on next h = Meets-more Allowed t es (all_events ess) _ h
  after_events-Run ess es t fault next h = Meets-more Allowed t es (all_events ess) _ h
  after_events-Run ess es t exits next h = Meets-more Allowed t es (all_events ess) _ h

  main_loop-from :
      (ess : List (List (Event S))) (before : List (Event S)) (t u : Server)
      → Run Allowed t before u
      → AllowedLoop Allowed ess u
      → RunLoop t (before ++ all_events ess) (main_loop ess u)
  unfolding main_loop
  main_loop-from [] before t u run all = by_flag u.statics.running refl
    where
      by_flag :
          (b : Bool)
          → u.statics.running ≡ b
          → RunLoop t (before ++ []) (if b then continues u else leaves u)
      by_flag true on = (subst (λ l. Run Allowed t l u) (sym (append-nil before)) run, on)
      by_flag false off = (inl (before, [], refl, run), off)
  main_loop-from (es ∷ ess) before t u run (one, more) =
      by_flag u.statics.running refl
        (λ v reached at. main_loop-from ess (before ++ es) t v reached (more v at))
    where
      by_flag :
          (b : Bool)
          → u.statics.running ≡ b
          → ((v : Server)
              → Run Allowed t (before ++ es) v
              → handle_events es u ≡ continues v
              → RunLoop t ((before ++ es) ++ all_events ess) (main_loop ess v))
          → RunLoop t
              (before ++ (es ++ all_events ess))
              (elim b [ false ↦ leaves u | true ↦ after_events ess (handle_events es u) ])
      by_flag false off next = (inl (before, es ++ all_events ess, refl, run), off)
      by_flag true on next =
          let reached = handle_events-Run Allowed es before t u run one in
          subst (λ l. RunLoop t l (after_events ess (handle_events es u)))
            (append_assoc before es (all_events ess))
            (after_events-Run ess (before ++ es) t (handle_events es u)
              (λ v at. next v (subst (RunTurn Allowed t (before ++ es)) at reached) at) reached)

  pub main_loop-Run :
      (ess : List (List (Event S))) (t : Server)
      → AllowedLoop Allowed ess t
      → RunLoop t (all_events ess) (main_loop ess t)
  main_loop-Run ess t all = main_loop-from ess [] t t begins all
