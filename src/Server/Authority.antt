-- ===== src/Server/Authority.antt =====
-- server.c: how the whole event loop is left.
use std.Path.{subst}
use h_ss.Prelude.{ℕ, ◌≡◌, ◌⊎◌, refl, sym, ◌∙◌, ap, inl, inr, true, false, List, [], ◌∷◌, ◌++◌, none}
use h_ss.Authorization.{Authorization}
use h_ss.Statics
use h_ss.Statics.{Statics}
use h_ss.Sockets.{Block, Attempt}
use h_ss.Server.Start.{IsStarted, start-IsStarted}
use h_ss.Server.{start, Server, Event, leaves, handle_event, main_loop}
use h_ss.Server.Runs.{
  AllowedEvents, Run, begins, later, AllowedLoop, all_events, Meets, Meets-more, Ended,
}
use h_ss.Server.Loop.{RunLoop, RunPart, main_loop-Run}
use h_ss.Server.Stops.{leaves-IsStopped}
use h_ss.Server.Guard.{IsEventAuthorized, TurnGuards, handle_event-Guards}

abbrev pub Any : {S : Type 0} → Event S → Server → Type 0
Any e t = Unit

false-not-true : false ≡ true → ⊥
false-not-true e = cc

abbrev SameSwitches : Server → Server → Type 0
SameSwitches t u =
    (u.statics.running ≡ t.statics.running) × (u.statics.log_level ≡ t.statics.log_level)

module _ {S : Type 0} where
  Any-events : (es : List (Event S)) (t : Server) → AllowedEvents Any es t
  Any-events [] t = tt
  Any-events (e ∷ es) t = (tt, λ u at. Any-events es u)

  Any-loop : (ess : List (List (Event S))) (t : Server) → AllowedLoop Any ess t
  Any-loop [] t = tt
  Any-loop (es ∷ ess) t = (Any-events es t, λ u at. Any-loop ess u)

  -- One of the events is authorized when it is met, with the code that the first server has.
  abbrev pub WasAuthorized : Server → List (Event S) → Type 0
  WasAuthorized t es =
      Meets Any t es
        (λ e v. IsEventAuthorized e v × (v.statics.authorization ≡ t.statics.authorization))

  -- One of the events is a hang-up, which leaves no node.
  abbrev pub WasDeserted : Server → List (Event S) → Server → Type 0
  WasDeserted t es u =
      Meets Any t es
        (λ e v. (handle_event e v ≡ leaves u) × (e.hung_up ≡ true) × (u.descriptors.head ≡ none))

  Run-Guards :
      (t u : Server) (es : List (Event S))
      → t.statics.authorization.initialize ≡ false
      → Run Any t es u
      → (SameSwitches t u ⊎ WasAuthorized t es)
        × (u.statics.authorization ≡ t.statics.authorization)
  Run-Guards t u [] made begins = (inl (refl, refl), refl)
  Run-Guards t u _ made (later {es = es} {u = v} e run allowed at) =
      let (before, code) = Run-Guards t v es made run in
      let (now, keeps) = subst (TurnGuards e v) at (handle_event-Guards e v) in
      (both before now code, keeps (ap (λ (a : Authorization). a.initialize) code ∙ made) ∙ code)
    where
      both :
          SameSwitches t v ⊎ WasAuthorized t es
          → SameSwitches v u ⊎ IsEventAuthorized e v
          → v.statics.authorization ≡ t.statics.authorization
          → SameSwitches t u ⊎ WasAuthorized t (es ++ (e ∷ []))
      both (inr earlier) now code = inr (Meets-more Any t es (e ∷ []) _ earlier)
      both (inl (r, l)) (inr asked) code = inr (es, [], e, v, refl, run, (asked, code))
      both (inl (r, l)) (inl (r', l')) code = inl (r' ∙ r, l' ∙ l)

  -- The server starts while it is to run, gets any events in its calls of `epoll_wait`, and its loop is
  -- left. Then one of the events is a hang-up, with which the loop is left since the list of descriptors
  -- is empty, or one of the events is authorized when those before it have been handled: its bytes
  -- complete a request whose Authorization header begins with the code that was made at the start.
  pub main_loop-authority :
      (random : ℕ × ℕ × ℕ) (http https : List (Block × Attempt)) (s : Statics)
      (ess : List (List (Event S))) (t u : Server)
      → s.running ≡ true
      → start random http https s ≡ Statics.ok t
      → main_loop ess t ≡ leaves u
      → WasDeserted t (all_events ess) u ⊎ WasAuthorized t (all_events ess)
  main_loop-authority random http https s ess t u on begin at =
      by_end (subst (RunLoop Any t (all_events ess)) at (main_loop-Run Any ess t (Any-loop ess t)))
        (start-IsStarted random http https s t begin)
    where
      by_end :
          (RunPart Any t (all_events ess) u ⊎ Ended Any t (all_events ess) (leaves u))
            × (u.statics.running ≡ false)
          → IsStarted http https s t
          → WasDeserted t (all_events ess) u ⊎ WasAuthorized t (all_events ess)
      by_end (inl (before, after, same, run), off) (_, made, running, _) =
          elim (Run-Guards t u before made run).0 [
            | inl (r, l) ↦ absurd (false-not-true (sym off ∙ r ∙ running ∙ on))
            | inr earlier ↦
                inr (subst (WasAuthorized t) (sym same) (Meets-more Any t before after _ earlier))
          ]
      by_end (inr (before, after, e, v, same, run, (_, left)), off) started =
          let (up, (_, empty)) = leaves-IsStopped e v u left in
          inl (before, after, e, v, same, run, (left, up, empty))
