-- ===== src/Connection/Guarded.antt =====
-- server.c: what a call of `handle_connection` may change of the static variables.
use h_ss.Prelude.{ℕ, ◌≡◌, ◌⊎◌, refl, inl, inr, [], none, ◌==◌, Bool-cases, codes}
use h_ss.Errors.{ErrorCode}
use h_ss.Errors
use h_ss.Request.{Request, Parse, stop, out_of_fuel, http_request_from_buffer}
use h_ss.Request
use h_ss.Response.{Response, http_bad_request, http_response_set_code, http_response_set_header}
use h_ss.Descriptors.{
  DescriptorType, Buffer, Connection, ConnectionStatus, waiting_request, writing_response,
}
use h_ss.Statics
use h_ss.Statics.{Outcome, Statics, ◌>>=◌, defined}
use h_ss.Transaction.{World, handle_http_transaction}
use h_ss.Transaction.Guarded.{IsAuthorized, IsGuarded, KeepsCode}
use h_ss.Transaction.Magic.{transaction-IsGuarded, transaction-KeepsCode}
use h_ss.Connection.{
  Kernel, Handled, kept, destroyed, runs_on, fault, exits, after_send, after_respond, after_fill,
  after_receive, by_state, handle_connection,
}
use h_ss.Connection.Receive
use h_ss.Connection.Receive.{Pages, no_pages, Received, stopped, closed, overflow, receive}
use h_ss.Connection.Fill.{Filled, filled, no_memory, overrun, fill}
use h_ss.Connection.Respond.{
  render_into, Responding, waits, responds, prepare, refuse, answer_parse, request_bytes, respond,
}
use h_ss.Connection.Send.{Sent, finished, paused, broken, send_loop}

-- The request that the buffer holds, is authorized.
abbrev pub IsAsked : World → Statics → Connection → Type 0
IsAsked w s c =
    (request : Request) × (http_request_from_buffer c.request (request_bytes c)
      ≡ Request.ok request)
    × IsAuthorized w s request

-- The bytes that the call receives complete a request that is authorized.
abbrev pub IsCallAuthorized : {S : Type 0} → ℕ → Kernel S → Statics → Connection → Type 0
IsCallAuthorized fuel k s c =
    (p : Pages) × (rest : _) × (b : Buffer) × (receive k.recv fuel no_pages k.socket
      ≡ stopped p rest)
    × (fill k.granted k.junk c.buffer p ≡ filled b)
    × IsAsked k.world s (record c { buffer = b })

-- The switches stay, or somebody is authorized; a code that was made stays.
abbrev pub Guards : Type 0 → Statics → Statics → Type 0
Guards Allowed s t =
    (((t.running ≡ s.running) × (t.log_level ≡ s.log_level)) ⊎ Allowed) × KeepsCode s t

abbrev pub same : {Allowed : Type 0} (s : Statics) → Guards Allowed s s
same s = (inl (refl, refl), λ e. refl)

module _ (G : Statics → Type 0) where
  abbrev AnswerGuards : Outcome Responding → Type 0
  AnswerGuards (Statics.ok (waits t c)) = G t
  AnswerGuards (Statics.ok (responds t c)) = G t
  AnswerGuards Statics.fault = Unit
  AnswerGuards Statics.exits = Unit

  abbrev pub HandledGuards : {S : Type 0} → Handled S → Type 0
  HandledGuards (kept t c out rest) = G t
  HandledGuards (destroyed t c out) = G t
  HandledGuards runs_on = Unit
  HandledGuards fault = Unit
  HandledGuards exits = Unit

  AnswerGuards-bind :
      {A : Type 0} (m : Outcome A) (f : A → Outcome Responding)
      → ((a : A) → m ≡ Statics.ok a → AnswerGuards (f a))
      → AnswerGuards (m >>= f)
  AnswerGuards-bind (Statics.ok a) f h = h a refl
  AnswerGuards-bind Statics.fault f h = tt
  AnswerGuards-bind Statics.exits f h = tt

  after_send-Guards :
      {S : Type 0} (t : Statics) (rest : S) (o : Sent) → G t → HandledGuards (after_send t rest o)
  after_send-Guards t rest (finished c out) g = g
  after_send-Guards t rest (paused c out) g = g
  after_send-Guards t rest (broken c out) g = g

  after_respond-Guards :
      {S : Type 0} (k : Kernel S) (rest : S) (o : Outcome Responding)
      → AnswerGuards o
      → HandledGuards (after_respond k rest o)
  after_respond-Guards k rest (Statics.ok (waits t c)) g = g
  after_respond-Guards k rest (Statics.ok (responds t c)) g =
      after_send-Guards t rest (send_loop k.results c []) g
  after_respond-Guards k rest Statics.fault g = tt
  after_respond-Guards k rest Statics.exits g = tt

  prepare-Guards :
      (w : World) (c : Connection) (request : Request) (t : Statics) (r : Response)
      → G t
      → AnswerGuards (prepare w c request (t, r))
  unfolding prepare
  prepare-Guards w c request t r g =
      AnswerGuards-bind
        (defined (
          render_into w.malloc c.buffer
            (http_response_set_header r (codes "Server") (codes "hSS/0.0.1-alpha"))))
        _ (λ made e. g)

  refuse-Guards :
      (w : World) (s : Statics) (c : Connection) (e : ErrorCode) (request : Request)
      → G s
      → AnswerGuards (refuse w s c e request)
  refuse-Guards w s c e request g = go e
    where
      bad : AnswerGuards (
          defined (http_response_set_code c.response http_bad_request none) >>= λ r.
          prepare w c request (s, r))
      bad =
          AnswerGuards-bind (defined (http_response_set_code c.response http_bad_request none)) _
            (λ r e. prepare-Guards w c request s r g)

      go : (x : ErrorCode) → AnswerGuards (refuse w s c x request)
      go Errors.incomplete_request = g
      go Errors.request_no_valid_data = bad
      go Errors.parse_invalid_request_syntax = bad
      go Errors.insufficient_buffer_size = bad
      go Errors.unsupported_method = bad
      go Errors.duplicate_header_key = bad
      go Errors.no_such_header = bad
      go Errors.succeed = bad

respond-Guards :
    (w : World) (type : DescriptorType) (s : Statics) (c : Connection)
    → AnswerGuards (Guards (IsAsked w s c) s) (respond w type s c)
unfolding respond
respond-Guards w type s c = go (http_request_from_buffer c.request (request_bytes c)) refl
  where
    by_authority :
        (request : Request) (t : Statics)
        → http_request_from_buffer c.request (request_bytes c) ≡ Request.ok request
        → IsGuarded w s request t
        → ((t.running ≡ s.running) × (t.log_level ≡ s.log_level)) ⊎ IsAsked w s c
    by_authority request t e (inl switches) = inl switches
    by_authority request t e (inr allowed) = inr (request, e, allowed)

    go :
        (p : Parse Request)
        → http_request_from_buffer c.request (request_bytes c) ≡ p
        → AnswerGuards (Guards (IsAsked w s c) s) (answer_parse w type s c p)
    go (Request.ok request) e =
        AnswerGuards-bind (Guards (IsAsked w s c) s)
          (handle_http_transaction w type s request c.response) _
          (λ u made. prepare-Guards (Guards (IsAsked w s c) s) w c request u.0 u.1 (
            by_authority request u.0 e
                (transaction-IsGuarded w s request c.response type u.0 u.1 made),
            transaction-KeepsCode w s request c.response type u.0 u.1 made,
          ))
    go (stop code request) e = refuse-Guards (Guards (IsAsked w s c) s) w s c code request (same s)
    go Request.fault e = tt
    go out_of_fuel e = tt

module _ {S : Type 0} (fuel : ℕ) (k : Kernel S) (type : DescriptorType) (s : Statics)
    (c : Connection) where
  abbrev Guard : Statics → Type 0
  Guard = Guards (IsCallAuthorized fuel k s c) s

  after_fill-Guards :
      (p : Pages) (rest : S)
      → receive k.recv fuel no_pages k.socket ≡ stopped p rest
      → (f : Filled) → fill k.granted k.junk c.buffer p ≡ f
      → HandledGuards Guard (after_fill k type s c rest f)
  after_fill-Guards p rest e (filled b) made =
      after_respond-Guards Guard k rest (respond k.world type s (record c { buffer = b })) (
        widen (respond k.world type s (record c { buffer = b }))
          (respond-Guards k.world type s (record c { buffer = b })))
    where
      wider : (t : Statics) → Guards (IsAsked k.world s (record c { buffer = b })) s t → Guard t
      wider t (inl switches, keeps) = (inl switches, keeps)
      wider t (inr asked, keeps) = (inr (p, rest, b, e, made, asked), keeps)

      widen :
          (o : Outcome Responding)
          → AnswerGuards (Guards (IsAsked k.world s (record c { buffer = b })) s) o
          → AnswerGuards Guard o
      widen (Statics.ok (waits t d)) g = wider t g
      widen (Statics.ok (responds t d)) g = wider t g
      widen Statics.fault g = tt
      widen Statics.exits g = tt
  after_fill-Guards p rest e no_memory made = same s
  after_fill-Guards p rest e overrun made = tt

  after_receive-Guards :
      (o : Received S)
      → receive k.recv fuel no_pages k.socket ≡ o
      → HandledGuards Guard (after_receive k type s c o)
  after_receive-Guards (stopped p rest) e = elim (Bool-cases (p.total_size == 0)) [
    | inl z ↦ rw z (same s)
    | inr z ↦ rw z (after_fill-Guards p rest e (fill k.granted k.junk c.buffer p) refl)
  ]
  after_receive-Guards (closed p rest) e = same s
  after_receive-Guards overflow e = tt
  after_receive-Guards Receive.out_of_fuel e = tt

  by_state-Guards :
      (state : ConnectionStatus) → HandledGuards Guard (by_state fuel k type s c state)
  by_state-Guards waiting_request = elim (Bool-cases k.readable) [
    | inl given ↦ rw given (after_receive-Guards (receive k.recv fuel no_pages k.socket) refl)
    | inr denied ↦ rw denied (same s)
  ]
  by_state-Guards writing_response = elim (Bool-cases k.writable) [
    | inl given ↦ rw given (after_send-Guards Guard s k.socket (send_loop k.results c []) (same s))
    | inr denied ↦ rw denied (same s)
  ]

  -- A call leaves the switches as they are, or the request that it answers is authorized, and a code
  -- that was made before stays.
  pub handle_connection-Guards : HandledGuards Guard (handle_connection fuel k type s c)
  unfolding handle_connection
  handle_connection-Guards = by_state-Guards c.state
