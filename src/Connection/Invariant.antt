-- ===== src/Connection/Invariant.antt =====
-- server.c: the invariant of a connection, and that sending keeps it.
pub mod Answer
pub mod Calls
use std.Path.{subst}
use h_ss.Prelude.{
  ℕ, suc, zero, ◌+◌, ◌-◌, ◌*◌, ◌^◌, ◌≤◌, ◌<◌, ◌≡◌, ◌⊎◌, refl, sym, ap, ◌∙◌, inl, inr, arith, Bool,
  true, false, List, [], ◌∷◌, ◌++◌, Option, none, some, if◌then◌else◌, ◌==◌, Bytes, codes, length,
  Bool-cases, length-append,
}
use h_ss.Errors
use h_ss.Errors.{ErrorCode, incomplete_request}
use h_ss.Request
use h_ss.Request.{
  Request, Parse, stop, out_of_fuel, cleared, http_request_from_buffer, http_request_destroy,
}
use h_ss.Request.State
use h_ss.Request.State.{Ensures, from_buffer-Ensures, destroy-cleared, cleared-IsValid}
use h_ss.Response.{
  Response, http_bad_request, http_response_set_code, http_response_set_header, render_bytes,
  complete,
}
use h_ss.Response.Render.{render-fits}
use h_ss.Descriptors.{
  DescriptorType, Buffer, Connection, ConnectionStatus, waiting_request, writing_response,
}
use h_ss.Statics
use h_ss.Statics.{Outcome, Statics, ◌>>=◌, defined}
use h_ss.Transaction.{World, handle_http_transaction}
use h_ss.Transaction.Sound.{
  IsSound, set_code-IsSound, set_header-IsSound, complete-IsSound, transaction-IsSound,
}
use h_ss.Connection.{
  Kernel, Handled, kept, destroyed, runs_on, fault, exits, after_send, after_respond, after_fill,
  after_receive, by_state, handle_connection,
}
use h_ss.Connection.Receive
use h_ss.Connection.Receive.{
  Socket, Pages, no_pages, Received, stopped, closed, overflow, page_size, page_count, receive,
}
use h_ss.Connection.Receive.Step.{flatten, bytes_of, IsPaged, length-flatten}
use h_ss.Connection.Receive.Paged.{receive-IsPaged}
use h_ss.Connection.Fill.{Filled, filled, no_memory, overrun, fill}
use h_ss.Connection.Fill.Kept.{unread, IsBuffer, fill-IsBuffer}
use h_ss.Connection.Respond.{
  render_into, Responding, waits, responds, prepare, refuse, answer_parse, request_bytes, respond,
}
use h_ss.Connection.Respond.Rendered.{render_into_lem}
use h_ss.Connection.Send.{
  SendResult, accepts, no_room, breaks, Sent, finished, paused, broken, min, to_be_write, advance,
  going_out, send_loop,
}
use h_ss.Connection.Send.Exact.{advance_lem, to_be_write_lem}
use h_ss.Transaction.Guarded.{defined-ok}
use h_ss.Connection.Receive.Drained.{paged_short}
use h_ss.Connection.Answered.{with_server, answering, prepare_ok, no_pages-IsPaged}

pub record IsConnection (c : Connection) : Type 0 where
  pub buffered : IsBuffer c.buffer
  pub requested : State.IsValid c.request
  pub answered : IsSound c.response

-- It holds when the block of the buffer is one that a machine of 64 bits can have.
abbrev pub Bounded : Connection → Type 0
Bounded c =
    (c.buffer.capability < 2 ^ 64 → IsBuffer c.buffer)
    × State.IsValid c.request
    × IsSound c.response

pub bounded : (c : Connection) → IsConnection c → Bounded c
bounded c v = ((λ small. v.buffered), v.requested, v.answered)

pub Bounded-IsConnection :
    (c : Connection) → Bounded c → c.buffer.capability < 2 ^ 64 → IsConnection c
Bounded-IsConnection c (b, r, a) small = record { buffered = b small; requested = r; answered = a }

-- A connection that is destroyed has a response that can be.
abbrev pub Good : {S : Type 0} → Handled S → Type 0
Good (kept s c out rest) = Bounded c
Good (destroyed s c out) = IsSound c.response
Good runs_on = Unit
Good fault = Unit
Good exits = Unit

abbrev pub GoodSent : Sent → Type 0
GoodSent (finished c out) = Bounded c
GoodSent (paused c out) = Bounded c
GoodSent (broken c out) = IsSound c.response

advance-Bounded : (c : Connection) (n : ℕ) → Bounded c → Bounded (advance c (min n (to_be_write c)))
advance-Bounded c n (b, r, a) = (
  λ small.
      let whole = to_be_write_lem c (b small) in
      (advance_lem c (min n (to_be_write c)) (b small) (ground (arith, whole))).0,
  r,
  a,
)

pub send_loop-Good :
    (results : List SendResult) (c : Connection) (out : Bytes)
    → Bounded c
    → GoodSent (send_loop results c out)
unfolding send_loop
send_loop-Good [] c out h = h
send_loop-Good (no_room ∷ results) c out h = h
send_loop-Good (breaks ∷ results) c out h = h.2
send_loop-Good (accepts n ∷ results) c out h =
    let size = min n (to_be_write c) in
    let moved = advance-Bounded c n h in
    elim (Bool-cases (size == to_be_write c)) [
      | inl all ↦ rw all moved
      | inr more ↦ rw more (send_loop-Good results (advance c size) (out ++ going_out c size) moved)
    ]

pub after_send-Good :
    {S : Type 0} (s : Statics) (rest : S) (o : Sent) → GoodSent o → Good (after_send s rest o)
after_send-Good s rest (finished c out) h = h
after_send-Good s rest (paused c out) h = h
after_send-Good s rest (broken c out) h = h
