-- ===== src/Server/Answers.antt =====
-- server.c: an event whose bytes complete a request, from the event loop to the bytes sent.
mod Tests
use std.Path.{subst}
use h_ss.Prelude.{
  ℕ, ◌*◌, ◌^◌, ◌<◌, ◌≡◌, refl, ap, sym, ◌∙◌, arith, Bool, true, false, if◌then◌else◌, List, ◌∷◌,
  ◌++◌, Option, none, some, Bytes, length, All,
}
use h_ss.Request
use h_ss.Request.{Request, http_request_from_buffer}
use h_ss.Response.{Response, render_bytes, complete}
use h_ss.Response.Valid
use h_ss.Statics
use h_ss.Statics.{Statics}
use h_ss.Transaction.{handle_http_transaction}
use h_ss.Descriptors.{
  DescriptorType, listen_socket, tcp_socket, tls_socket, Connection, Information, Descriptors,
  find_node, destroy_file_information, waiting_request, writing_response,
}
use h_ss.Connection.{handle_connection, after_send}
use h_ss.Connection.Answered.{with_server, handle_connection-answers}
use h_ss.Connection.Fill.Kept.{unread}
use h_ss.Connection.Invariant.{Good, Bounded, Bounded-IsConnection}
use h_ss.Connection.Receive.{Socket, recv, would_block, page_size, page_count}
use h_ss.Connection.Receive.Drained.{socket}
use h_ss.Connection.Receive.Follows.{Presents}
use h_ss.Connection.Receive.Step.{flatten, NotEmpty}
use h_ss.Connection.Send.{Sent, finished, paused, broken}
use h_ss.Connection.Send.Exact.{Accounts}
use h_ss.Hooks.{memory_hooks}
use h_ss.Server.Underlying.{destroy_underlying-rule, serve-rule}
use h_ss.Server.{
  Server, Event, Turn, continues, fault, hang_up, turn_of, with_connection, destroy_underlying,
  serve, after_handle, by_type, handle_event,
}
use h_ss.Server.Nodes.{OnNodes-find, find-set_connection}
use h_ss.Server.Served.{Held, InOrder, IsServed, HasRoom, IsRoomy, Honest}
use h_ss.Server.Turns.{destroy_changed, call-Good}

Held-Bounded : (type : DescriptorType) (c : Connection) → Held type (some c) → Bounded c
Held-Bounded listen_socket c h = cc
Held-Bounded tcp_socket c h = h
Held-Bounded tls_socket c h = h

by_type-serve :
    {S : Type 0} (e : Event S) (t : Server) (type : DescriptorType) (c : Connection)
    → Held type (some c)
    → by_type e t type (some c) ≡ serve e t type (some c)
by_type-serve e t listen_socket c h = cc
by_type-serve e t tcp_socket c h = refl
by_type-serve e t tls_socket c h = refl

-- What is left of the connection of a node: it is changed in place, or its descriptor is closed.
abbrev pub LeftAs : ℕ → Information → Descriptors → Descriptors → Sent → Type 0
LeftAs a i before d (finished c out) = find_node d.nodes a ≡ some (record i { connection = some c })
LeftAs a i before d (paused c out) = find_node d.nodes a ≡ some (record i { connection = some c })
LeftAs a i before d (broken c out) =
    (d.closed ≡ (i.file_descriptor ∷ before.closed)) × (d.head ≡ i.next)

true-false : true ≡ false → ⊥
true-false e = cc

module _ {S : Type 0} (e : Event S) (t : Server) (served : IsServed t) (i : Information)
    (c : Connection) (found : find_node t.descriptors.nodes e.address ≡ some i)
    (at : i.connection ≡ some c) where
  handle_event-serves :
      e.hung_up ≡ false
      → (t.hooks e.address ≡ memory_hooks → ⊥)
      → handle_event e t
        ≡ after_handle e t i.type (handle_connection e.fuel e.kernel i.type t.statics c)
  unfolding handle_event
  handle_event-serves up set =
      let by_node : Option Information → Turn = λ o. elim o [
        | none ↦ fault
        | some j ↦
            if e.hung_up
            then destroy_underlying e t j.type
                (hang_up t (destroy_file_information t.descriptors e.address))
            else by_type e t j.type j.connection
      ] in
      let by_up : Bool → Turn = λ b.
        if b
        then destroy_underlying e t i.type
            (hang_up t (destroy_file_information t.descriptors e.address))
        else by_type e t i.type i.connection in
      ap by_node found
      ∙ ap by_up up
      ∙ ap (by_type e t i.type) at
      ∙ by_type-serve e t i.type c (
          subst (Held i.type) at
            (OnNodes-find InOrder t.descriptors.nodes e.address i served found).1)
      ∙ serve-rule e t
          (λ x. x ≡ after_handle e t i.type (handle_connection e.fuel e.kernel i.type t.statics c))
          i.type c refl (λ unset. absurd (set unset))

  -- The loop goes on, whatever the peer takes.
  goes_on :
      (s : Statics) (rest : S) (sent : Sent)
      → Good (after_send s rest sent)
      → (t.hooks e.address ≡ memory_hooks → ⊥)
      → e.closes ≡ true
      → (u : Server) × (after_handle e t i.type (after_send s rest sent) ≡ continues u)
        × (u.statics ≡ s)
        × LeftAs e.address i t.descriptors u.descriptors sent
  goes_on s rest (finished d out) good set closes =
      (_, refl, refl, find-set_connection t.descriptors.nodes e.address d i found)
  goes_on s rest (paused d out) good set closes =
      (_, refl, refl, find-set_connection t.descriptors.nodes e.address d i found)
  goes_on s rest (broken d out) good set closes =
      let next =
        turn_of (record t { statics = s })
          (destroy_file_information (with_connection t.descriptors e.address d) e.address) in
      (
        _,
        destroy_underlying-rule e t (λ x. x ≡ next) i.type next refl
              (λ (hangs, _). absurd (true-false (sym closes ∙ hangs))) (λ unset. absurd (set unset))
            ∙ ap (turn_of (record t { statics = s })) (destroy_changed e t served i d found good),
        refl,
        (refl, refl),
      )

  module _ (R : S → Socket → Type 0) (chunks : List Bytes)
      (presents : (u : S) (v : Socket) (n : ℕ) → R u v → Presents R (e.kernel.recv u n) (recv v n))
      (honest : Honest e.kernel) (roomy : IsRoomy t) (waiting : c.state ≡ waiting_request)
      (up : e.hung_up ≡ false) (set : t.hooks e.address ≡ memory_hooks → ⊥)
      (closes : e.closes ≡ true) (readable : e.kernel.readable ≡ true)
      (granted : e.kernel.granted ≡ true) (arrived : R e.kernel.socket (socket chunks would_block))
      (pieces : All NotEmpty chunks) (some_bytes : 0 < length (flatten chunks))
      (few : length (flatten chunks) < page_size * page_count)
      (rounds : length (flatten chunks) < e.fuel) where
    -- A server whose nodes are in order, each buffer ending half a megabyte before 2^64, gets an event
    -- of a live node with a connection that waits and whose function pointers are set. It did not hang
    -- up, its peer would answer the end of a TLS session, it is readable, and its `recv`
    -- presents a socket with some bytes, in pieces, fewer than 128 pages hold, with memory for them; the
    -- fuel is more than the bytes. With what was unread they are a complete request that the transaction
    -- answers, with a valid response whose rendering is shorter than 2^64. Then the loop goes on with the
    -- static variables of the transaction. What the event's call of `handle_connection` gives out by
    -- `send`, and what it leaves in the buffer for later, are just the bytes of that rendering, with the `Server` header, in order; if the peer breaks the
    -- connection, what went out is a beginning of them. The node has the connection that is left, or, if
    -- the peer broke it, its descriptor is closed and the list begins at its `next`.
    pub handle_event-answers :
        (s : Statics) (request : Request) (r : Response) (out : Bytes)
        → http_request_from_buffer c.request (unread c.buffer ++ flatten chunks)
          ≡ Request.ok request
        → handle_http_transaction e.kernel.world i.type t.statics request c.response
          ≡ Statics.ok (s, r)
        → Valid.IsValid r
        → render_bytes (complete (with_server r)) ≡ some out
        → length out < 2 ^ 64
        → (u : Server) × (sent : Sent) × (rest : S) × (handle_connection e.fuel e.kernel i.type
              t.statics c
            ≡ after_send s rest sent)
          × (handle_event e t ≡ continues u)
          × (u.statics ≡ s)
          × Accounts writing_response out sent
          × LeftAs e.address i t.descriptors u.descriptors sent
    handle_event-answers s request r out parse done rv made small =
        let held = (OnNodes-find InOrder t.descriptors.nodes e.address i served found).1 in
        let b = Held-Bounded i.type c (subst (Held i.type) at held) in
        let room = OnNodes-find HasRoom t.descriptors.nodes e.address i roomy found c at in
        let v = Bounded-IsConnection c b (omega (arith, room)) in
        let (sent, rest, answered, shown, accounts) =
          handle_connection-answers R e.fuel e.kernel i.type t.statics c chunks presents waiting
            readable granted arrived v.buffered pieces some_bytes few rounds
            (omega (arith, room, few, v.buffered.within)) s request r out honest.1 parse done rv
            made small in
        let good = subst Good answered (call-Good e t served honest roomy i.type i c found at b) in
        let (u, next, same, left) = goes_on s rest sent good set closes in
        (
          u,
          sent,
          rest,
          answered,
          handle_event-serves up set ∙ ap (after_handle e t i.type) answered ∙ next,
          same,
          accounts,
          left,
        )
