-- ===== src/Connection/Answered.antt =====
-- server.c: a request that is complete is answered on its connection.
use h_ss.Prelude.{
  ℕ, ◌+◌, ◌*◌, ◌^◌, ◌<◌, ◌≡◌, ◌⊎◌, inl, inr, refl, ap, ◌∙◌, arith, true, false, List, [], ◌++◌,
  some, ◌==◌, Bytes, codes, length, take, drop, All,
}
use h_ss.Errors.{incomplete_request}
use h_ss.Request.{Request, Parse, stop, http_request_from_buffer, http_request_destroy}
use h_ss.Request
use h_ss.Response.{Response, http_response_set_header, render_bytes, complete}
use h_ss.Response.Valid
use h_ss.Response.Valid.{set_header-IsValid}
use h_ss.Descriptors.{DescriptorType, Buffer, Connection, waiting_request, writing_response}
use h_ss.Statics
use h_ss.Statics.{Outcome, Statics, ◌>>=◌, defined}
use h_ss.Transaction.{World, handle_http_transaction}
use h_ss.Connection.{Kernel, kept, handle_connection, after_respond, after_send}
use h_ss.Connection.Receive.{
  Socket, recv, Pages, no_pages, stopped, page_size, page_count, would_block, receive,
}
use h_ss.Connection.Receive.Step.{flatten, bytes_of, IsPaged, NotEmpty}
use h_ss.Connection.Receive.Drained.{socket, receive_drains}
use h_ss.Connection.Receive.Follows.{Presents, receive-stopped}
use h_ss.Connection.Fill.{block_at, filled, fill}
use h_ss.Connection.Fill.Kept.{unread, IsBuffer, fill-IsBuffer}
use h_ss.Connection.Respond.{render_into, waits, responds, prepare, request_bytes, respond}
use h_ss.Connection.Respond.Rendered.{render_into_lem}
use h_ss.Connection.Send.{Sent, send_loop}
use h_ss.Connection.Send.Exact.{Accounts, send_loop-Accounts}

abbrev pub with_server : Response → Response
with_server r = http_response_set_header r (codes "Server") (codes "hSS/0.0.1-alpha")

request_bytes_lem : (c : Connection) → IsBuffer c.buffer → request_bytes c ≡ unread c.buffer
request_bytes_lem c v =
    ap (λ n. take n (drop c.buffer.start (block_at c.buffer.buffer)))
      (omega (arith, v.ordered, v.within, v.bounded))

handle_received :
    {S : Type 0} (fuel : ℕ) (k : Kernel S) (type : DescriptorType) (s : Statics) (c : Connection)
    (p : Pages) (rest : S) (q : Buffer)
    → c.state ≡ waiting_request
    → k.readable ≡ true
    → receive k.recv fuel no_pages k.socket ≡ stopped p rest
    → (p.total_size == 0) ≡ false
    → fill k.granted k.junk c.buffer p ≡ filled q
    → handle_connection fuel k type s c
      ≡ after_respond k rest (respond k.world type s (record c { buffer = q }))
unfolding handle_connection
handle_received fuel k type s c p rest q w r e n g = rw (w, r, e, n, g, handle_connection) refl

abbrev pub answering : Connection → Request → Buffer → Response → Connection
answering c request b rendered = record c {
  state = writing_response;
  request = http_request_destroy request;
  response = rendered;
  buffer = b;
}

pub prepare_ok :
    (w : World) (t : Statics) (c : Connection) (request : Request) (r rendered : Response)
    (b : Buffer)
    → render_into w.malloc c.buffer (with_server r) ≡ some (b, rendered)
    → prepare w c request (t, r) ≡ Statics.ok (responds t (answering c request b rendered))
unfolding prepare
prepare_ok w t c request r rendered b made = rw (made, prepare) refl

respond_ok :
    (w : World) (type : DescriptorType) (s t : Statics) (c : Connection) (bytes : Bytes)
    (request : Request) (r rendered : Response) (b : Buffer)
    → request_bytes c ≡ bytes
    → http_request_from_buffer c.request bytes ≡ Request.ok request
    → handle_http_transaction w type s request c.response ≡ Statics.ok (t, r)
    → render_into w.malloc c.buffer (with_server r) ≡ some (b, rendered)
    → respond w type s c ≡ Statics.ok (responds t (answering c request b rendered))
unfolding respond
respond_ok w type s t c bytes request r rendered b same parse done made =
    rw (same, parse, done, respond) (prepare_ok w t c request r rendered b made)

respond_waits :
    (w : World) (type : DescriptorType) (s : Statics) (c : Connection) (bytes : Bytes)
    (request : Request)
    → request_bytes c ≡ bytes
    → http_request_from_buffer c.request bytes ≡ stop incomplete_request request
    → respond w type s c ≡ Statics.ok (waits s (record c { request = request }))
unfolding respond
respond_waits w type s c bytes request same parse = rw (same, parse, respond) refl

bounded_by : {n out cap : ℕ} → (n ≡ out) ⊎ (n ≡ cap) → cap < 2 ^ 64 → out < 2 ^ 64 → n < 2 ^ 64
bounded_by (inl e) h k = omega (arith, e, k)
bounded_by (inr e) h k = omega (arith, e, h)

pub no_pages-IsPaged : IsPaged no_pages
no_pages-IsPaged = record {
  whole = tt;
  partial = omega arith;
  counted = omega arith;
  measured = unfold flatten in refl;
}

module _ {S : Type 0} (R : S → Socket → Type 0) (fuel : ℕ) (k : Kernel S) (type : DescriptorType)
    (s : Statics) (c : Connection) (chunks : List Bytes)
    (presents : (u : S) (v : Socket) (n : ℕ) → R u v → Presents R (k.recv u n) (recv v n))
    (waiting : c.state ≡ waiting_request) (readable : k.readable ≡ true)
    (granted : k.granted ≡ true) (arrived : R k.socket (socket chunks would_block))
    (ordered : IsBuffer c.buffer) (pieces : All NotEmpty chunks)
    (some_bytes : 0 < length (flatten chunks))
    (few : length (flatten chunks) < page_size * page_count)
    (rounds : length (flatten chunks) < fuel)
    (bounded : c.buffer.end + length (flatten chunks) < 2 ^ 64) where
  arrives :
      (q : Buffer) × (block : Bytes) × (rest : S) × (handle_connection fuel k type s c
        ≡ after_respond k rest (respond k.world type s (record c { buffer = q })))
      × R rest (socket [] would_block)
      × IsBuffer q
      × (unread q ≡ unread c.buffer ++ flatten chunks)
      × (q.buffer ≡ some block)
  arrives =
      let (p, drained, paged, all) =
        receive_drains fuel no_pages chunks no_pages-IsPaged pieces
          (unfold flatten in omega (arith, few)) rounds in
      let (rest, emptied, shown) =
        receive-stopped k.recv R presents fuel no_pages p k.socket (socket chunks would_block)
          (socket [] would_block) arrived drained in
      let whole : bytes_of p ≡ flatten chunks = unfold flatten in all in
      let size : p.total_size ≡ length (flatten chunks) = paged.measured ∙ ap length whole in
      let (q, made, v, holds, _, _, (block, at)) =
        fill-IsBuffer k.junk c.buffer p ordered paged (omega (arith, size)) in
      (
        q,
        block,
        rest,
        handle_received fuel k type s c p rest q waiting readable emptied (ground (arith, size))
            (ap (λ g. fill g k.junk c.buffer p) granted ∙ made),
        shown,
        v,
        holds ∙ ap (λ t. unread c.buffer ++ t) whole,
        at,
      )

  -- The connection's `recv` presents a socket. A waiting connection, its buffer in order, is readable
  -- and gets some bytes, in pieces, fewer than
  -- 128 pages hold, with memory for them. For the parser, what was unread and they are not complete.
  -- Then nothing is sent, the connection goes on waiting, and its buffer is in order and holds all
  -- those bytes. The fuel is more than the bytes, and they end before 2^64.
  pub handle_connection-waits :
      (request : Request)
      → http_request_from_buffer c.request (unread c.buffer ++ flatten chunks)
        ≡ stop incomplete_request request
      → (d : Connection) × (rest : S) × (handle_connection fuel k type s c ≡ kept s d [] rest)
        × R rest (socket [] would_block)
        × (d.state ≡ waiting_request)
        × (d.request ≡ request)
        × IsBuffer d.buffer
        × (unread d.buffer ≡ unread c.buffer ++ flatten chunks)
  handle_connection-waits request parse =
      let (q, block, rest, made, shown, v, holds, at) = arrives in
      let filled_in : Connection = record c { buffer = q } in
      (
        record filled_in { request = request },
        rest,
        made
            ∙ ap (after_respond k rest) (
                respond_waits k.world type s filled_in (unread c.buffer ++ flatten chunks) request
                  (request_bytes_lem filled_in v ∙ holds) parse),
        shown,
        waiting,
        refl,
        v,
        holds,
      )

  -- The connection's `recv` presents a socket. A waiting connection, its buffer in order, is readable
  -- and gets some bytes, in pieces, fewer than
  -- 128 pages hold, with memory for them. With what was unread they are a complete request that the
  -- transaction answers, with a valid response whose rendering is shorter than 2^64. Then what goes
  -- out and what is left in the buffer for later are just the bytes of that rendering, with the
  -- `Server` header, in order; if the peer breaks the connection, what went out is a beginning of
  -- them. The fuel is more than the bytes, and they end before 2^64.
  pub handle_connection-answers :
      (t : Statics) (request : Request) (r : Response) (out : Bytes)
      → ((n : ℕ) → length (k.world.malloc n) ≡ n)
      → http_request_from_buffer c.request (unread c.buffer ++ flatten chunks) ≡ Request.ok request
      → handle_http_transaction k.world type s request c.response ≡ Statics.ok (t, r)
      → Valid.IsValid r
      → render_bytes (complete (with_server r)) ≡ some out
      → length out < 2 ^ 64
      → (sent : Sent) × (rest : S) × (handle_connection fuel k type s c ≡ after_send t rest sent)
        × R rest (socket [] would_block)
        × Accounts writing_response out sent
  handle_connection-answers t request r out sized parse done rv made small =
      let (q, block, rest, came, shown, v, holds, at) = arrives in
      let filled_in : Connection = record c { buffer = q } in
      let (b, rendered, put, size, holds_out, _) =
        render_into_lem k.world.malloc q block (with_server r) out sized v at
          (set_header-IsValid r _ _ rv) made in
      let (bv, same) = holds_out (bounded_by size v.bounded small) in
      let d = answering filled_in request b rendered in
      (
        send_loop k.results d [],
        rest,
        came
            ∙ ap (after_respond k rest) (
                respond_ok k.world type s t filled_in (unread c.buffer ++ flatten chunks) request r
                  rendered b (request_bytes_lem filled_in v ∙ holds) parse done put),
        shown,
        rw same at (send_loop-Accounts k.results d [] bv),
      )
