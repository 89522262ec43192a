-- ===== src/Connection/Invariant/Calls.antt =====
-- server.c: every call of `handle_connection` keeps the invariant of its connection.
use std.Path.{subst}
use h_ss.Prelude.{
  ℕ, ◌+◌, ◌*◌, ◌^◌, ◌≤◌, ◌<◌, ◌≡◌, refl, sym, ap, ◌∙◌, inl, inr, arith, [], ◌==◌, Bytes, length,
  Bool-cases,
}
use h_ss.Descriptors.{
  DescriptorType, Connection, ConnectionStatus, waiting_request, writing_response,
}
use h_ss.Statics
use h_ss.Statics.{Outcome, Statics, ◌>>=◌, defined}
use h_ss.Connection.{
  Kernel, kept, after_respond, after_fill, after_receive, by_state, handle_connection,
}
use h_ss.Connection.Receive
use h_ss.Connection.Receive.{
  Socket, Pages, no_pages, Received, stopped, closed, overflow, page_size, page_count, receive,
}
use h_ss.Connection.Receive.Step.{IsPaged}
use h_ss.Connection.Receive.Paged.{Fits, receive-IsPaged}
use h_ss.Connection.Fill.{fill}
use h_ss.Connection.Fill.Kept.{fill-IsBuffer}
use h_ss.Connection.Respond.{Responding, waits, responds}
use h_ss.Connection.Send.{send_loop}
use h_ss.Connection.Receive.Drained.{paged_short}
use h_ss.Connection.Answered.{no_pages-IsPaged}
use h_ss.Connection.Invariant.{
  IsConnection, bounded, Bounded-IsConnection, Good, send_loop-Good, after_send-Good,
}
use h_ss.Connection.Invariant.Answer.{GoodAnswer, respond-Good}

after_respond-Good :
    {S : Type 0} (k : Kernel S) (rest : S) (o : Outcome Responding)
    → GoodAnswer o
    → Good (after_respond k rest o)
after_respond-Good k rest (Statics.ok (waits s c)) h = h
after_respond-Good k rest (Statics.ok (responds s c)) h =
    after_send-Good s rest (send_loop k.results c []) (send_loop-Good k.results c [] h)
after_respond-Good k rest Statics.fault h = tt
after_respond-Good k rest Statics.exits h = tt

module _ {S : Type 0} (k : Kernel S) (fits : (u : S) (n : ℕ) → Fits n (k.recv u n))
    (sized : (n : ℕ) → length (k.world.malloc n) ≡ n) (type : DescriptorType) (s : Statics)
    (c : Connection) (v : IsConnection c)
    (room : c.buffer.end + page_size * page_count ≤ 2 ^ 64) where
  after_fill-Good :
      (p : Pages) (rest : S)
      → IsPaged p
      → Good (after_fill k type s c rest (fill k.granted k.junk c.buffer p))
  unfolding fill
  after_fill-Good p rest paged = elim (Bool-cases k.granted) [
    | inl given ↦
        let (q, made, bv, _, _, _, (block, at)) =
          fill-IsBuffer k.junk c.buffer p v.buffered paged
            (omega (arith, room, paged.measured, paged_short p paged)) in
        subst (λ o. Good (after_fill k type s c rest o))
          (sym (ap (λ g. fill g k.junk c.buffer p) given ∙ made))
          (after_respond-Good k rest _ (
            respond-Good k.world sized s (record c { buffer = q })
              (record { buffered = bv; requested = v.requested; answered = v.answered }) block at
              type))
    | inr denied ↦
        subst (λ o. Good (after_fill k type s c rest o))
          (sym (ap (λ g. fill g k.junk c.buffer p) denied)) v.answered
  ]

  after_receive-Good :
      (o : Received S)
      → ((p : Pages) (rest : S) → o ≡ stopped p rest → IsPaged p)
      → Good (after_receive k type s c o)
  after_receive-Good (stopped p rest) h = elim (Bool-cases (p.total_size == 0)) [
    | inl z ↦ rw z (bounded c v)
    | inr z ↦ rw z (after_fill-Good p rest (h p rest refl))
  ]
  after_receive-Good (closed p rest) h = v.answered
  after_receive-Good overflow h = tt
  after_receive-Good Receive.out_of_fuel h = tt

  by_state-Good : (fuel : ℕ) (state : ConnectionStatus) → Good (by_state fuel k type s c state)
  by_state-Good fuel waiting_request = elim (Bool-cases k.readable) [
    | inl given ↦ rw given (
        after_receive-Good (receive k.recv fuel no_pages k.socket) (λ p rest e.
          receive-IsPaged k.recv fits fuel no_pages p k.socket rest no_pages-IsPaged e))
    | inr denied ↦ rw denied (bounded c v)
  ]
  by_state-Good fuel writing_response = elim (Bool-cases k.writable) [
    | inl given ↦ rw given (
        after_send-Good s k.socket (send_loop k.results c [])
          (send_loop-Good k.results c [] (bounded c v)))
    | inr denied ↦ rw denied (bounded c v)
  ]

  -- What a call comes to is in order, whatever it is.
  pub handle_connection-Good : (fuel : ℕ) → Good (handle_connection fuel k type s c)
  unfolding handle_connection
  handle_connection-Good fuel = by_state-Good fuel c.state

  -- Whatever happens in a call, the connection that it leaves is in order again: its buffer, its
  -- request and its response. The buffer ends half a megabyte before 2^64 at least, and the one that
  -- is left is smaller than 2^64.
  pub handle_connection-IsConnection :
      (fuel : ℕ) (t : Statics) (d : Connection) (out : Bytes) (rest : S)
      → handle_connection fuel k type s c ≡ kept t d out rest
      → d.buffer.capability < 2 ^ 64
      → IsConnection d
  handle_connection-IsConnection fuel t d out rest e small =
      Bounded-IsConnection d (subst Good e (handle_connection-Good fuel)) small
