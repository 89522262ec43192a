-- ===== src/Connection.antt =====
-- server.c: `handle_connection`, with the socket of its parts. A call gets what `epoll` said of the
-- descriptor and what the kernel will answer; it leaves the connection, or destroys it.
pub mod Answered
pub mod Fill
pub mod Guarded
pub mod Invariant
pub mod Receive
pub mod Respond
pub mod Send
pub mod Unread
mod Tests
use h_ss.Prelude.{ℕ, Bool, ◌&&◌, not, List, [], if◌then◌else◌, ◌==◌, Bytes}
use h_ss.Descriptors.{
  DescriptorType, ConnectionStatus, Connection, waiting_request, writing_response,
}
use h_ss.Statics
use h_ss.Statics.{Outcome, Statics}
use h_ss.Transaction.{World}
use h_ss.Connection.Receive.{
  Recv, Pages, no_pages, Received, stopped, closed, overflow, out_of_fuel, receive,
}
use h_ss.Connection.Fill.{Filled, filled, no_memory, overrun, fill}
use h_ss.Connection.Respond.{Responding, waits, responds, respond}
use h_ss.Connection.Send.{SendResult, Sent, finished, paused, broken, send_loop}

-- The event, the `recv` of the connection and what it keeps (a plain socket, or a TLS session), what
-- `send` returns, whether `realloc` gives memory and what it holds, and the rest of the world.
pub record Kernel (S : Type 0) : Type 0 where
  pub readable : Bool
  pub writable : Bool
  pub recv : S → ℕ → Recv × S
  pub socket : S
  pub results : List SendResult
  pub granted : Bool
  pub junk : ℕ
  pub world : World

-- What a call comes to, with the bytes that it sent: the connection stays or is destroyed, the
-- receiving loop goes on when the model's fuel ends, undefined behaviour, or the process ends.
pub data Handled (S : Type 0) : Type 0 where
  kept : Statics → Connection → Bytes → S → Handled S
  destroyed : Statics → Connection → Bytes → Handled S
  runs_on : Handled S
  fault : Handled S
  exits : Handled S

module _ {S : Type 0} where
  abbrev pub after_send : Statics → S → Sent → Handled S
  after_send s rest (finished c out) = kept s c out rest
  after_send s rest (paused c out) = kept s c out rest
  after_send s rest (broken c out) = destroyed s c out

  abbrev pub after_respond : Kernel S → S → Outcome Responding → Handled S
  after_respond k rest (Statics.ok (waits s c)) = kept s c [] rest
  after_respond k rest (Statics.ok (responds s c)) = after_send s rest (send_loop k.results c [])
  after_respond k rest Statics.fault = fault
  after_respond k rest Statics.exits = exits

  -- Without memory the connection is destroyed with its block as it was.
  abbrev pub after_fill : Kernel S → DescriptorType → Statics → Connection → S → Filled → Handled S
  after_fill k type s c rest (filled b) =
      after_respond k rest (respond k.world type s (record c { buffer = b }))
  after_fill k type s c rest no_memory = destroyed s c []
  after_fill k type s c rest overrun = fault

  abbrev pub after_receive :
      Kernel S → DescriptorType → Statics → Connection → Received S → Handled S
  after_receive k type s c (stopped p rest) =
      if p.total_size == 0
      then kept s c [] rest
      else after_fill k type s c rest (fill k.granted k.junk c.buffer p)
  after_receive k type s c (closed p rest) = destroyed s c []
  after_receive k type s c overflow = fault
  after_receive k type s c out_of_fuel = runs_on

  abbrev pub by_state :
      ℕ → Kernel S → DescriptorType → Statics → Connection → ConnectionStatus → Handled S
  by_state fuel k type s c waiting_request =
      if k.readable
      then after_receive k type s c (receive k.recv fuel no_pages k.socket)
      else kept s c [] k.socket
  by_state fuel k type s c writing_response =
      if k.writable then after_send s k.socket (send_loop k.results c []) else kept s c [] k.socket

  unfoldable pub handle_connection :
      ℕ → Kernel S → DescriptorType → Statics → Connection → Handled S
  handle_connection fuel k type s c = by_state fuel k type s c c.state
