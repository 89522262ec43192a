-- ===== src/Connection/Send.antt =====
-- server.c: the sending loop of `handle_connection`. The results of `send` are a list, behind which it
-- says that there is no room for now. `send` never takes more than it is given.
pub mod Exact
pub mod Progress
use h_ss.Prelude.{
  ℕ, ◌+◌, ◌-◌, List, [], ◌∷◌, ◌++◌, if◌then◌else◌, ◌==◌, leb, Bytes, length, take, drop,
}
use h_ss.Descriptors.{Connection, waiting_request}
use h_ss.Connection.Fill.{block_at, add_size, sub_size}

-- A number of bytes, or -1 with `errno`.
pub data SendResult : Type 0 where
  accepts : ℕ → SendResult
  no_room : SendResult
  breaks : SendResult

-- What the loop comes to: the connection and the bytes that went out, in order.
pub data Sent : Type 0 where
  finished : Connection → Bytes → Sent
  paused : Connection → Bytes → Sent
  broken : Connection → Bytes → Sent

abbrev pub min : ℕ → ℕ → ℕ
min a b = if leb a b then a else b

abbrev pub to_be_write : Connection → ℕ
to_be_write c = sub_size c.buffer.end c.buffer.start

-- `size` of `to_be_write` bytes went out.
abbrev pub advance : Connection → ℕ → Connection
advance c size = record c { buffer = record c.buffer { start = add_size c.buffer.start size } }

abbrev pub going_out : Connection → ℕ → Bytes
going_out c size = take size (drop c.buffer.start (block_at c.buffer.buffer))

-- `out` is what went out before.
unfoldable pub send_loop : List SendResult → Connection → Bytes → Sent
send_loop [] c out = paused c out
send_loop (no_room ∷ results) c out = paused c out
send_loop (breaks ∷ results) c out = broken c out
send_loop (accepts n ∷ results) c out =
    let size = min n (to_be_write c) in
    let rest = send_loop results (advance c size) (out ++ going_out c size) in
    if size == to_be_write c
    then finished (record (advance c size) { state = waiting_request }) (out ++ going_out c size)
    else rest
