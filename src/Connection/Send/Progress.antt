-- ===== src/Connection/Send/Progress.antt =====
-- server.c: sending comes to an end.
use std.Path.{subst}
use h_ss.Prelude.{
  ◌-◌, ◌≤◌, ◌<◌, ◌≡◌, refl, inl, inr, arith, List, [], ◌∷◌, ◌++◌, ◌==◌, Bytes, length, All,
  Bool-cases,
}
use h_ss.Descriptors.{Connection, ConnectionStatus, waiting_request}
use h_ss.Connection.Fill.Kept.{unread, IsBuffer}
use h_ss.Connection.Send.{
  SendResult, Sent, accepts, no_room, breaks, finished, min, to_be_write, advance, going_out,
  send_loop,
}
use h_ss.Connection.Send.Exact.{Accounts, send_loop-Accounts, advance_lem, to_be_write_lem}

-- `send` takes some bytes.
abbrev pub TakesSome : SendResult → Type 0
TakesSome (accepts n) = 0 < n
TakesSome no_room = ⊥
TakesSome breaks = ⊥

send_loop_ends :
    (results : List SendResult) (c : Connection) (out : Bytes)
    → IsBuffer c.buffer
    → All TakesSome results
    → c.buffer.end - c.buffer.start ≤ length results
    → 0 < length results
    → (d : Connection) × (sent : Bytes) × (send_loop results c out ≡ finished d sent)
unfolding send_loop
send_loop_ends [] c out v h enough some_left = absurd (omega arith)
send_loop_ends (no_room ∷ results) c out v h enough some_left = absurd h.0
send_loop_ends (breaks ∷ results) c out v h enough some_left = absurd h.0
send_loop_ends (accepts n ∷ results) c out v h enough some_left =
    let whole = to_be_write_lem c v in
    let size = min n (to_be_write c) in
    let (valid, moved, split) = advance_lem c size v (ground (arith, whole)) in
    elim (Bool-cases (size == to_be_write c)) [
      | inl all ↦ (
        record (advance c size) { state = waiting_request },
        out ++ going_out c size,
        rw all refl,
      )
      | inr more ↦
          let positive : 0 < n = h.0 in
          let less : (size < c.buffer.end - c.buffer.start) × (0 < size) =
            (ground (arith, whole, more), ground (arith, whole, more, positive)) in
          let (d, sent, made) =
            send_loop_ends results (advance c size) (out ++ going_out c size) valid h.1
              (omega (arith, moved, less.0, less.1)) (omega (arith, less.0, less.1)) in
          (d, sent, rw more made)
    ]

finished_lem :
    (state : ConnectionStatus) (whole : Bytes) (o : Sent) (d : Connection) (sent : Bytes)
    → o ≡ finished d sent
    → Accounts state whole o
    → (sent ≡ whole) × (d.state ≡ waiting_request)
finished_lem state whole o d sent e a = let b = subst (Accounts state whole) e a in (b.0, b.1)

-- From a buffer in order, when `send` takes at least one byte whenever it is called, and may be called
-- as often as there are bytes, and at least once: the loop ends with every byte of the buffer sent,
-- behind those sent before, and the connection waiting for a request.
pub send_loop-finishes :
    (results : List SendResult) (c : Connection) (out : Bytes)
    → IsBuffer c.buffer
    → All TakesSome results
    → c.buffer.end - c.buffer.start ≤ length results
    → 0 < length results
    → (d : Connection) × (sent : Bytes) × (send_loop results c out ≡ finished d sent)
      × (sent ≡ out ++ unread c.buffer)
      × (d.state ≡ waiting_request)
send_loop-finishes results c out v h enough some_left =
    let (d, sent, made) = send_loop_ends results c out v h enough some_left in
    let (all, waits) =
      finished_lem c.state (out ++ unread c.buffer) (send_loop results c out) d sent made
        (send_loop-Accounts results c out v) in
    (d, sent, made, all, waits)
