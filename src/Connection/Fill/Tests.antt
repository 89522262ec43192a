-- ===== src/Connection/Fill/Tests.antt =====
-- Buffers that are filled and sent at concrete inputs, and the theorems applied there.
use h_ss.Prelude.{◌≡◌, refl, arith, true, [], ◌∷◌, ◌++◌, some, Bytes, codes}
use h_ss.Descriptors.{Connection, Buffer, writing_response, waiting_request}
use h_ss.Connection.Receive.{Pages}
use h_ss.Connection.Receive.Step.{flatten, bytes_of, IsPaged}
use h_ss.Connection.Fill.{fill, filled}
use h_ss.Connection.Fill.Kept.{IsBuffer, unread, fill-IsBuffer}
use h_ss.Connection.Send.{accepts, no_room, finished, send_loop}
use h_ss.Connection.Send.Exact.{Accounts, send_loop-Accounts}
use h_ss.Connection.Send.Progress.{send_loop-finishes}
use h_ss.Samples.{fresh_connection}

abbrev half_read : Buffer
half_read = record { buffer = some (codes "abc"); capability = 3; start = 1; end = 3 }

half_read-IsBuffer : IsBuffer half_read
half_read-IsBuffer = record {
  sized = refl;
  ordered = omega arith;
  within = omega arith;
  bounded = omega arith;
}

abbrev two_bytes : Pages
two_bytes = record { full = []; page = codes "de"; total_size = 2 }

two_bytes-IsPaged : IsPaged two_bytes
unfolding flatten
two_bytes-IsPaged = record {
  whole = tt;
  partial = omega arith;
  counted = omega arith;
  measured = refl;
}

fill-IsBuffer_example :
    (q : Buffer) × (fill true 7 half_read two_bytes ≡ filled q)
    × IsBuffer q
    × (unread q ≡ unread half_read ++ bytes_of two_bytes)
    × (q.start ≡ 0)
    × (q.capability ≡ q.end)
    × ((block : Bytes) × (q.buffer ≡ some block))
fill-IsBuffer_example =
    fill-IsBuffer 7 half_read two_bytes half_read-IsBuffer two_bytes-IsPaged (omega arith)

abbrev writing : Connection
writing = record fresh_connection { state = writing_response; buffer = half_read }

send_loop-Accounts_example :
    Accounts writing_response
      (codes "-" ++ unread half_read)
      (send_loop (accepts 1 ∷ no_room ∷ []) writing (codes "-"))
send_loop-Accounts_example =
    send_loop-Accounts (accepts 1 ∷ no_room ∷ []) writing (codes "-") half_read-IsBuffer

send_loop-finishes_example :
    (d : Connection) × (sent : Bytes) × (send_loop (accepts 1 ∷ accepts 9 ∷ []) writing []
      ≡ finished d sent)
    × (sent ≡ [] ++ unread half_read)
    × (d.state ≡ waiting_request)
send_loop-finishes_example =
    send_loop-finishes (accepts 1 ∷ accepts 9 ∷ []) writing [] half_read-IsBuffer
      (omega arith, (omega arith, tt)) (omega arith) (omega arith)
