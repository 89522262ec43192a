-- ===== src/Connection/Receive.antt =====
-- server.c: the loop of `handle_connection` that empties the socket into pages. A socket is what
-- `recv` will give: the chunks that arrive, and what it says behind the last one, again and again.
pub mod Drained
pub mod Follows
pub mod Paged
pub mod Step
mod Tests
use h_ss.Prelude.{
  ℕ, zero, suc, ◌+◌, ◌-◌, Bool, ◌&&◌, List, [], ◌∷◌, ◌++◌, if◌then◌else◌, ◌==◌, ltb, leb, Bytes,
  length, take, drop,
}

-- Behind the last chunk: no more for now, the end of the stream, or another error.
pub data Ending : Type 0 where
  would_block end_of_stream failed : Ending

pub record Socket : Type 0 where
  pub chunks : List Bytes
  pub ending : Ending

-- What `recv` returns: as many bytes, none of them at the end of the stream, or -1 with `errno`.
pub data Recv : Type 0 where
  received : Bytes → Recv
  again : Recv
  error : Recv

-- A chunk that does not fit is taken in parts.
abbrev pub recv_chunk : Bytes → List Bytes → Ending → ℕ → Recv × Socket
recv_chunk c cs ending room =
    if leb (length c) room
    then (received c, record { chunks = cs; ending = ending })
    else (received (take room c), record { chunks = drop room c ∷ cs; ending = ending })

abbrev pub at_end : Ending → Recv
at_end would_block = again
at_end end_of_stream = received []
at_end failed = error

abbrev pub recv_from : List Bytes → Ending → ℕ → Recv × Socket
recv_from [] ending room = (at_end ending, record { chunks = []; ending = ending })
recv_from (c ∷ cs) ending room = recv_chunk c cs ending room

unfoldable pub recv : Socket → ℕ → Recv × Socket
recv s room = recv_from s.chunks s.ending room

abbrev pub page_size : ℕ
page_size = 4096

abbrev pub page_count : ℕ
page_count = 128

-- `buffer_list` with its full pages and the bytes of the last one; `buffer_page` is the number of the
-- full ones, and `offset` the length of the last one.
pub record Pages : Type 0 where
  pub full : List Bytes
  pub page : Bytes
  pub total_size : ℕ

abbrev pub no_pages : Pages
no_pages = record { full = []; page = []; total_size = 0 }

-- What a round comes to, with what the connection's `recv` keeps: the loop goes on, it is left with the connection alive or destroyed, or it
-- writes past the end of `buffer_list`.
pub data Round (S : Type 0) : Type 0 where
  goes_on : Pages → S → Round S
  stops : Pages → S → Round S
  closes : Pages → S → Round S
  overflows : Round S

abbrev pub store_full : {S : Type 0} → Pages → Bytes → S → Round S
store_full p bytes rest =
    if length p.full + 1 == page_count
    then overflows
    else goes_on
        (record {
          full = p.full ++ ((p.page ++ bytes) ∷ []);
          page = [];
          total_size = p.total_size + length bytes;
        })
        rest

abbrev pub store : {S : Type 0} → Pages → Bytes → S → Round S
store p bytes rest =
    if ltb (length bytes) (page_size - length p.page)
    then goes_on (record p { page = p.page ++ bytes; total_size = p.total_size + length bytes })
        rest
    else store_full p bytes rest

abbrev pub take_round : {S : Type 0} → Pages → Recv × S → Round S
take_round p (again, rest) = stops p rest
take_round p (error, rest) = closes p rest
take_round p (received bytes, rest) =
    if length bytes == 0 && p.total_size == 0 then closes p rest else store p bytes rest

-- `get` is the `recv` of the connection, on what it keeps.
unfoldable pub receive_round : {S : Type 0} → (S → ℕ → Recv × S) → Pages → S → Round S
receive_round get p s = take_round p (get s (page_size - length p.page))

-- What the loop comes to; `out_of_fuel` when the model's fuel ends before the loop does.
pub data Received (S : Type 0) : Type 0 where
  stopped : Pages → S → Received S
  closed : Pages → S → Received S
  overflow : Received S
  out_of_fuel : Received S

unfoldable pub receive : {S : Type 0} → (S → ℕ → Recv × S) → ℕ → Pages → S → Received S
receive get zero p s = out_of_fuel
receive get (suc fuel) p s = elim (receive_round get p s) [
  | goes_on q rest ↦ receive get fuel q rest
  | stops q rest ↦ stopped q rest
  | closes q rest ↦ closed q rest
  | overflows ↦ overflow
]
