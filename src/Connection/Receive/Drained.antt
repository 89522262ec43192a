-- ===== src/Connection/Receive/Drained.antt =====
-- server.c: what the receiving loop does with a socket.
use native.Mathlib.Nat.{add-zero}
use h_ss.Prelude.{
  true, false, ℕ, zero, suc, ◌+◌, ◌-◌, ◌*◌, ◌≤◌, ◌<◌, ◌≡◌, inl, inr, refl, sym, ◌∙◌, arith, List,
  [], ◌∷◌, ◌++◌, ◌==◌, ltb, Bytes, length, length-append, append-nil, All,
}
use h_ss.Connection.Receive.{
  Ending, would_block, end_of_stream, Socket, recv, page_size, page_count, Pages, goes_on,
  receive_round, stopped, overflow, out_of_fuel, receive,
}
use h_ss.Connection.Receive.Step.{flatten, bytes_of, NotEmpty, IsPaged, length-flatten, round_lem}

abbrev pub socket : List Bytes → Ending → Socket
socket chunks ending = record { chunks = chunks; ending = ending }

pub paged_short : (p : Pages) → IsPaged p → length (bytes_of p) < page_size * page_count
paged_short p v = omega (
  arith,
  v.partial,
  v.counted,
  length-append (flatten p.full) p.page,
  length-flatten p.full v.whole,
)

-- `recv` that returns 0 after some bytes changes nothing.
round_nothing :
    (p : Pages)
    → IsPaged p
    → 0 < p.total_size
    → receive_round recv p (socket [] end_of_stream) ≡ goes_on p (socket [] end_of_stream)
unfolding receive_round recv
round_nothing p v more =
    let bytes_before : (p.total_size == 0) ≡ false = ground arith in
    let room : ltb 0 (page_size - length p.page) ≡ true = ground (arith, v.partial) in
    rw (bytes_before, room, append-nil p.page, add-zero p.total_size) refl

-- From pages that are in order, and with fewer bytes in all than 128 pages hold, the loop takes
-- every byte off the socket, in order, and stops when the socket says that there is no more for now.
-- It makes no more rounds than there are bytes, and one.
pub receive_drains :
    (fuel : ℕ) (p : Pages) (chunks : List Bytes)
    → IsPaged p
    → All NotEmpty chunks
    → length (bytes_of p) + length (flatten chunks) < page_size * page_count
    → length (flatten chunks) < fuel
    → (q : Pages) × (receive recv fuel p (socket chunks would_block)
        ≡ stopped q (socket [] would_block))
      × IsPaged q
      × (bytes_of q ≡ bytes_of p ++ flatten chunks)
unfolding receive
receive_drains zero p chunks v h l f = absurd (omega arith)
receive_drains (suc fuel) p [] v h l f =
    (p, unfold receive_round recv in refl, v, unfold flatten in sym (append-nil (bytes_of p)))
receive_drains (suc fuel) p (c ∷ chunks) v h l f = elim (round_lem p c chunks would_block v h) [
  | inl (e, bound) ↦ absurd (omega (arith, bound, l))
  | inr (q, left, e, w, kept, same, sizes, fewer, some_bytes) ↦
      let (r, ends, x, all) =
        receive_drains fuel q left w kept (omega (arith, sizes)) (omega (arith, fewer)) in
      (r, rw (e, receive) ends, x, all ∙ same)
]

-- From pages that are in order, with fewer bytes in all than 128 pages hold, and at least one: when
-- the stream ends behind the chunks, the loop never ends, since `recv` goes on returning 0.
pub receive_spins :
    (fuel : ℕ) (p : Pages) (chunks : List Bytes)
    → IsPaged p
    → All NotEmpty chunks
    → length (bytes_of p) + length (flatten chunks) < page_size * page_count
    → 0 < p.total_size + length (flatten chunks)
    → receive recv fuel p (socket chunks end_of_stream) ≡ out_of_fuel
unfolding receive
receive_spins zero p chunks v h l some_bytes = refl
receive_spins (suc fuel) p [] v h l some_bytes =
    rw (round_nothing p v (unfold flatten in omega (arith, some_bytes)), receive)
      (receive_spins fuel p [] v h l some_bytes)
receive_spins (suc fuel) p (c ∷ chunks) v h l some_bytes =
    elim (round_lem p c chunks end_of_stream v h) [
      | inl (e, bound) ↦ absurd (omega (arith, bound, l))
      | inr (q, left, e, w, kept, same, sizes, fewer, more) ↦
          rw (e, receive)
            (receive_spins fuel q left w kept (omega (arith, sizes)) (omega (arith, more)))
    ]

-- From pages that are in order, with at least as many bytes in all as 128 pages hold: the loop writes
-- past the end of the array of pages, whatever the socket says behind the chunks. The fuel is more
-- than the bytes that arrive.
pub receive_overflows :
    (fuel : ℕ) (p : Pages) (chunks : List Bytes) (ending : Ending)
    → IsPaged p
    → All NotEmpty chunks
    → page_size * page_count ≤ length (bytes_of p) + length (flatten chunks)
    → length (flatten chunks) < fuel
    → receive recv fuel p (socket chunks ending) ≡ overflow
unfolding receive
receive_overflows zero p chunks ending v h l f = absurd (omega arith)
receive_overflows (suc fuel) p [] ending v h l f =
    absurd (unfold flatten in omega (arith, l, paged_short p v))
receive_overflows (suc fuel) p (c ∷ chunks) ending v h l f =
    elim (round_lem p c chunks ending v h) [
      | inl (e, bound) ↦ rw (e, receive) refl
      | inr (q, left, e, w, kept, same, sizes, fewer, more) ↦
          rw (e, receive)
            (receive_overflows fuel q left ending w kept (omega (arith, sizes))
              (omega (arith, fewer)))
    ]
