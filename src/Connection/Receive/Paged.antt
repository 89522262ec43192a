-- ===== src/Connection/Receive/Paged.antt =====
-- server.c: whatever a socket does, the pages stay in order.
use std.Path.{subst}
use h_ss.Prelude.{
  ℕ, zero, suc, ◌-◌, ◌≤◌, ◌≡◌, ap, inl, inr, arith, ◌&&◌, List, [], ◌∷◌, ◌==◌, leb, Bytes, length,
  Bool-cases,
}
use h_ss.Response.Valid.{length-take}
use h_ss.Connection.Receive.{
  Ending, would_block, end_of_stream, failed, Socket, Recv, received, again, error, recv, recv_from,
  page_size, Pages, Round, goes_on, stops, closes, overflows, take_round, receive_round, Received,
  stopped, closed, overflow, out_of_fuel, receive,
}
use h_ss.Connection.Receive.Step.{IsPaged, store_step}

abbrev pub Fits : {S : Type 0} → ℕ → Recv × S → Type 0
Fits room (received bytes, rest) = length bytes ≤ room
Fits room (again, rest) = Unit
Fits room (error, rest) = Unit

-- `recv` never returns more than it was asked for.
pub recv-Fits : (s : Socket) (room : ℕ) → Fits room (recv s room)
unfolding recv
recv-Fits s room = go s.chunks s.ending
  where
    go : (cs : List Bytes) (e : Ending) → Fits room (recv_from cs e room)
    go [] would_block = tt
    go [] end_of_stream = omega arith
    go [] failed = tt
    go (c ∷ cs) e = elim (Bool-cases (leb (length c) room)) [
      | inl fits ↦ rw fits (ground arith)
      | inr long ↦ rw long (ground (arith, length-take room c))
    ]

module _ {S : Type 0} where
  abbrev Keeps : Round S → Type 0
  Keeps (goes_on p s) = IsPaged p
  Keeps (stops p s) = IsPaged p
  Keeps (closes p s) = Unit
  Keeps overflows = Unit

  take_round-Keeps :
      (p : Pages) (x : Recv × S)
      → IsPaged p
      → Fits (page_size - length p.page) x
      → Keeps (take_round p x)
  take_round-Keeps p (again, rest) v fits = v
  take_round-Keeps p (error, rest) v fits = tt
  take_round-Keeps p (received bytes, rest) v fits =
      elim (Bool-cases (length bytes == 0 && p.total_size == 0)) [
        | inl none ↦ rw none tt
        | inr some_bytes ↦ elim (store_step p bytes rest v fits) [
          | inl (e, _) ↦ rw (some_bytes, e) tt
          | inr (q, e, w, _) ↦ rw (some_bytes, e) w
        ]
      ]

  abbrev pages_of : Pages → Received S → Pages
  pages_of other (stopped p rest) = p
  pages_of other (closed p rest) = other
  pages_of other overflow = other
  pages_of other out_of_fuel = other

module _ {S : Type 0} (get : S → ℕ → Recv × S) (fits : (s : S) (n : ℕ) → Fits n (get s n)) where
  receive_round-Keeps : (p : Pages) (s : S) → IsPaged p → Keeps (receive_round get p s)
  unfolding receive_round
  receive_round-Keeps p s v =
      take_round-Keeps p (get s (page_size - length p.page)) v (fits s (page_size - length p.page))

  by_round :
      (fuel : ℕ) (q : Pages) (rest : S)
      → ((r : Pages) (s : S) → IsPaged r → receive get fuel r s ≡ stopped q rest → IsPaged q)
      → (o : Round S) → Keeps o
      → (elim o as (λ _. Received S) [
        | goes_on r s ↦ receive get fuel r s
        | stops r s ↦ stopped r s
        | closes r s ↦ closed r s
        | overflows ↦ overflow
      ])
        ≡ stopped q rest
      → IsPaged q
  by_round fuel q rest next (goes_on r s) k h = next r s k h
  by_round fuel q rest next (stops r s) k h = subst IsPaged (ap (pages_of r) h) k
  by_round fuel q rest next (closes r s) k h = cc
  by_round fuel q rest next overflows k h = cc

  -- When the loop stops, its pages are in order.
  pub receive-IsPaged :
      (fuel : ℕ) (p q : Pages) (s rest : S)
      → IsPaged p
      → receive get fuel p s ≡ stopped q rest
      → IsPaged q
  unfolding receive
  receive-IsPaged zero p q s rest v e = cc
  receive-IsPaged (suc fuel) p q s rest v e =
      by_round fuel q rest (λ r s' k h. receive-IsPaged fuel r q s' rest k h)
        (receive_round get p s) (receive_round-Keeps p s v) e
