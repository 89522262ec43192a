-- ===== src/Connection/Receive/Follows.antt =====
-- server.c: a connection whose `recv` presents a socket is emptied like that socket.
use std.Path.{subst}
use h_ss.Prelude.{
  ℕ, zero, suc, ◌+◌, ◌-◌, ◌≡◌, refl, ap, inl, inr, ◌&&◌, ◌==◌, ltb, Bytes, length, Bool-cases,
}
use h_ss.Connection.Receive.{
  Socket, Recv, received, again, error, recv, page_size, page_count, Pages, Round, goes_on, stops,
  closes, overflows, store, take_round, receive_round, Received, stopped, closed, overflow,
  out_of_fuel, receive,
}

module _ {S : Type 0} (R : S → Socket → Type 0) where
  -- The same result, and what is kept presents the socket again.
  abbrev pub Presents : Recv × S → Recv × Socket → Type 0
  Presents (a, s) (b, k) = (a ≡ b) × R s k

  abbrev Rounds : Round S → Round Socket → Type 0
  Rounds (goes_on p s) (goes_on q k) = (p ≡ q) × R s k
  Rounds (stops p s) (stops q k) = (p ≡ q) × R s k
  Rounds (closes p s) (closes q k) = (p ≡ q) × R s k
  Rounds overflows overflows = Unit
  Rounds _ _ = ⊥

  abbrev pub Ends : Received S → Received Socket → Type 0
  Ends (stopped p s) (stopped q k) = (p ≡ q) × R s k
  Ends (closed p s) (closed q k) = (p ≡ q) × R s k
  Ends overflow overflow = Unit
  Ends out_of_fuel out_of_fuel = Unit
  Ends _ _ = ⊥

  store-Rounds :
      (p : Pages) (bytes : Bytes) (s : S) (k : Socket)
      → R s k
      → Rounds (store p bytes s) (store p bytes k)
  store-Rounds p bytes s k r = elim (Bool-cases (ltb (length bytes) (page_size - length p.page))) [
    | inl short ↦ rw short (refl, r)
    | inr long ↦ elim (Bool-cases (length p.full + 1 == page_count)) [
      | inl last ↦ rw (long, last) tt
      | inr room ↦ rw (long, room) (refl, r)
    ]
  ]

  take_round-Rounds :
      (p : Pages) (a : Recv) (s : S) (k : Socket)
      → R s k
      → Rounds (take_round p (a, s)) (take_round p (a, k))
  take_round-Rounds p again s k r = (refl, r)
  take_round-Rounds p error s k r = (refl, r)
  take_round-Rounds p (received bytes) s k r =
      elim (Bool-cases (length bytes == 0 && p.total_size == 0)) [
        | inl none ↦ rw none (refl, r)
        | inr some_bytes ↦ rw some_bytes (store-Rounds p bytes s k r)
      ]

pub recv-Presents : (s k : Socket) (n : ℕ) → s ≡ k → Presents ◌≡◌ (recv s n) (recv k n)
recv-Presents s k n e = (ap (λ x. (recv x n).0) e, ap (λ x. (recv x n).1) e)

module _ {S : Type 0} (get : S → ℕ → Recv × S) (R : S → Socket → Type 0)
    (presents : (s : S) (k : Socket) (n : ℕ) → R s k → Presents R (get s n) (recv k n)) where
  receive_round-Rounds :
      (p : Pages) (s : S) (k : Socket)
      → R s k
      → Rounds R (receive_round get p s) (receive_round recv p k)
  unfolding receive_round
  receive_round-Rounds p s k r =
      let n = page_size - length p.page in
      let (same, next) = presents s k n r in
      subst (λ a. Rounds R (take_round p (get s n)) (take_round p (a, (recv k n).1))) same
        (take_round-Rounds R p (get s n).0 (get s n).1 (recv k n).1 next)

  by_round :
      (fuel : ℕ)
      → ((p : Pages) (s : S) (k : Socket)
          → R s k
          → Ends R (receive get fuel p s) (receive recv fuel p k))
      → (o : Round S) (u : Round Socket) → Rounds R o u
      → Ends R
          (elim o as (λ _. Received S) [
            | goes_on q rest ↦ receive get fuel q rest
            | stops q rest ↦ stopped q rest
            | closes q rest ↦ closed q rest
            | overflows ↦ overflow
          ])
          (elim u as (λ _. Received Socket) [
            | goes_on q rest ↦ receive recv fuel q rest
            | stops q rest ↦ stopped q rest
            | closes q rest ↦ closed q rest
            | overflows ↦ overflow
          ])
  by_round fuel next (goes_on p s) (goes_on q k) (e, r) =
      subst (λ x. Ends R (receive get fuel p s) (receive recv fuel x k)) e (next p s k r)
  by_round fuel next (stops p s) (stops q k) h = h
  by_round fuel next (closes p s) (closes q k) h = h
  by_round fuel next overflows overflows h = tt
  by_round fuel next (goes_on p s) (stops q k) h = absurd h
  by_round fuel next (goes_on p s) (closes q k) h = absurd h
  by_round fuel next (goes_on p s) overflows h = absurd h
  by_round fuel next (stops p s) (goes_on q k) h = absurd h
  by_round fuel next (stops p s) (closes q k) h = absurd h
  by_round fuel next (stops p s) overflows h = absurd h
  by_round fuel next (closes p s) (goes_on q k) h = absurd h
  by_round fuel next (closes p s) (stops q k) h = absurd h
  by_round fuel next (closes p s) overflows h = absurd h
  by_round fuel next overflows (goes_on q k) h = absurd h
  by_round fuel next overflows (stops q k) h = absurd h
  by_round fuel next overflows (closes q k) h = absurd h

  -- The loop comes to the same pages as the loop on the socket that is presented.
  pub receive-Ends :
      (fuel : ℕ) (p : Pages) (s : S) (k : Socket)
      → R s k
      → Ends R (receive get fuel p s) (receive recv fuel p k)
  unfolding receive
  receive-Ends zero p s k r = tt
  receive-Ends (suc fuel) p s k r =
      by_round fuel (receive-Ends fuel) (receive_round get p s) (receive_round recv p k)
        (receive_round-Rounds p s k r)

  pub receive-stopped :
      (fuel : ℕ) (p q : Pages) (s : S) (k l : Socket)
      → R s k
      → receive recv fuel p k ≡ stopped q l
      → (rest : S) × (receive get fuel p s ≡ stopped q rest) × R rest l
  receive-stopped fuel p q s k l r e =
      go (receive get fuel p s)
        (subst (Ends R (receive get fuel p s)) e (receive-Ends fuel p s k r))
    where
      go : (o : Received S) → Ends R o (stopped q l) → (rest : S) × (o ≡ stopped q rest) × R rest l
      go (stopped t rest) (h, r') = (rest, ap (λ x. stopped x rest) h, r')
      go (closed t rest) h = absurd h
      go overflow h = absurd h
      go out_of_fuel h = absurd h
