-- ===== src/Connection/Send/Exact.antt =====
-- server.c: a response goes out byte by byte, in order, over as many rounds as it takes.
use h_ss.Prelude.{
  ℕ, zero, suc, ◌+◌, ◌-◌, ◌≤◌, ◌≡◌, refl, sym, ap, ◌∙◌, inl, inr, arith, List, [], ◌∷◌, ◌++◌, ◌==◌,
  Bytes, take, drop, append_assoc, Bool-cases,
}
use h_ss.Descriptors.{ConnectionStatus, Connection, waiting_request}
use h_ss.Connection.Fill.{block_at, add_size}
use h_ss.Connection.Fill.Kept.{unread, IsBuffer}
use h_ss.Connection.Send.{
  SendResult, accepts, no_room, breaks, Sent, finished, paused, broken, min, to_be_write, advance,
  going_out, send_loop,
}

-- The bytes that went out and those that are left.
abbrev pub Accounts : ConnectionStatus → Bytes → Sent → Type 0
Accounts state whole (finished c out) =
    (out ≡ whole)
    × (c.state ≡ waiting_request)
    × IsBuffer c.buffer
    × (c.buffer.start ≡ c.buffer.end)
Accounts state whole (paused c out) =
    (out ++ unread c.buffer ≡ whole) × (c.state ≡ state) × IsBuffer c.buffer
Accounts state whole (broken c out) = (rest : Bytes) × (out ++ rest ≡ whole)

take-nil : (n : ℕ) → take {A = ℕ} n [] ≡ []
take-nil zero = refl
take-nil (suc n) = refl

drop-nil : (n : ℕ) → drop {A = ℕ} n [] ≡ []
drop-nil zero = refl
drop-nil (suc n) = refl

take-split : (m k : ℕ) (b : Bytes) → take m b ++ take k (drop m b) ≡ take (m + k) b
take-split zero k b = ap (λ n. take n b) (omega arith)
take-split (suc m) k [] = take-nil k ∙ sym (take-nil (suc m + k))
take-split (suc m) k (c ∷ b) =
    let next : suc (m + k) ≡ suc m + k = omega arith in
    ap (λ t. c ∷ t) (take-split m k b) ∙ ap (λ n. take n (c ∷ b)) next

drop-drop : (m k : ℕ) (b : Bytes) → drop k (drop m b) ≡ drop (m + k) b
drop-drop zero k b = ap (λ n. drop n b) (omega arith)
drop-drop (suc m) k [] = drop-nil k ∙ sym (drop-nil (suc m + k))
drop-drop (suc m) k (c ∷ b) =
    let next : suc (m + k) ≡ suc m + k = omega arith in
    drop-drop m k b ∙ ap (λ n. drop n (c ∷ b)) next

pub to_be_write_lem :
    (c : Connection) → IsBuffer c.buffer → to_be_write c ≡ c.buffer.end - c.buffer.start
to_be_write_lem c v = omega (arith, v.ordered, v.within, v.bounded)

pub advance_lem :
    (c : Connection) (size : ℕ)
    → IsBuffer c.buffer
    → size ≤ c.buffer.end - c.buffer.start
    → IsBuffer (advance c size).buffer
      × ((advance c size).buffer.start ≡ c.buffer.start + size)
      × (going_out c size ++ unread (advance c size).buffer ≡ unread c.buffer)
advance_lem c size v h =
    let moved : add_size c.buffer.start size ≡ c.buffer.start + size =
      omega (arith, v.ordered, v.within, v.bounded) in
    (
      record {
        sized = v.sized;
        ordered = omega (arith, v.ordered, v.within, moved);
        within = v.within;
        bounded = v.bounded;
      },
      moved,
      ap (λ n. going_out c size ++ take (c.buffer.end - n) (drop n (block_at c.buffer.buffer)))
            moved
          ∙ ap (λ t. going_out c size ++ take (c.buffer.end - (c.buffer.start + size)) t)
              (sym (drop-drop c.buffer.start size (block_at c.buffer.buffer)))
          ∙ take-split size (c.buffer.end - (c.buffer.start + size))
              (drop c.buffer.start (block_at c.buffer.buffer))
          ∙ ap (λ n. take n (drop c.buffer.start (block_at c.buffer.buffer))) (omega arith),
    )

-- From a buffer in order, whatever `send` returns, in whatever pieces: the bytes that went out and
-- those that the buffer still holds are the bytes that went out before and those that the buffer
-- held, in order; when the connection breaks, what went out is a beginning of them. Once they have
-- all gone out the connection waits for a request, and while some are left its state is what it was.
pub send_loop-Accounts :
    (results : List SendResult) (c : Connection) (out : Bytes)
    → IsBuffer c.buffer
    → Accounts c.state (out ++ unread c.buffer) (send_loop results c out)
unfolding send_loop
send_loop-Accounts [] c out v = (refl, refl, v)
send_loop-Accounts (no_room ∷ results) c out v = (refl, refl, v)
send_loop-Accounts (breaks ∷ results) c out v = (unread c.buffer, refl)
send_loop-Accounts (accepts n ∷ results) c out v =
    let whole = to_be_write_lem c v in
    let size = min n (to_be_write c) in
    let (valid, moved, split) = advance_lem c size v (ground (arith, whole)) in
    elim (Bool-cases (size == to_be_write c)) [
      | inl all ↦ rw all (
        ap (λ t. out ++ t) (ap (λ k. going_out c k) (ground (arith, whole))),
        refl,
        valid,
        ground (arith, moved, whole, v.ordered),
      )
      | inr some_left ↦ rw some_left (
          rw
            (append_assoc out (going_out c size) (unread (advance c size).buffer)
              ∙ ap (λ t. out ++ t) split)
            at (send_loop-Accounts results (advance c size) (out ++ going_out c size) valid))
    ]
