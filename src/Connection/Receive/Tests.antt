-- ===== src/Connection/Receive/Tests.antt =====
-- Sockets that are emptied at concrete inputs, and the theorems applied there.
use h_ss.Prelude.{
  ◌<◌, ℕ, ◌≡◌, arith, [], ◌∷◌, ◌++◌, Bytes, codes, length, replicate, length-replicate,
  length-append, ap,
}
use h_ss.Connection.Receive.{
  Pages, no_pages, would_block, end_of_stream, recv, receive, stopped, out_of_fuel, overflow,
}
use h_ss.Connection.Receive.Step.{flatten, bytes_of, IsPaged, NotEmpty}
use h_ss.Connection.Receive.Drained.{socket, receive_drains, receive_spins, receive_overflows}
use h_ss.Connection.Answered.{no_pages-IsPaged}

receive_drains_example :
    (q : Pages) × (receive recv 20 no_pages (socket (codes "hel" ∷ codes "lo" ∷ []) would_block)
      ≡ stopped q (socket [] would_block))
    × IsPaged q
    × (bytes_of q ≡ bytes_of no_pages ++ flatten (codes "hel" ∷ codes "lo" ∷ []))
unfolding flatten
receive_drains_example =
    receive_drains 20 no_pages (codes "hel" ∷ codes "lo" ∷ []) no_pages-IsPaged
      ((λ e. cc), ((λ e. cc), tt)) (omega arith) (omega arith)

receive_spins_example :
    receive recv 1000000 no_pages (socket (codes "hel" ∷ codes "lo" ∷ []) end_of_stream)
    ≡ out_of_fuel
unfolding flatten
receive_spins_example =
    receive_spins 1000000 no_pages (codes "hel" ∷ codes "lo" ∷ []) no_pages-IsPaged
      ((λ e. cc), ((λ e. cc), tt)) (omega arith) (omega arith)

x_times : ℕ → Bytes
x_times n = replicate n b'x'

length-x_times : (n : ℕ) → length (flatten (x_times n ∷ [])) ≡ n
unfolding flatten x_times
length-x_times n = omega (arith, length-append (x_times n) [], length-replicate {A = ℕ} n b'x')

x_times-NotEmpty : (n : ℕ) → 0 < n → NotEmpty (x_times n)
unfolding x_times
x_times-NotEmpty n h e = omega (arith, h, ap length e, length-replicate {A = ℕ} n b'x')

receive_overflows_example :
    receive recv 524289 no_pages (socket (x_times 524288 ∷ []) end_of_stream) ≡ overflow
receive_overflows_example =
    receive_overflows 524289 no_pages (x_times 524288 ∷ []) end_of_stream no_pages-IsPaged
      (x_times-NotEmpty 524288 (omega arith), tt) (omega (arith, length-x_times 524288))
      (omega (arith, length-x_times 524288))
