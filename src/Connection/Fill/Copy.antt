-- ===== src/Connection/Fill/Copy.antt =====
-- server.c: copying the pages behind the bytes that are there.
use native.Mathlib.Nat.{add-zero}
use h_ss.Prelude.{
  ℕ, ◌+◌, ◌^◌, ◌≤◌, ◌<◌, ◌≡◌, refl, sym, ap, ◌∙◌, arith, false, List, [], ◌∷◌, ◌++◌, some, ltb,
  Bytes, length, take, drop, take-append, take-all, length-append, append_assoc, append-nil,
  length-drop,
}
use h_ss.Response.Valid.{length-take}
use h_ss.Connection.Receive.{Pages}
use h_ss.Connection.Receive.Step.{flatten, bytes_of}
use h_ss.Connection.Fill.{add_size, write_at, copy_pages, copy_last, copy_all}

-- A write that fits keeps what is before it and the size.
write_at_lem :
    (block : Bytes) (n : ℕ) (s : Bytes)
    → n + length s ≤ length block
    → (out : Bytes) × (write_at block n s ≡ some out)
      × (length out ≡ length block)
      × (take (n + length s) out ≡ take n block ++ s)
unfolding write_at
write_at_lem block n s h =
    let fits : ltb (length block) (n + length s) ≡ false = ground arith in
    (
      take n block ++ (s ++ drop (n + length s) block),
      rw fits refl,
      omega (
        arith,
        length-append (take n block) (s ++ drop (n + length s) block),
        length-append s (drop (n + length s) block),
        length-drop (n + length s) block,
        length-take n block (omega arith),
      ),
      ap (λ t. take (n + length s) t)
            (sym (append_assoc (take n block) s (drop (n + length s) block)))
          ∙ take-append (n + length s) (take n block ++ s) (drop (n + length s) block)
              (omega (arith, length-append (take n block) s, length-take n block (omega arith)))
          ∙ take-all (n + length s) (take n block ++ s)
              (omega (arith, length-append (take n block) s, length-take n block (omega arith))),
    )

copy_pages_lem :
    (block : Bytes) (end : ℕ) (ps : List Bytes)
    → length block < 2 ^ 64
    → end + length (flatten ps) ≤ length block
    → (out : Bytes) × (copy_pages block end ps ≡ some (out, end + length (flatten ps)))
      × (length out ≡ length block)
      × (take (end + length (flatten ps)) out ≡ take end block ++ flatten ps)
unfolding copy_pages flatten
copy_pages_lem block end [] small h = (
  block,
  ap (λ n. some (block, n)) (sym (add-zero end)),
  refl,
  ap (λ n. take n block) (add-zero end) ∙ sym (append-nil (take end block)),
)
copy_pages_lem block end (p ∷ ps) small h =
    let sizes = length-append p (flatten ps) in
    let (mid, made, sized, kept) = write_at_lem block end p (omega (arith, sizes)) in
    let (out, rest, same, all) =
      copy_pages_lem mid (end + length p) ps (omega (arith, sized)) (omega (arith, sized, sizes)) in
    let whole : add_size end (length p) ≡ end + length p = omega (arith, sizes) in
    let total : end + length p + length (flatten ps) ≡ end + length (p ++ flatten ps) =
      omega (arith, sizes) in
    (
      out,
      rw (made, whole, copy_pages) (rest ∙ ap (λ n. some (out, n)) total),
      same ∙ sized,
      ap (λ n. take n out) (sym total)
          ∙ all
          ∙ ap (λ t. t ++ flatten ps) kept
          ∙ append_assoc (take end block) p (flatten ps),
    )

copy_last_lem :
    (block : Bytes) (end : ℕ) (s : Bytes)
    → length block < 2 ^ 64
    → end + length s ≤ length block
    → (out : Bytes) × (copy_last s (block, end) ≡ some (out, end + length s))
      × (length out ≡ length block)
      × (take (end + length s) out ≡ take end block ++ s)
unfolding copy_last
copy_last_lem block end [] small h = (
  block,
  ap (λ n. some (block, n)) (sym (add-zero end)),
  refl,
  ap (λ n. take n block) (add-zero end) ∙ sym (append-nil (take end block)),
)
copy_last_lem block end (c ∷ cs) small h =
    let (out, made, sized, kept) = write_at_lem block end (c ∷ cs) h in
    let whole : add_size end (length (c ∷ cs)) ≡ end + length (c ∷ cs) = omega arith in
    (out, rw (made, whole, copy_last) refl, sized, kept)

pub copy_all_lem :
    (block : Bytes) (end : ℕ) (p : Pages)
    → length block < 2 ^ 64
    → end + length (bytes_of p) ≤ length block
    → (out : Bytes) × (copy_all block end p ≡ some (out, end + length (bytes_of p)))
      × (length out ≡ length block)
      × (take (end + length (bytes_of p)) out ≡ take end block ++ bytes_of p)
unfolding copy_all
copy_all_lem block end p small h =
    let sizes = length-append (flatten p.full) p.page in
    let (mid, made, sized, kept) = copy_pages_lem block end p.full small (omega (arith, sizes)) in
    let (out, last, same, all) =
      copy_last_lem mid (end + length (flatten p.full)) p.page (omega (arith, sized))
        (omega (arith, sized, sizes)) in
    let total : end + length (flatten p.full) + length p.page ≡ end + length (bytes_of p) =
      omega (arith, sizes) in
    (
      out,
      rw (made, copy_all) (last ∙ ap (λ n. some (out, n)) total),
      same ∙ sized,
      ap (λ n. take n out) (sym total)
          ∙ all
          ∙ ap (λ t. t ++ p.page) kept
          ∙ append_assoc (take end block) (flatten p.full) p.page,
    )
