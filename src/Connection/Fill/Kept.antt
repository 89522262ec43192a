-- ===== src/Connection/Fill/Kept.antt =====
-- server.c: the buffer keeps what was not read and gets what was received.
use h_ss.Prelude.{
  ℕ, zero, suc, ◌+◌, ◌-◌, ◌^◌, ◌≤◌, ◌<◌, ◌≡◌, inl, inr, refl, sym, ap, ◌∙◌, arith, true, [], ◌∷◌,
  ◌++◌, some, ◌==◌, Bytes, length, take, drop, replicate, length-replicate, take-append, take-all,
  take-take, length-append, length-drop, Bool-cases,
}
use h_ss.Response.Valid.{length-take}
use h_ss.Descriptors.{Buffer}
use h_ss.Connection.Receive.{Pages}
use h_ss.Connection.Receive.Step.{bytes_of, IsPaged}
use h_ss.Connection.Fill.{add_size, block_at, shift, resize, copy_all, filled, extra_size, fill}
use h_ss.Connection.Fill.Copy.{copy_all_lem}

-- The bytes between `start` and `end`.
abbrev pub unread : Buffer → Bytes
unread b = take (b.end - b.start) (drop b.start (block_at b.buffer))

pub record IsBuffer (b : Buffer) : Type 0 where
  pub sized : length (block_at b.buffer) ≡ b.capability
  pub ordered : b.start ≤ b.end
  pub within : b.end ≤ b.capability
  pub bounded : b.capability < 2 ^ 64

shift_lem :
    (b : Buffer)
    → IsBuffer b
    → (length (block_at (shift b).buffer) ≡ b.capability)
      × ((shift b).capability ≡ b.capability)
      × ((shift b).start ≡ 0)
      × ((shift b).end ≡ b.end - b.start)
      × (take (b.end - b.start) (block_at (shift b).buffer) ≡ unread b)
unfolding shift
shift_lem b v = elim (Bool-cases (b.start == 0)) [
  | inl z ↦
      let at_front : b.start ≡ 0 = ground arith in
      rw z (
        v.sized,
        refl,
        at_front,
        omega (arith, at_front),
        ap (λ n. take (b.end - b.start) (drop n (block_at b.buffer))) (sym at_front),
      )
  | inr z ↦
      let block = block_at b.buffer in
      let left : length (unread b) ≡ b.end - b.start =
        length-take (b.end - b.start) (drop b.start block)
          (omega (arith, length-drop b.start block, v.sized, v.within, v.ordered)) in
      rw z (
        omega (
          arith,
          length-append (unread b) (drop (b.end - b.start) block),
          left,
          length-drop (b.end - b.start) block,
          v.sized,
          v.within,
        ),
        refl,
        refl,
        omega (arith, v.ordered, v.within, v.bounded),
        take-append (b.end - b.start) (unread b) (drop (b.end - b.start) block)
              (omega (arith, left))
            ∙ take-all (b.end - b.start) (unread b) (sym left),
      )
]

take_rest : (m : ℕ) (b : Bytes) → length (take m b) + (m - length b) ≡ m
take_rest zero b = omega arith
take_rest (suc m) [] = omega arith
take_rest (suc m) (c ∷ b) = omega (arith, take_rest m b)

-- A block at a size that holds the first bytes keeps them.
resize_lem :
    (junk n m : ℕ) (block : Bytes)
    → n ≤ length block
    → n ≤ m
    → (length (resize junk block m) ≡ m) × (take n (resize junk block m) ≡ take n block)
resize_lem junk n m block h k = (
  omega (
    arith,
    length-append (take m block) (replicate (m - length block) junk),
    take_rest m block,
    length-replicate (m - length block) junk,
  ),
  take-append n (take m block) (replicate (m - length block) junk)
        (omega (arith, take_rest m block))
      ∙ take-take n m block k,
)

fill_made :
    (junk : ℕ) (b : Buffer) (p : Pages) (n e : ℕ) (out : Bytes)
    → add_size (shift b).capability (extra_size (shift b) p) ≡ n
    → copy_all (resize junk (block_at (shift b).buffer) n) (shift b).end p ≡ some (out, e)
    → fill true junk b p ≡ filled (record (shift b) { buffer = some out; capability = n; end = e })
unfolding fill
fill_made junk b p n e out size made =
    rw (size, made, fill)
      (ap (λ k. filled (record (shift b) { buffer = some out; capability = k; end = e })) size)

-- The buffer is in order, memory is granted, and the bytes received end before 2^64: then the buffer
-- holds the bytes that were not read and the new ones behind them, from its beginning, in a block of
-- just their size, and is in order.
pub fill-IsBuffer :
    (junk : ℕ) (b : Buffer) (p : Pages)
    → IsBuffer b
    → IsPaged p
    → b.end + p.total_size < 2 ^ 64
    → (q : Buffer) × (fill true junk b p ≡ filled q)
      × IsBuffer q
      × (unread q ≡ unread b ++ bytes_of p)
      × (q.start ≡ 0)
      × (q.capability ≡ q.end)
      × ((block : Bytes) × (q.buffer ≡ some block))
fill-IsBuffer junk b p v w small =
    let (sized, cap, front, end, kept) = shift_lem b v in
    let s = shift b in
    let size : add_size s.capability (extra_size s p) ≡ s.end + p.total_size =
      omega (arith, cap, end, v.within, v.ordered, v.bounded) in
    let (long, first) =
      resize_lem junk s.end (s.end + p.total_size) (block_at s.buffer)
        (omega (arith, sized, end, v.within)) (omega arith) in
    let (out, made, same, all) =
      copy_all_lem (resize junk (block_at s.buffer) (s.end + p.total_size)) s.end p
        (omega (arith, long, end)) (omega (arith, long, w.measured)) in
    (
      record s {
        buffer = some out;
        capability = s.end + p.total_size;
        end = s.end + length (bytes_of p);
      },
      fill_made junk b p (s.end + p.total_size) (s.end + length (bytes_of p)) out size made,
      record {
        sized = same ∙ long;
        ordered = omega (arith, front);
        within = omega (arith, w.measured);
        bounded = omega (arith, end);
      },
      ap (λ n. take (s.end + length (bytes_of p) - n) (drop n out)) front
          ∙ ap (λ n. take n out) (omega arith)
          ∙ all
          ∙ ap (λ t. t ++ bytes_of p) (first ∙ ap (λ n. take n (block_at s.buffer)) end ∙ kept),
      front,
      omega (arith, w.measured),
      (out, refl),
    )
