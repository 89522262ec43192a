-- ===== src/Connection/Fill.antt =====
-- server.c: the part of `handle_connection` that puts the pages behind the bytes that the buffer
-- still holds. Sizes have 64 bits and wrap around. `realloc` gives the memory or not, and new memory
-- holds some byte.
pub mod Copy
pub mod Kept
mod Tests
use h_ss.Prelude.{
  ℕ, zero, suc, ◌+◌, ◌-◌, ◌%◌, ◌^◌, Bool, List, [], ◌∷◌, ◌++◌, Option, none, some, if◌then◌else◌,
  ◌==◌, ltb, Bytes, length, take, drop, replicate,
}
use h_ss.Descriptors.{Buffer}
use h_ss.Connection.Receive.{Pages}

-- `size_t` addition and subtraction
abbrev pub add_size : ℕ → ℕ → ℕ
add_size a b = (a + b) % 2 ^ 64

abbrev pub sub_size : ℕ → ℕ → ℕ
sub_size a b = (a + 2 ^ 64 - b) % 2 ^ 64

abbrev pub block_at : Option Bytes → Bytes
block_at none = []
block_at (some b) = b

-- `memcpy` of `source` to the offset `n` of a block; `none` past its end.
unfoldable pub write_at : Bytes → ℕ → Bytes → Option Bytes
write_at block n source =
    if ltb (length block) (n + length source)
    then none
    else some (take n block ++ (source ++ drop (n + length source) block))

-- `memmove` of the unread part to the beginning.
unfoldable pub shift : Buffer → Buffer
shift b = if b.start == 0 then b else record b {
  buffer = some (
      take (b.end - b.start) (drop b.start (block_at b.buffer))
      ++ drop (b.end - b.start) (block_at b.buffer));
  start = 0;
  end = sub_size b.end b.start;
}

-- The block at its new size.
abbrev pub resize : ℕ → Bytes → ℕ → Bytes
resize junk block n = take n block ++ replicate (n - length block) junk

-- The loop over the full pages.
unfoldable pub copy_pages : Bytes → ℕ → List Bytes → Option (Bytes × ℕ)
copy_pages block end [] = some (block, end)
copy_pages block end (p ∷ ps) = elim (write_at block end p) [
  | none ↦ none
  | some written ↦ copy_pages written (add_size end (length p)) ps
]

unfoldable pub copy_last : Bytes → Bytes × ℕ → Option (Bytes × ℕ)
copy_last [] (block, end) = some (block, end)
copy_last (c ∷ cs) (block, end) = elim (write_at block end (c ∷ cs)) [
  | none ↦ none
  | some written ↦ some (written, add_size end (length (c ∷ cs)))
]

-- All pages and the last one.
unfoldable pub copy_all : Bytes → ℕ → Pages → Option (Bytes × ℕ)
copy_all block end p = elim (copy_pages block end p.full) [
  | none ↦ none
  | some done ↦ copy_last p.page done
]

-- The buffer, no memory, or a write past the end of the block.
pub data Filled : Type 0 where
  filled : Buffer → Filled
  no_memory : Filled
  overrun : Filled

abbrev pub extra_size : Buffer → Pages → ℕ
extra_size b p = sub_size p.total_size (sub_size b.capability b.end)

unfoldable pub fill : Bool → ℕ → Buffer → Pages → Filled
fill granted junk before p =
    let b = shift before in
    let capability = add_size b.capability (extra_size b p) in
    if granted
    then elim (copy_all (resize junk (block_at b.buffer) capability) b.end p) [
      | none ↦ overrun
      | some (block, end) ↦
          filled (record b { buffer = some block; capability = capability; end = end })
    ]
    else no_memory
