-- ===== src/Range.antt =====
-- http_hl.c, http_hl.h: the parser of the Range header. A string is the list of its bytes, whose end
-- is the NUL. `none` as a result is undefined behaviour: a read past the NUL, or a signed overflow.
-- Assertions are those of a build with NDEBUG, which has none.
pub mod Header
pub mod Single
pub mod Specifier
mod Tests
use h_ss.Prelude.{
  ℕ, zero, suc, ◌+◌, ◌-◌, ◌%◌, ◌^◌, Bool, true, false, ◌&&◌, List, [], ◌∷◌, Option, none, some,
  if◌then◌else◌, ◌==◌, ltb, leb, Bytes, codes, c_str, isspace, isdigit,
}
use h_ss.Decimal.{value_from}

-- `end` is exclusive, and 0 and 0 stand for a full range.
pub record Range : Type 0 where
  pub start : ℕ
  pub end : ℕ

abbrev pub full_range : Range
full_range = record { start = 0; end = 0 }

unfoldable pub skip_spaces : Bytes → Bytes
skip_spaces [] = []
skip_spaces (c ∷ cs) = let rest = skip_spaces cs in if isspace c then rest else c ∷ cs

-- The digits in front, and what follows them.
unfoldable pub span_digits : Bytes → Bytes × Bytes
span_digits [] = ([], [])
span_digits (c ∷ cs) =
    let (digits, rest) = span_digits cs in if isdigit c then (c ∷ digits, rest) else ([], c ∷ cs)

abbrev pub min : ℕ → ℕ → ℕ
min a b = if leb a b then a else b

-- The number in front and what follows it, as `strtoll` reads them behind blanks and sign. Without
-- a digit the end is that of the whole string.
abbrev pub convert : Bytes → Bool → Bytes × Bytes → ℕ × Bytes
convert whole sign ([], rest) = (0, whole)
convert whole false (d ∷ ds, rest) = (min (value_from 0 (d ∷ ds)) (2 ^ 63 - 1), rest)
convert whole true (d ∷ ds, rest) = ((2 ^ 64 - min (value_from 0 (d ∷ ds)) (2 ^ 63)) % 2 ^ 64, rest)

abbrev pub signed : Bytes → Bytes → ℕ × Bytes
signed whole [] = (0, whole)
signed whole (c ∷ cs) =
    if c == b'-'
    then convert whole true (span_digits cs)
    else if c == b'+'
    then convert whole false (span_digits cs)
    else convert whole false (span_digits (c ∷ cs))

-- `strtoll` to the base 10, its result as the 64 bits of a `long long`, and `*endptr`.
unfoldable pub strtoll : Bytes → ℕ × Bytes
strtoll s = signed s (skip_spaces s)

abbrev pub normalize : Range → Range
normalize r = if leb r.end r.start then full_range else r

-- Behind `first-pos`, at `mid`: `mid[1]` tells whether `last-pos` follows. `strtoll(...) + 1` is
-- an overflow at the largest `long long`.
unfoldable pub int_range : ℕ × Bytes → ℕ → Option Range
int_range (start, []) size = none
int_range (start, c ∷ []) size = some (normalize (record { start = start; end = size }))
int_range (start, c ∷ d ∷ ds) size =
    let last = (strtoll (d ∷ ds)).0 in
    if isdigit d
    then (if last == 2 ^ 63 - 1
        then none
        else some (normalize (record { start = start; end = (last + 1) % 2 ^ 64 })))
    else some (normalize (record { start = start; end = size }))

abbrev pub suffix_range : ℕ → ℕ → Range
suffix_range n size = normalize (record { start = (size + 2 ^ 64 - n) % 2 ^ 64; end = size })

unfoldable pub parse_single_range : Bytes → ℕ → Option Range
parse_single_range [] size = int_range (strtoll []) size
parse_single_range (c ∷ cs) size =
    if c == b'-' then some (suffix_range (strtoll cs).0 size) else int_range (strtoll (c ∷ cs)) size

-- The sign of `compare_range`, as whether the first range is not behind the second.
unfoldable pub in_order : Range → Range → Bool
in_order l r =
    if l.start == r.start
    then (if l.end == r.end then true else ltb l.end r.end)
    else ltb l.start r.start

-- `qsort` by `compare_range`, which calls two ranges equal only when they are the same.
unfoldable pub insert : Range → List Range → List Range
insert r [] = r ∷ []
insert r (x ∷ xs) = let rest = insert r xs in if in_order r x then r ∷ x ∷ xs else x ∷ rest

unfoldable pub qsort : List Range → List Range
qsort [] = []
qsort (r ∷ rs) = insert r (qsort rs)

unfoldable pub count_ranges : Bytes → ℕ
count_ranges [] = 1
count_ranges (c ∷ cs) = let rest = count_ranges cs in if c == b',' then suc rest else rest

-- The `do` loop: past the next comma, or past the NUL, which is `none`.
unfoldable pub next_specifier : Bytes → Option Bytes
next_specifier [] = none
next_specifier (c ∷ cs) = let rest = next_specifier cs in if c == b',' then some cs else rest

unfoldable pub parse_ranges : ℕ → Option Bytes → ℕ → Option (List Range)
parse_ranges zero representation size = some []
parse_ranges (suc n) none size = none
parse_ranges (suc n) (some representation) size =
    let specifier = skip_spaces representation in
    elim (parse_single_range specifier size) [
      | none ↦ none
      | some r ↦ elim (parse_ranges n (next_specifier specifier) size) [
        | none ↦ none
        | some rs ↦ some (r ∷ rs)
      ]
    ]

abbrev pub is_full : Range → Bool
is_full r = r.start == 0 && r.end == 0

abbrev pub overlaps : Option Range → Range → Bool
overlaps none r = false
overlaps (some before) r = ltb r.start before.end

unfoldable pub join : Range → Range → Range
join partial r =
    if r.end == partial.start
    then record partial { start = r.start }
    else if r.start == partial.end
    then record partial { end = r.end }
    else partial

-- The loop over the sorted ranges, from the range before and the partial result.
unfoldable pub merge : Option Range → Range → List Range → Range
merge before partial [] = partial
merge before partial (r ∷ rs) =
    let rest = merge (some r) (join partial r) rs in
    if is_full r then full_range else if overlaps before r then full_range else rest

abbrev pub select : List Range → Range
select [] = full_range
select (first ∷ rs) = merge none first (qsort (first ∷ rs))

-- `strncmp` with a prefix, and what stands behind it.
unfoldable pub strip_prefix : Bytes → Bytes → Option Bytes
strip_prefix [] s = some s
strip_prefix (p ∷ ps) [] = none
strip_prefix (p ∷ ps) (c ∷ cs) = let rest = strip_prefix ps cs in if p == c then rest else none

abbrev pub behind_unit : Bytes → Option Bytes
behind_unit s = strip_prefix (codes "bytes=") s

unfoldable pub parse_range : Option Bytes → ℕ → Option Range
parse_range none size = some full_range
parse_range (some block) size = elim (behind_unit (skip_spaces (c_str block))) [
  | none ↦ some full_range
  | some representation ↦
      elim (parse_ranges (count_ranges representation) (some representation) size) [
        | none ↦ none
        | some ranges ↦ some (select ranges)
      ]
]
