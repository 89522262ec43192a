-- ===== src/Range/Header.antt =====
-- http_hl.c: a Range header with one specifier.
use h_ss.Prelude.{
  List, Option, ℕ, ◌+◌, ◌-◌, ◌^◌, ◌≤◌, ◌<◌, ◌≡◌, refl, sym, ap, ◌∙◌, arith, true, false, [], ◌∷◌,
  ◌++◌, none, some, ◌==◌, Bytes, codes, c_str, c_str-NoNul, NoNul, isspace, isdigit, All,
  append-nil,
}
use h_ss.Decimal.{decimal, decimal-NoNul}
use h_ss.Range.{
  is_full, Range, skip_spaces, parse_single_range, qsort, insert, count_ranges, parse_ranges, join,
  merge, select, strip_prefix, parse_range,
}
use h_ss.Range.Single.{
  IsDigit, begins_with_digit, decimal-IsDigit, decimal-begins, skip_spaces-digit, single-first_last,
}

NoNul-digits : (s rest : Bytes) → All IsDigit s → NoNul rest → NoNul (s ++ rest)
NoNul-digits [] rest h k = k
NoNul-digits (c ∷ s) rest h k =
    (unfold isdigit in λ e. ground (arith, h.0), NoNul-digits s rest h.1 k)

count_ranges-digits :
    (s rest : Bytes) → All IsDigit s → count_ranges (s ++ rest) ≡ count_ranges rest
unfolding count_ranges
count_ranges-digits [] rest h = refl
count_ranges-digits (c ∷ s) rest h =
    let no_comma : (c == b',') ≡ false = unfold isdigit in ground (arith, h.0) in
    rw no_comma (count_ranges-digits s rest h.1)

skip_spaces-begins : (s : Bytes) → begins_with_digit s ≡ true → skip_spaces s ≡ s
skip_spaces-begins [] h = ground arith
skip_spaces-begins (c ∷ cs) h = skip_spaces-digit c cs h

select-one :
    (a b : ℕ) → a < b → select (record { start = a; end = b } ∷ []) ≡ record { start = a; end = b }
unfolding qsort insert merge join
select-one a b h =
    let proper : is_full (record { start = a; end = b }) ≡ false = ground arith in
    let apart : (b == a) ≡ false = ground arith in
    let apart_too : (a == b) ≡ false = ground arith in rw (proper, apart, apart_too) refl

parse_ranges-one :
    (s : Bytes) (size : ℕ) (r : Range)
    → count_ranges s ≡ 1
    → parse_single_range (skip_spaces s) size ≡ some r
    → parse_ranges (count_ranges s) (some s) size ≡ some (r ∷ [])
unfolding parse_ranges
parse_ranges-one s size r h k = rw (h, k, parse_ranges) refl

parse_range-one :
    (s : Bytes) (size a b : ℕ)
    → NoNul s
    → count_ranges s ≡ 1
    → parse_single_range (skip_spaces s) size ≡ some (record { start = a; end = b })
    → a < b
    → parse_range (some (codes "bytes=" ++ s)) size ≡ some (record { start = a; end = b })
unfolding parse_range strip_prefix skip_spaces c_str isspace
parse_range-one s size a b n h k l =
    ap (λ t. result (parse_ranges (count_ranges t) (some t) size)) (c_str-NoNul s n)
    ∙ ap result (parse_ranges-one s size (record { start = a; end = b }) h k)
    ∙ ap some (select-one a b l)
  where
    result : Option (List Range) → Option Range
    result o = elim o [ none ↦ none | some ranges ↦ some (select ranges) ]

count_tail : (b : ℕ) → count_ranges (b'-' ∷ decimal b) ≡ 1
unfolding count_ranges
count_tail b =
    ap count_ranges (sym (append-nil (decimal b)))
    ∙ count_ranges-digits (decimal b) [] (decimal-IsDigit b)

-- The header `bytes=a-b` with decimal numbers, a at most b and b below 2^63 - 1, is parsed to the
-- bytes a to b whatever the size of the file is.
pub parse_range-first_last :
    (a b size : ℕ)
    → a ≤ b
    → b < 2 ^ 63 - 1
    → parse_range (some (codes "bytes=" ++ (decimal a ++ (b'-' ∷ decimal b)))) size
      ≡ some (record { start = a; end = b + 1 })
parse_range-first_last a b size h k =
    parse_range-one (decimal a ++ (b'-' ∷ decimal b)) size a (b + 1)
      (NoNul-digits (decimal a) (b'-' ∷ decimal b) (decimal-IsDigit a)
        (λ e. ground arith, decimal-NoNul b))
      (count_ranges-digits (decimal a) (b'-' ∷ decimal b) (decimal-IsDigit a) ∙ count_tail b)
      (ap (λ s. parse_single_range s size)
          (skip_spaces-begins (decimal a ++ (b'-' ∷ decimal b))
            (decimal-begins a (b'-' ∷ decimal b) (omega arith)))
        ∙ ap (λ s. parse_single_range (decimal a ++ (b'-' ∷ s)) size) (sym (append-nil (decimal b)))
        ∙ single-first_last a b size [] h k refl)
      (omega arith)
