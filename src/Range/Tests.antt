-- ===== src/Range/Tests.antt =====
-- The Range header at concrete inputs, and the theorems applied there.
use h_ss.Prelude.{◌≡◌, refl, arith, [], ◌∷◌, ◌++◌, some, codes, c_str, isspace, isdigit}
use h_ss.Decimal.{decimal, value_from}
use h_ss.Range.Header.{parse_range-first_last}
use h_ss.Range.{
  skip_spaces, span_digits, strtoll, int_range, parse_single_range, in_order, insert, qsort,
  count_ranges, next_specifier, parse_ranges, join, merge, strip_prefix, parse_range,
}

unadjacent :
    parse_range (some (codes "bytes=10-19,0-4,5-9")) 100 ≡ some (record { start = 5; end = 20 })
unfolding c_str isspace isdigit value_from skip_spaces span_digits strtoll int_range
    parse_single_range in_order insert qsort count_ranges next_specifier parse_ranges join merge
    strip_prefix parse_range
unadjacent = refl

parse_block : parse_range (some (codes " bytes=0-4,5-")) 9 ≡ some (record { start = 0; end = 9 })
unfolding c_str isspace isdigit value_from skip_spaces span_digits strtoll int_range
    parse_single_range in_order insert qsort count_ranges next_specifier parse_ranges join merge
    strip_prefix parse_range
parse_block = refl

parse_specifiers :
    parse_ranges (count_ranges (codes "0-4,5-")) (some (codes "0-4,5-")) 9
    ≡ some (record { start = 0; end = 5 } ∷ record { start = 5; end = 9 } ∷ [])
unfolding isspace isdigit value_from skip_spaces span_digits strtoll int_range parse_single_range
    count_ranges next_specifier parse_ranges
parse_specifiers = refl

parse_range-first_last_example :
    parse_range (some (codes "bytes=" ++ (decimal 10 ++ (b'-' ∷ decimal 1000000)))) 100
    ≡ some (record { start = 10; end = 1000001 })
parse_range-first_last_example = parse_range-first_last 10 1000000 100 (omega arith) (omega arith)
