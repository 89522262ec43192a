-- ===== src/Range/Single.antt =====
-- http_hl.c: the range that a specifier written with decimal numbers stands for.
use h_ss.Prelude.{
  ℕ, zero, suc, ◌+◌, ◌-◌, ◌%◌, ◌/◌, ◌^◌, ◌≤◌, ◌<◌, ◌≡◌, ◌≢◌, inl, inr, refl, sym, ap, ◌∙◌, arith,
  Bool, true, false, [], ◌∷◌, ◌++◌, some, if◌then◌else◌, ◌==◌, ltb, leb, Bytes, isspace, isdigit,
  All, Bool-cases,
}
use h_ss.Decimal.{decimal, digits, value_from, value-decimal}
use h_ss.Range.{
  suffix_range, full_range, skip_spaces, span_digits, min, strtoll, int_range, parse_single_range,
}

abbrev pub IsDigit : ℕ → Type 0
IsDigit c = isdigit c ≡ true

abbrev pub begins_with_digit : Bytes → Bool
begins_with_digit [] = false
begins_with_digit (c ∷ cs) = isdigit c

digits-IsDigit : (rounds n : ℕ) (out : Bytes) → All IsDigit out → All IsDigit (digits rounds n out)
unfolding digits
digits-IsDigit zero n out h = h
digits-IsDigit (suc rounds) n out h = elim (Bool-cases (n == 0)) [
  | inl e ↦ rw e h
  | inr e ↦
      rw e
        (digits-IsDigit rounds (n / 10) ((b'0' + n % 10) ∷ out) (unfold isdigit in ground arith, h))
]

pub decimal-IsDigit : (n : ℕ) → All IsDigit (decimal n)
unfolding decimal
decimal-IsDigit n = elim (Bool-cases (n == 0)) [
  | inl e ↦ rw e (unfold isdigit in (refl, tt))
  | inr e ↦ rw e (digits-IsDigit 20 n [] tt)
]

span_digits-append :
    (s rest : Bytes)
    → All IsDigit s
    → begins_with_digit rest ≡ false
    → span_digits (s ++ rest) ≡ (s, rest)
unfolding span_digits
span_digits-append [] [] h k = refl
span_digits-append [] (c ∷ rest) h k = rw k refl
span_digits-append (c ∷ s) rest h k = rw (h.0, span_digits-append s rest h.1 k) refl

pub skip_spaces-digit : (c : ℕ) (cs : Bytes) → isdigit c ≡ true → skip_spaces (c ∷ cs) ≡ (c ∷ cs)
unfolding skip_spaces isspace isdigit
skip_spaces-digit c cs h = ground arith

strtoll-digits :
    (c : ℕ) (cs rest : Bytes)
    → All IsDigit (c ∷ cs)
    → begins_with_digit rest ≡ false
    → strtoll (c ∷ (cs ++ rest)) ≡ (min (value_from 0 (c ∷ cs)) (2 ^ 63 - 1), rest)
unfolding strtoll
strtoll-digits c cs rest h k =
    let minus : (c == b'-') ≡ false = unfold isdigit in ground arith in
    let plus : (c == b'+') ≡ false = unfold isdigit in ground arith in
    rw (skip_spaces-digit c (cs ++ rest) h.0, minus, plus, span_digits-append (c ∷ cs) rest h k)
      refl

decimal-nonempty : (n : ℕ) → n < 2 ^ 64 → decimal n ≢ []
unfolding decimal value_from
decimal-nonempty n h e =
    let zero_value : n ≡ 0 = sym (value-decimal n h) ∙ ap (value_from 0) e in
    let empty : decimal 0 ≡ [] = ap decimal (sym zero_value) ∙ e in ground arith

strtoll-decimal :
    (n : ℕ) (rest : Bytes)
    → n < 2 ^ 63
    → begins_with_digit rest ≡ false
    → strtoll (decimal n ++ rest) ≡ (n, rest)
strtoll-decimal n rest l k =
    go (decimal n) (decimal-IsDigit n) (value-decimal n (omega arith))
      (decimal-nonempty n (omega arith))
  where
    go : (s : Bytes) → All IsDigit s → value_from 0 s ≡ n → s ≢ [] → strtoll (s ++ rest) ≡ (n, rest)
    go [] h v e = elim (e refl) [ ]
    go (c ∷ cs) h v e = strtoll-digits c cs rest h k ∙ rw v (ap (λ m. (m, rest)) (ground arith))

pub decimal-begins :
    (n : ℕ) (rest : Bytes) → n < 2 ^ 64 → begins_with_digit (decimal n ++ rest) ≡ true
decimal-begins n rest h = go (decimal n) (decimal-IsDigit n) (decimal-nonempty n h)
  where
    go : (s : Bytes) → All IsDigit s → s ≢ [] → begins_with_digit (s ++ rest) ≡ true
    go [] k e = elim (e refl) [ ]
    go (c ∷ cs) k e = k.0

single-int :
    (s : Bytes) (size : ℕ)
    → begins_with_digit s ≡ true
    → parse_single_range s size ≡ int_range (strtoll s) size
unfolding parse_single_range
single-int [] size h = refl
single-int (c ∷ cs) size h =
    let minus : (c == b'-') ≡ false = unfold isdigit in ground arith in rw minus refl

int_range-last :
    (a b size : ℕ) (s : Bytes)
    → a ≤ b
    → b < 2 ^ 63 - 1
    → begins_with_digit s ≡ true
    → (strtoll s).0 ≡ b
    → int_range (a, b'-' ∷ s) size ≡ some (record { start = a; end = b + 1 })
unfolding int_range
int_range-last a b size [] h k d e = ground arith
int_range-last a b size (c ∷ cs) h k d e =
    let below : (b == 2 ^ 63 - 1) ≡ false = ground arith in
    let whole : (b + 1) % 2 ^ 64 ≡ b + 1 = omega arith in
    let proper : leb (b + 1) a ≡ false = ground arith in rw (d, e, below, whole, proper) refl

-- A specifier `a-b` of decimal numbers, a at most b and b below 2^63 - 1, that no digit follows,
-- stands for the bytes a to b whatever the size is.
pub single-first_last :
    (a b size : ℕ) (rest : Bytes)
    → a ≤ b
    → b < 2 ^ 63 - 1
    → begins_with_digit rest ≡ false
    → parse_single_range (decimal a ++ (b'-' ∷ (decimal b ++ rest))) size
      ≡ some (record { start = a; end = b + 1 })
single-first_last a b size rest h k d =
    single-int _ size (decimal-begins a _ (omega arith))
    ∙ ap (λ p. int_range p size)
        (strtoll-decimal a (b'-' ∷ (decimal b ++ rest)) (omega arith) (unfold isdigit in refl))
    ∙ int_range-last a b size (decimal b ++ rest) h k (decimal-begins b rest (omega arith))
        (ap (λ p. p.0) (strtoll-decimal b rest (omega arith) d))

-- A specifier `a-` with a below 2^63 stands for the bytes from a to the end, or for the full range
-- when a is not below the size.
pub single-first :
    (a size : ℕ)
    → a < 2 ^ 63
    → parse_single_range (decimal a ++ (b'-' ∷ [])) size
      ≡ some (if leb size a then full_range else record { start = a; end = size })
unfolding int_range
single-first a size h =
    single-int _ size (decimal-begins a _ (omega arith))
    ∙ ap (λ p. int_range p size) (strtoll-decimal a (b'-' ∷ []) h (unfold isdigit in refl))

suffix_range-tail :
    (n size : ℕ)
    → n < 2 ^ 63
    → size < 2 ^ 63
    → suffix_range n size ≡ (
        if n == 0
        then full_range
        else if ltb size n
        then full_range
        else record { start = size - n; end = size })
suffix_range-tail n size h k = elim (Bool-cases (n == 0)) [
  | inl z ↦
      let none_left : leb size ((size + 2 ^ 64 - n) % 2 ^ 64) ≡ true = ground arith in
      rw (z, none_left) refl
  | inr z ↦ elim (Bool-cases (ltb size n)) [
    | inl l ↦
        let wrapped : leb size ((size + 2 ^ 64 - n) % 2 ^ 64) ≡ true = ground arith in
        rw (z, l, wrapped) refl
    | inr l ↦
        let start : (size + 2 ^ 64 - n) % 2 ^ 64 ≡ size - n = ground arith in
        let proper : leb size (size - n) ≡ false = ground arith in rw (z, l, start, proper) refl
  ]
]

-- A specifier `-n`, n and the size below 2^63, that no digit follows, stands for the last n bytes,
-- or for the full range when n is 0 or above the size.
pub single-suffix :
    (n size : ℕ) (rest : Bytes)
    → n < 2 ^ 63
    → size < 2 ^ 63
    → begins_with_digit rest ≡ false
    → parse_single_range (b'-' ∷ (decimal n ++ rest)) size
      ≡ some (
          if n == 0
          then full_range
          else if ltb size n
          then full_range
          else record { start = size - n; end = size })
unfolding parse_single_range
single-suffix n size rest h k d =
    ap (λ p. some (suffix_range p.0 size)) (strtoll-decimal n rest h d)
    ∙ ap some (suffix_range-tail n size h k)
