-- ===== src/Decimal.antt =====
-- `sprintf` of `%lu` and `%03d`: decimal digits. A 64-bit number has at most 20 of them, which is
-- the number of rounds.
use native.Mathlib.Nat.{pow-suc}
use h_ss.Prelude.{
  ap, ◌∙◌, inl, inr, Bool-cases, ℕ, zero, suc, ◌+◌, ◌-◌, ◌*◌, ◌/◌, ◌%◌, ◌^◌, ◌≤◌, ◌<◌, ◌≡◌, refl,
  [], ◌∷◌, ◌++◌, arith, if◌then◌else◌, ◌==◌, ltb, Bytes, length, NoNul,
}

unfoldable pub digits : ℕ → ℕ → Bytes → Bytes
digits zero n out = out
digits (suc rounds) n out =
    let rest = digits rounds (n / 10) ((b'0' + n % 10) ∷ out) in if n == 0 then out else rest

-- `%lu`
unfoldable pub decimal : ℕ → Bytes
decimal n = if n == 0 then b'0' ∷ [] else digits 20 n []

unfoldable pub zeros : ℕ → Bytes
zeros zero = []
zeros (suc n) = b'0' ∷ zeros n

abbrev pub pad : ℕ → Bytes → Bytes
pad width s = zeros (width - length s) ++ s

-- `%03d` of the bits of an `unsigned int`
unfoldable pub format_03d : ℕ → Bytes
format_03d n = if ltb n (2 ^ 31) then pad 3 (decimal n) else b'-' ∷ pad 2 (decimal (2 ^ 32 - n))

-- What a run of digits stands for, read behind a number.
unfoldable pub value_from : ℕ → Bytes → ℕ
value_from acc [] = acc
value_from acc (c ∷ cs) = value_from (acc * 10 + (c - b'0')) cs

value_from-digits :
    (rounds n : ℕ) (out : Bytes)
    → n < 10 ^ rounds
    → value_from 0 (digits rounds n out) ≡ value_from n out
unfolding digits value_from
value_from-digits zero n out h = ap (λ k. value_from k out) (omega arith)
value_from-digits (suc rounds) n out h = elim (Bool-cases (n == 0)) [
  | inl z ↦ rw z (ap (λ k. value_from k out) (ground arith))
  | inr pos ↦ rw pos (
      value_from-digits rounds (n / 10) ((b'0' + n % 10) ∷ out) (omega (arith, pow-suc 10 rounds))
      ∙ ap (λ k. value_from k out) (omega arith))
]

-- A 64-bit number is read back from its print.
pub value-decimal : (n : ℕ) → n < 2 ^ 64 → value_from 0 (decimal n) ≡ n
unfolding decimal
value-decimal n h = elim (Bool-cases (n == 0)) [
  | inl z ↦ rw z (unfold value_from in ground arith)
  | inr pos ↦ rw pos (value_from-digits 20 n [] (omega arith) ∙ (unfold value_from in refl))
]

length-digits : (rounds n : ℕ) (out : Bytes) → length (digits rounds n out) ≤ rounds + length out
unfolding digits
length-digits zero n out = omega arith
length-digits (suc rounds) n out =
    ground (arith, length-digits rounds (n / 10) ((b'0' + n % 10) ∷ out))

pub length-decimal : (n : ℕ) → length (decimal n) ≤ 20
unfolding decimal
length-decimal n = ground (arith, length-digits 20 n [])

NoNul-digits : (rounds n : ℕ) (out : Bytes) → NoNul out → NoNul (digits rounds n out)
unfolding digits
NoNul-digits zero n out h = h
NoNul-digits (suc rounds) n out h =
    ground (arith, NoNul-digits rounds (n / 10) ((b'0' + n % 10) ∷ out))

pub decimal-NoNul : (n : ℕ) → NoNul (decimal n)
unfolding decimal
decimal-NoNul n = ground (arith, NoNul-digits 20 n [])

pub length-zeros : (n : ℕ) → length (zeros n) ≡ n
unfolding zeros
length-zeros zero = refl
length-zeros (suc n) = ap suc (length-zeros n)
