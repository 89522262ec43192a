-- ===== src/Prelude/Blocks.antt =====
-- Blocks of memory as lists of bytes, and what the C library's string functions see of them.
use Prim.Native.Char.{code}
use Prim.Native.String.{String}
use Prim.Native.Nat.{ℕ, compare, Ordering}
use mathlib.Core.Path.{◌≡◌, refl}
use mathlib.Core.Logic.{◌≢◌}
use mathlib.Core.Option.{Option, none, some}
use mathlib.Core.Bool.{Bool, true, false, ◌&&◌, ◌||◌}
use mathlib.Core.List.{List, [], ◌∷◌}
use native.Mathlib.Omega.{arith}
use h_ss.Prelude.Tests.{ltb, leb, ◌==◌, if◌then◌else◌}
use h_ss.Prelude.Lists.{length, take}

abbrev pub Bytes : Type 0
Bytes = List ℕ

-- The bytes of an ASCII literal.
abbrev pub codes : String → Bytes
codes String.[] = []
codes (String.◌∷◌ c s) = code c ∷ codes s

-- `isspace` in the C locale: blank, \t \n \v \f \r.
unfoldable pub isspace : ℕ → Bool
isspace c = c == 32 || leb 9 c && leb c 13

unfoldable pub isdigit : ℕ → Bool
isdigit c = leb b'0' c && leb c b'9'

-- The string in a block: the bytes before the first NUL.
unfoldable pub c_str : Bytes → Bytes
c_str [] = []
c_str (c ∷ cs) = if c == 0 then [] else c ∷ c_str cs

abbrev pub strlen : Bytes → ℕ
strlen s = length (c_str s)

-- Lexicographic comparison of byte sequences.
unfoldable pub lex : Bytes → Bytes → Ordering
lex [] [] = Ordering.eq
lex [] (y ∷ ys) = Ordering.lt
lex (x ∷ xs) [] = Ordering.gt
lex (x ∷ xs) (y ∷ ys) = elim (compare x y) [
  | Ordering.lt ↦ Ordering.lt
  | Ordering.eq ↦ lex xs ys
  | Ordering.gt ↦ Ordering.gt
]

-- The sign of `strcmp`.
unfoldable pub strcmp : Bytes → Bytes → Ordering
strcmp a b = lex (c_str a) (c_str b)

pub lex_self : (a : Bytes) → lex a a ≡ Ordering.eq
unfolding lex
lex_self [] = refl
lex_self (x ∷ a) = ground (arith, lex_self a)

pub lex_eq : (a b : Bytes) → lex a b ≡ Ordering.eq → a ≡ b
unfolding lex
lex_eq [] [] h = refl
lex_eq [] (y ∷ b) h = ground arith
lex_eq (x ∷ a) [] h = ground arith
lex_eq (x ∷ a) (y ∷ b) h = ground (arith, lex_eq a b)

abbrev pub opposite : Ordering → Ordering
opposite Ordering.lt = Ordering.gt
opposite Ordering.eq = Ordering.eq
opposite Ordering.gt = Ordering.lt

pub lex-opposite : (a b : Bytes) → lex b a ≡ opposite (lex a b)
unfolding lex
lex-opposite [] [] = refl
lex-opposite [] (y ∷ b) = refl
lex-opposite (x ∷ a) [] = refl
lex-opposite (x ∷ a) (y ∷ b) = ground (arith, lex-opposite a b)

pub lex_trans :
    (a b c : Bytes) → lex a b ≡ Ordering.lt → lex b c ≡ Ordering.lt → lex a c ≡ Ordering.lt
unfolding lex
lex_trans [] [] c h k = ground arith
lex_trans [] (y ∷ b) [] h k = ground arith
lex_trans [] (y ∷ b) (z ∷ c) h k = refl
lex_trans (x ∷ a) [] c h k = ground arith
lex_trans (x ∷ a) (y ∷ b) [] h k = ground arith
lex_trans (x ∷ a) (y ∷ b) (z ∷ c) h k = ground (arith, lex_trans a b c)

-- Whether `memcmp` of the first `n` bytes of two blocks gives 0; `none` past the end of one.
unfoldable pub memcmp_eq : Bytes → Bytes → ℕ → Option Bool
memcmp_eq a b n =
    if ltb (length a) n || ltb (length b) n
    then none
    else elim (lex (take n a) (take n b)) [ Ordering.eq ↦ some true | _ ↦ some false ]

-- No byte of the block is NUL, so the string is the whole block.
abbrev pub NoNul : Bytes → Type 0
NoNul [] = Unit {0}
NoNul (c ∷ cs) = (c ≢ 0) × NoNul cs

pub c_str-NoNul : (s : Bytes) → NoNul s → c_str s ≡ s
unfolding c_str
c_str-NoNul [] h = refl
c_str-NoNul (c ∷ s) h = ground (arith, c_str-NoNul s h.1)

pub c_str_idem : (s : Bytes) → c_str (c_str s) ≡ c_str s
unfolding c_str
c_str_idem [] = refl
c_str_idem (c ∷ s) = ground (arith, c_str_idem s)
