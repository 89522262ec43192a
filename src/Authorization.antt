-- ===== src/Authorization.antt =====
-- server.c: `get_authorization_code`, with the three random words as an argument.
pub mod Random
mod Tests
use h_ss.Prelude.{
  ℕ, zero, suc, ◌+◌, ◌*◌, ◌/◌, ◌%◌, Bool, true, false, List, [], ◌∷◌, ◌++◌, Option, none, some,
  if◌then◌else◌, Bytes, codes, nth,
}

-- The static variables: whether the next call is the first, and the code.
pub record Authorization : Type 0 where
  pub initialize : Bool
  pub code : Bytes

abbrev pub character_map : Bytes
character_map =
    codes "0123456789ABCDEF"
    ++ (codes "WXYZabcdefghijkl" ++ (codes "GHIJKLMNOPQRSTUV" ++ codes "mnopqrstuvwxyz~@"))

-- The inner loop: `& 0x3f`, then `>>= 6`.
unfoldable pub sextets : ℕ → ℕ → List ℕ
sextets zero w = []
sextets (suc rounds) w = (w % 64) ∷ sextets rounds (w / 64)

-- What the loop leaves of the word.
unfoldable pub shifted : ℕ → ℕ → ℕ
shifted zero w = w
shifted (suc rounds) w = shifted rounds (w / 64)

-- The four bits left of each word make two more: `a | (b & 0xc) << 2` and `c | (b & 0x3) << 4`. The
-- bits of the two sides are disjoint, since `a` and `c` have four bits.
abbrev pub last_two : ℕ → ℕ → ℕ → List ℕ
last_two a b c = (a + b / 4 % 4 * 16) ∷ (c + b % 4 * 16) ∷ []

abbrev pub indices : ℕ → ℕ → ℕ → List ℕ
indices a b c =
    sextets 10 a
    ++ (sextets 10 b ++ (sextets 10 c ++ last_two (shifted 10 a) (shifted 10 b) (shifted 10 c)))

-- `map[i]` for each index; `none` is a read outside the map.
unfoldable pub characters : List ℕ → Option Bytes
characters [] = some []
characters (i ∷ is) = elim (nth character_map i) [
  | none ↦ none
  | some c ↦ elim (characters is) [ none ↦ none | some cs ↦ some (c ∷ cs) ]
]

unfoldable pub get_authorization_code : Authorization → ℕ → ℕ → ℕ → Option Authorization
get_authorization_code s a b c =
    if s.initialize
    then elim (characters (indices a b c)) [
      | none ↦ none
      | some code ↦ some (record { initialize = false; code = code })
    ]
    else some s
