-- ===== src/Request/Tokens.antt =====
-- The parser's scanning loops, each against the pieces that it cuts the buffer into.
use h_ss.Prelude.{
  ℕ, ◌≡◌, ◌≢◌, inl, inr, refl, ap, true, false, ◌&&◌, [], ◌∷◌, ◌++◌, some, arith, ◌==◌, Bytes,
  isspace, length, Bool-cases, Option-cases, All,
}
use h_ss.Request.{Request, ok, skip_whitespaces, range_non_blank, until_crlf, strncmp_eq}

abbrev pub IsBlank : ℕ → Type 0
IsBlank c = isspace c ≡ true

abbrev pub IsInk : ℕ → Type 0
IsInk c = isspace c ≡ false

-- A non-empty token with no blank in it.
abbrev pub IsToken : Bytes → Type 0
IsToken t = (t ≢ []) × All IsInk t

-- What follows a token: nothing, or a blank.
abbrev pub Stops : Bytes → Type 0
Stops [] = Unit {0}
Stops (c ∷ cs) = IsBlank c

-- What follows blanks.
abbrev pub Starts : Bytes → Type 0
Starts [] = ⊥
Starts (c ∷ cs) = IsInk c

pub range_non_blank-append :
    (t rest : Bytes) → All IsInk t → Stops rest → range_non_blank (t ++ rest) ≡ (t, rest)
unfolding range_non_blank
range_non_blank-append [] [] h s = refl
range_non_blank-append [] (c ∷ rest) h s = rw s
range_non_blank-append (c ∷ t) rest h s = rw (h.0, range_non_blank-append t rest h.1 s)

pub range_non_blank_sound :
    (b : Bytes)
    → (b ≡ (range_non_blank b).0 ++ (range_non_blank b).1)
      × All IsInk (range_non_blank b).0
      × Stops (range_non_blank b).1
unfolding range_non_blank
range_non_blank_sound [] = (refl, tt, tt)
range_non_blank_sound (c ∷ b) = elim (Bool-cases (isspace c)) [
  | inl s ↦ rw s (refl, tt, s)
  | inr s ↦ let (e, ink, stops) = range_non_blank_sound b in rw s (ap (◌∷◌ c) e, (s, ink), stops)
]

pub skip_whitespaces-append :
    (r : Request) (gap rest : Bytes)
    → All IsBlank gap
    → Starts rest
    → skip_whitespaces r (gap ++ rest) ≡ ok rest
unfolding skip_whitespaces
skip_whitespaces-append r [] [] h s = absurd s
skip_whitespaces-append r [] (c ∷ []) h s = rw s
skip_whitespaces-append r [] (c ∷ d ∷ rest) h s = rw s
skip_whitespaces-append r (g ∷ []) [] h s = absurd s
skip_whitespaces-append r (g ∷ []) (c ∷ rest) h s =
    rw h.0 (skip_whitespaces-append r [] (c ∷ rest) tt s)
skip_whitespaces-append r (g ∷ g' ∷ gap) rest h s =
    rw h.0 (skip_whitespaces-append r (g' ∷ gap) rest h.1 s)

pub skip_whitespaces_sound :
    (r : Request) (b rest : Bytes)
    → skip_whitespaces r b ≡ ok rest
    → (gap : Bytes) × (b ≡ gap ++ rest) × All IsBlank gap × Starts rest
unfolding skip_whitespaces
skip_whitespaces_sound r [] rest e = cc
skip_whitespaces_sound r (c ∷ []) rest e = elim (Bool-cases (isspace c)) [
  | inl s ↦ ground arith
  | inr s ↦ ([], ground arith, tt, ground arith)
]
skip_whitespaces_sound r (c ∷ d ∷ b) rest e = elim (Bool-cases (isspace c)) [
  | inl s ↦
      let (gap, split, blank, starts) = skip_whitespaces_sound r (d ∷ b) rest (ground arith) in
      (c ∷ gap, ap (◌∷◌ c) split, (s, blank), starts)
  | inr s ↦ ([], ground arith, tt, ground arith)
]

-- No CRLF inside.
abbrev pub NoCrlf : Bytes → Type 0
NoCrlf [] = Unit {0}
NoCrlf (c ∷ []) = Unit {0}
NoCrlf (c ∷ d ∷ cs) = ((c == 13 && d == 10) ≡ false) × NoCrlf (d ∷ cs)

pub until_crlf-append :
    (line rest : Bytes)
    → NoCrlf line
    → until_crlf (line ++ (13 ∷ 10 ∷ rest)) ≡ some (line, 13 ∷ 10 ∷ rest)
unfolding until_crlf
until_crlf-append [] rest h = refl
until_crlf-append (c ∷ []) rest h = ground arith
until_crlf-append (c ∷ d ∷ line) rest h = rw (h.0, until_crlf-append (d ∷ line) rest h.1)

NoCrlf-cons :
    (c d : ℕ) (b l rest : Bytes)
    → d ∷ b ≡ l ++ rest
    → (c == 13 && d == 10) ≡ false
    → NoCrlf l
    → NoCrlf (c ∷ l)
NoCrlf-cons c d b [] rest e s h = tt
NoCrlf-cons c d b (x ∷ l) rest e s h = (ground arith, h)

pub until_crlf_sound :
    (b line tail : Bytes)
    → until_crlf b ≡ some (line, tail)
    → (rest : Bytes) × (tail ≡ 13 ∷ 10 ∷ rest) × (b ≡ line ++ (13 ∷ 10 ∷ rest)) × NoCrlf line
unfolding until_crlf
until_crlf_sound [] line tail e = cc
until_crlf_sound (c ∷ []) line tail e = cc
until_crlf_sound (c ∷ d ∷ b) line tail e = elim (Bool-cases (c == 13 && d == 10)) [
  | inl s ↦ (b, ground arith, ground arith, ground arith)
  | inr s ↦ elim (Option-cases (until_crlf (d ∷ b))) [
    | inl n ↦ ground arith
    | inr ((l, t), m) ↦
        let (rest, f, split, fine) = until_crlf_sound (d ∷ b) l t m in
        let line' : c ∷ l ≡ line = ground arith in
        (rest, ground arith, ground arith, rw (← line') (NoCrlf-cons c d b l _ split s fine))
  ]
]

-- `strncmp` looks only at the bytes that it is given the number of.
pub strncmp_eq-append :
    (a t rest : Bytes) → strncmp_eq a (t ++ rest) (length t) ≡ strncmp_eq a t (length t)
unfolding strncmp_eq
strncmp_eq-append a [] rest = refl
strncmp_eq-append [] (y ∷ t) rest = refl
strncmp_eq-append (x ∷ a) (y ∷ t) rest = rw (strncmp_eq-append a t rest)
