-- ===== src/Request/Fields.antt =====
-- The parts of a header line: the name before the colon, and the value between its blanks.
use native.Mathlib.Numerals.{add-one}
use h_ss.Prelude.{
  ◌+◌, length, drop, ℕ, ◌≡◌, ◌≢◌, ◌⊎◌, inl, inr, refl, sym, ap, ◌∙◌, true, false, [], ◌∷◌, ◌++◌,
  arith, ◌==◌, Bytes, isspace, reverse, Bool-cases, reverse-append, reverse-reverse, All,
  All-reverse,
}
use h_ss.Request.{
  Colon, found, absent, overrun, strchr_colon, any_space, trim_start, trim_end, behind,
}
use h_ss.Request.Tokens.{IsBlank, Starts}

pub drop-key : (key : Bytes) (rest : Bytes) → drop (length key + 1) (key ++ (b':' ∷ rest)) ≡ rest
drop-key [] rest = refl
drop-key (c ∷ key) rest = simp add-one (rw add-one at (drop-key key rest))

-- The name of a header: no blank, no colon, no NUL.
abbrev pub IsKeyByte : ℕ → Type 0
IsKeyByte c = (isspace c ≡ false) × (c ≢ b':') × (c ≢ 0)

pub strchr_colon-append :
    (key rest : Bytes) → All IsKeyByte key → strchr_colon (key ++ (b':' ∷ rest)) ≡ found key
unfolding strchr_colon
strchr_colon-append [] rest h = refl
strchr_colon-append (c ∷ key) rest h = ground (arith, strchr_colon-append key rest h.1)

pub any_space-key : (key : Bytes) → All IsKeyByte key → any_space key ≡ false
unfolding any_space
any_space-key [] h = refl
any_space-key (c ∷ key) h = ground (arith, any_space-key key h.1)

behind-found :
    (c : ℕ) (x : Colon) (key : Bytes)
    → behind c x ≡ found key
    → (k : Bytes) × (x ≡ found k) × (key ≡ c ∷ k)
behind-found c (found k) key e = (k, refl, ground arith)
behind-found c absent key e = cc
behind-found c overrun key e = cc

pub isspace_cr : isspace 13 ≡ true
unfolding isspace
isspace_cr = refl

-- A colon found with no blank before it lies in the line, and what stands before it is a key.
pub strchr_colon_sound :
    (line rest key : Bytes)
    → strchr_colon (line ++ (13 ∷ rest)) ≡ found key
    → any_space key ≡ false
    → (tail : Bytes) × (line ≡ key ++ (b':' ∷ tail)) × All IsKeyByte key
unfolding strchr_colon any_space
strchr_colon_sound [] rest key e s =
    let (k, f, split) = behind-found 13 (strchr_colon rest) key e in
    absurd (ground (arith, isspace_cr))
strchr_colon_sound (c ∷ line) rest key e s = elim (Bool-cases (c == b':')) [
  | inl colon ↦ (line, ground arith, ground arith)
  | inr other ↦ elim (Bool-cases (c == 0)) [
    | inl nul ↦ absurd (ground arith)
    | inr more ↦
        let (k, f, split) =
          behind-found c (strchr_colon (line ++ (13 ∷ rest))) key (rw (other, more) at e) in
        let (tail, parts, bytes) = strchr_colon_sound line rest k f (ground arith) in
        (tail, ground arith, rw split ((ground arith, ground arith, ground arith), bytes))
  ]
]

pub trim_start-append :
    (gap rest : Bytes) → All IsBlank gap → Starts rest → trim_start (gap ++ rest) ≡ rest
unfolding trim_start
trim_start-append [] [] h s = absurd s
trim_start-append [] (c ∷ rest) h s = rw s
trim_start-append (g ∷ gap) rest h s = rw h.0 (trim_start-append gap rest h.1 s)

pub trim_start_sound :
    (b : Bytes)
    → (gap : Bytes) × (b ≡ gap ++ trim_start b)
      × All IsBlank gap
      × ((trim_start b ≡ []) ⊎ Starts (trim_start b))
unfolding trim_start
trim_start_sound [] = ([], refl, tt, inl refl)
trim_start_sound (c ∷ b) = elim (Bool-cases (isspace c)) [
  | inl s ↦
      let (gap, split, blank, starts) = trim_start_sound b in
      rw s ((c ∷ gap, ap (◌∷◌ c) split, (s, blank), starts))
  | inr s ↦ rw s ([], refl, tt, inr s)
]

-- No blank at either end, and not empty.
abbrev pub IsTrimmed : Bytes → Type 0
IsTrimmed v = Starts v × Starts (reverse v)

pub trim_end-append :
    (v trail : Bytes) → All IsBlank trail → Starts (reverse v) → trim_end (v ++ trail) ≡ v
unfolding trim_end
trim_end-append v trail h s = rw reverse-append (
    rw (trim_start-append (reverse trail) (reverse v) (All-reverse IsBlank trail h) s)
      (reverse-reverse v))

pub trim_end_sound :
    (b : Bytes)
    → (trail : Bytes) × (b ≡ trim_end b ++ trail)
      × All IsBlank trail
      × ((trim_end b ≡ []) ⊎ Starts (reverse (trim_end b)))
unfolding trim_end
trim_end_sound b = (reverse gap, whole, All-reverse IsBlank gap blank, ends kind)
  where
    gap : Bytes
    gap = (trim_start_sound (reverse b)).0

    blank : All IsBlank gap
    blank = (trim_start_sound (reverse b)).2

    kind : (trim_start (reverse b) ≡ []) ⊎ Starts (trim_start (reverse b))
    kind = (trim_start_sound (reverse b)).3

    whole : b ≡ reverse (trim_start (reverse b)) ++ reverse gap
    whole =
        sym (reverse-reverse b)
        ∙ ap reverse (trim_start_sound (reverse b)).1
        ∙ reverse-append gap (trim_start (reverse b))

    ends :
        (trim_start (reverse b) ≡ []) ⊎ Starts (trim_start (reverse b))
        → (reverse (trim_start (reverse b)) ≡ [])
          ⊎ Starts (reverse (reverse (trim_start (reverse b))))
    ends (inl e) = inl (ap reverse e)
    ends (inr s) = inr (rw reverse-reverse s)

-- What holds of a list or else it is empty, at a list that is not.
holds_of_cons :
    (P : Bytes → Type 0) (v : Bytes) (c : ℕ) (cs : Bytes) → v ≡ c ∷ cs → (v ≡ []) ⊎ P v → P (c ∷ cs)
holds_of_cons P v c cs e (inl n) = absurd (cc)
holds_of_cons P v c cs e (inr h) = rw (← e) h

-- A value that is left after both trims.
pub value-IsTrimmed :
    (b : Bytes) (c : ℕ) (cs : Bytes)
    → trim_end (trim_start b) ≡ c ∷ cs
    → (lead : Bytes) × (trail : Bytes) × (b ≡ lead ++ ((c ∷ cs) ++ trail))
      × All IsBlank lead
      × All IsBlank trail
      × IsTrimmed (c ∷ cs)
value-IsTrimmed b c cs e =
    let (lead, split, blank, kind) = trim_start_sound b in
    let (trail, split', blank', kind') = trim_end_sound (trim_start b) in
    (
      lead,
      trail,
      split ∙ ap (◌++◌ lead) (split' ∙ ap (λ v. v ++ trail) e),
      blank,
      blank',
      (
        holds_of_cons Starts (trim_start b) c (cs ++ trail) (split' ∙ ap (λ v. v ++ trail) e) kind,
        holds_of_cons (λ v. Starts (reverse v)) (trim_end (trim_start b)) c cs e kind',
      ),
    )
