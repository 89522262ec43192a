-- ===== src/Range/Specifier.antt =====
-- http_hl.c: the specifiers of a Range header one by one.
use mathlib.Core.Option
use h_ss.Prelude.{
  ℕ, zero, suc, ◌≡◌, inl, inr, refl, sym, ap, ◌∙◌, arith, true, List, [], ◌∷◌, map, Option, none,
  some, if◌then◌else◌, ◌==◌, Bytes, isspace, Option-cases, Bool-cases,
}
use h_ss.Range.{Range, skip_spaces, parse_single_range, count_ranges, next_specifier, parse_ranges}

-- What stands behind each comma.
unfoldable pub behind_commas : Bytes → List Bytes
behind_commas [] = []
behind_commas (c ∷ cs) = let rest = behind_commas cs in if c == b',' then cs ∷ rest else rest

-- All of the results, if there are all.
unfoldable pub all_of {ℓ} : {A : Type ℓ} → List (Option A) → Option (List A)
all_of [] = some []
all_of (o ∷ os) = elim o [
  | none ↦ none
  | some a ↦ elim (all_of os) [ none ↦ none | some rest ↦ some (a ∷ rest) ]
]

abbrev pub single : ℕ → Bytes → Option Range
single size s = parse_single_range (skip_spaces s) size

next-skip_spaces : (s : Bytes) → next_specifier (skip_spaces s) ≡ next_specifier s
unfolding next_specifier skip_spaces isspace
next-skip_spaces [] = refl
next-skip_spaces (c ∷ cs) = ground (arith, next-skip_spaces cs)

behind_commas-none :
    (s : Bytes) → next_specifier s ≡ none → (behind_commas s ≡ []) × (count_ranges s ≡ 1)
unfolding next_specifier behind_commas count_ranges
behind_commas-none [] h = (refl, refl)
behind_commas-none (c ∷ cs) h = elim (Bool-cases (c == b',')) [
  | inl e ↦ ground arith
  | inr e ↦ rw e (behind_commas-none cs (ground arith))
]

next-comma : (c : ℕ) (cs : Bytes) → (c == b',') ≡ true → next_specifier (c ∷ cs) ≡ some cs
unfolding next_specifier
next-comma c cs e = rw e refl

behind_commas-some :
    (s t : Bytes)
    → next_specifier s ≡ some t
    → (behind_commas s ≡ (t ∷ behind_commas t)) × (count_ranges s ≡ suc (count_ranges t))
unfolding next_specifier behind_commas count_ranges
behind_commas-some [] t h = ground arith
behind_commas-some (c ∷ cs) t h = elim (Bool-cases (c == b',')) [
  | inl e ↦
      let same = Option.some-injective cs t (sym (next-comma c cs e) ∙ h) in
      rw e (ap (λ u. u ∷ behind_commas u) same, ap (λ u. suc (count_ranges u)) same)
  | inr e ↦ rw e (behind_commas-some cs t (ground arith))
]

from_count :
    (n : ℕ) (s : Bytes) (size : ℕ)
    → count_ranges s ≡ n
    → parse_ranges n (some s) size ≡ all_of (map (single size) (s ∷ behind_commas s))
unfolding parse_ranges all_of
from_count zero s size h = elim (Option-cases (next_specifier s)) [
  | inl e ↦ ground (arith, (behind_commas-none s e).1)
  | inr (t, e) ↦ ground (arith, (behind_commas-some s t e).1)
]
from_count (suc n) s size h = with_first (elim (Option-cases (next_specifier s)) [
  | inl e ↦
      let (commas, count) = behind_commas-none s e in
      next (next-skip_spaces s ∙ e)
      ∙ last n (omega (arith, count, h))
      ∙ ap (λ cs. all_of (map (single size) cs)) (sym commas)
  | inr (t, e) ↦
      let (commas, count) = behind_commas-some s t e in
      next (next-skip_spaces s ∙ e)
      ∙ from_count n t size (omega (arith, count, h))
      ∙ ap (λ cs. all_of (map (single size) cs)) (sym commas)
])
  where
    with_first :
        {more rest : Option (List Range)}
        → more ≡ rest
        → ◌≡◌ {A = Option (List Range)}
            (elim (single size s) [
              | none ↦ none
              | some r ↦ elim more [ none ↦ none | some rs ↦ some (r ∷ rs) ]
            ])
            (elim (single size s) [
              | none ↦ none
              | some r ↦ elim rest [ none ↦ none | some rs ↦ some (r ∷ rs) ]
            ])
    with_first e =
        ap
          (λ more. elim (single size s) [
            | none ↦ none
            | some r ↦ elim more [ none ↦ none | some rs ↦ some (r ∷ rs) ]
          ])
          e

    next :
        {o : Option Bytes}
        → next_specifier (skip_spaces s) ≡ o
        → parse_ranges n (next_specifier (skip_spaces s)) size ≡ parse_ranges n o size
    next e = ap (λ o. parse_ranges n o size) e

    last : (k : ℕ) → k ≡ 0 → parse_ranges k none size ≡ some []
    last zero e = refl
    last (suc k) e = ground arith

-- The loop over the specifiers runs once for the string and once for what stands behind each comma,
-- and reads nothing past the end by itself.
pub parse_ranges-all :
    (s : Bytes) (size : ℕ)
    → parse_ranges (count_ranges s) (some s) size ≡ all_of (map (single size) (s ∷ behind_commas s))
parse_ranges-all s size = from_count (count_ranges s) s size refl
