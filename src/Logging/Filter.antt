-- ===== src/Logging/Filter.antt =====
-- common.c: which messages are written.
use h_ss.Prelude.{
  ℕ, ◌≤◌, ◌≡◌, ◌≢◌, refl, arith, List, [], ◌∷◌, Bool, true, false, Option, some, if◌then◌else◌, ltb,
  Bytes,
}
use h_ss.Logging.{
  LogLevel, trace, debug, information, warning, error, fatal, level_number, off, initial_level,
  logging_implementation, log, logging_set_level, set_levels,
}

set_levels_bound : (l : ℕ) (ls : List ℕ) → l ≤ off → set_levels l ls ≤ off
unfolding set_levels logging_set_level
set_levels_bound l [] h = h
set_levels_bound l (k ∷ ls) h = set_levels_bound (logging_set_level l k) ls (ground arith)

-- Whatever levels a program sets, the log level stays one of the enumeration.
pub set_levels-InRange : (ls : List ℕ) → set_levels initial_level ls ≤ off
set_levels-InRange ls = set_levels_bound initial_level ls (omega arith)

choose :
    (b : Bool) (c : ℕ) (cs : Bytes)
    → (out : Bytes) × (◌≡◌ {A = Option Bytes} (if b then some [] else some (c ∷ cs)) (some out))
      × (if b then out ≡ [] else out ≢ [])
choose true c cs = ([], refl, refl)
choose false c cs = (c ∷ cs, refl, λ e. ground arith)

written :
    (l : ℕ) (level : LogLevel) (time message : Bytes)
    → (out : Bytes) × (log l level time message ≡ some out)
      × (if ltb (level_number level) l then out ≡ [] else out ≢ [])
unfolding logging_implementation
written l trace time message = choose (ltb 1 l) _ _
written l debug time message = choose (ltb 2 l) _ _
written l information time message = choose (ltb 3 l) _ _
written l warning time message = choose (ltb 4 l) _ _
written l error time message = choose (ltb 5 l) _ _
written l fatal time message = choose (ltb 6 l) _ _

set_level-valid : (old new : ℕ) → new ≤ off → logging_set_level old new ≡ new
unfolding logging_set_level
set_level-valid old new h = ground arith

-- After a valid level is set, a logging function writes nothing when its own level is lower, and
-- writes something otherwise; it never reads outside its tables.
pub log-set_level :
    (old new : ℕ) (level : LogLevel) (time message : Bytes)
    → new ≤ off
    → (out : Bytes) × (log (logging_set_level old new) level time message ≡ some out)
      × (if ltb (level_number level) new then out ≡ [] else out ≢ [])
log-set_level old new level time message h =
    rw (set_level-valid old new h) (written new level time message)
