-- ===== src/Logging.antt =====
-- common.c, common.h: the log level and the messages. The time stamp and the formatted message, which
-- the C library makes, are arguments. `none` as a result is a read outside a table.
pub mod Filter
use h_ss.Prelude.{
  ℕ, List, [], ◌∷◌, ◌++◌, Bool, ◌||◌, Option, none, some, if◌then◌else◌, ltb, Bytes, codes, nth,
}

-- The levels of the logging functions.
pub data LogLevel : Type 0 where
  trace debug information warning error fatal : LogLevel

abbrev pub full : ℕ
full = 0

abbrev pub off : ℕ
off = 7

abbrev pub level_number : LogLevel → ℕ
level_number trace = 1
level_number debug = 2
level_number information = 3
level_number warning = 4
level_number error = 5
level_number fatal = 6

abbrev pub initial_level : ℕ
initial_level = level_number information

abbrev pub names : List Bytes
names =
    codes "PLACEHOLDER"
    ∷ codes "TRACE"
    ∷ codes "DEBUG"
    ∷ codes "INFOR"
    ∷ codes "WARNI"
    ∷ codes "ERROR"
    ∷ codes "FATAL"
    ∷ []

abbrev pub escape : Bytes → Bytes
escape s = 27 ∷ s

abbrev pub before_output : List Bytes
before_output =
    codes "PLACEHOLDER"
    ∷ escape (codes "[2m")
    ∷ []
    ∷ escape (codes "[36m")
    ∷ escape (codes "[33m")
    ∷ escape (codes "[35m")
    ∷ escape (codes "[1;4;31m")
    ∷ []

abbrev pub after_output : List Bytes
after_output =
    codes "PLACEHOLDER"
    ∷ escape (codes "[0m")
    ∷ escape (codes "[0m")
    ∷ escape (codes "[0m")
    ∷ escape (codes "[0m")
    ∷ escape (codes "[0m")
    ∷ escape (codes "[0m")
    ∷ []

-- What is written to the error stream at the log level `log_level`.
unfoldable pub logging_implementation : ℕ → ℕ → Bytes → Bytes → Option Bytes
logging_implementation log_level level time message =
    if ltb level log_level then some [] else elim (nth before_output level) [
      | none ↦ none
      | some before ↦ elim (nth names level) [
        | none ↦ none
        | some name ↦ elim (nth after_output level) [
          | none ↦ none
          | some after ↦ some (
              before
              ++ (codes "["
                  ++ (time ++ (codes "][" ++ (name ++ (codes "] " ++ (message ++ after)))))))
        ]
      ]
    ]

abbrev pub log : ℕ → LogLevel → Bytes → Bytes → Option Bytes
log log_level level = logging_implementation log_level (level_number level)

-- The new log level.
unfoldable pub logging_set_level : ℕ → ℕ → ℕ
logging_set_level log_level level = if ltb level full || ltb off level then log_level else level

-- The levels that a program sets, one after the other.
unfoldable pub set_levels : ℕ → List ℕ → ℕ
set_levels log_level [] = log_level
set_levels log_level (l ∷ ls) = set_levels (logging_set_level log_level l) ls
