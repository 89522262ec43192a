-- ===== src/Statics.antt =====
-- server.c: the static variables of its functions, and what a call comes to. The static list of
-- descriptors is in Descriptors.
pub mod Directory
use h_ss.Prelude.{
  ◌≡◌, refl, ℕ, ◌+◌, Bool, true, false, [], ◌∷◌, ◌++◌, Option, none, some, if◌then◌else◌, ◌==◌, ltb,
  Bytes, length,
}
use h_ss.Authorization.{Authorization}

-- A value, the end of the process by `exit`, or undefined behaviour.
pub data Outcome {ℓ} (A : Type ℓ) : Type ℓ where
  ok : A → Outcome A
  exits : Outcome A
  fault : Outcome A

infixl 5 ◌>>=◌
abbrev pub ◌>>=◌ {ℓ κ} : {A : Type ℓ} {B : Type κ} → Outcome A → (A → Outcome B) → Outcome B
ok a >>= f = f a
exits >>= f = exits
fault >>= f = fault

pub >>=-ext {ℓ κ} :
    {A : Type ℓ} {B : Type κ} (m : Outcome A) (f g : A → Outcome B)
    → ((a : A) → f a ≡ g a)
    → (m >>= f) ≡ (m >>= g)
>>=-ext (ok a) f g h = h a
>>=-ext exits f g h = refl
>>=-ext fault f g h = refl

-- `none` is undefined behaviour in the other modules.
abbrev pub defined {ℓ} : {A : Type ℓ} → Option A → Outcome A
defined none = fault
defined (some a) = ok a

-- `current_directory`: its first four bytes as a number, and the string behind them.
pub record WorkingDirectory : Type 0 where
  pub initialize : Bool
  pub length : ℕ
  pub path : Bytes

pub record Statics : Type 0 where
  pub running : Bool
  pub log_level : ℕ
  pub authorization : Authorization
  pub directory : WorkingDirectory

abbrev pub ends_with_slash : Bytes → Bool
ends_with_slash [] = false
ends_with_slash (c ∷ []) = c == b'/'
ends_with_slash (c ∷ d ∷ cs) = ends_with_slash (d ∷ cs)

-- The string and its NUL have 1024 bytes of the array: a slash behind a string of 1023 bytes puts the
-- NUL past its end. `getcwd` is what the call of that name writes, or `none` for NULL.
unfoldable pub current_working_directory :
    WorkingDirectory → Option Bytes → Outcome WorkingDirectory
current_working_directory s getcwd =
    if s.initialize
    then elim getcwd [
      | none ↦ exits
      | some path ↦
          if ends_with_slash path
          then ok (record { initialize = false; length = length path; path = path })
          else if ltb 1022 (length path)
          then fault
          else ok
              (record { initialize = false; length = length path + 1; path = path ++ (b'/' ∷ []) })
    ]
    else ok s
