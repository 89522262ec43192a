-- ===== src/Statics/Directory.antt =====
-- server.c: `current_working_directory`.
use h_ss.Prelude.{
  ◌+◌, ◌<◌, ◌≡◌, ◌⊎◌, inl, inr, refl, arith, true, false, [], ◌∷◌, ◌++◌, Option, some, ltb, Bytes,
  length, length-append, Bool-cases,
}
use h_ss.Statics.{ok, fault, WorkingDirectory, ends_with_slash, current_working_directory}

-- The stored length is that of the path, and the path ends with a slash.
pub record IsStored (d : WorkingDirectory) : Type 0 where
  pub measured : d.length ≡ length d.path
  pub slash : ends_with_slash d.path ≡ true
  pub filled : d.initialize ≡ false

ends_with_slash-append : (s : Bytes) → ends_with_slash (s ++ (b'/' ∷ [])) ≡ true
ends_with_slash-append [] = refl
ends_with_slash-append (c ∷ []) = refl
ends_with_slash-append (c ∷ d ∷ s) = ends_with_slash-append (d ∷ s)

-- Where the path that `getcwd` gives ends with a slash or has fewer than 1023 bytes, the first call
-- stores it with a final slash and its length, and a call after that changes nothing.
pub current_working_directory-IsStored :
    (s : WorkingDirectory) (path : Bytes) (other : Option Bytes)
    → s.initialize ≡ true
    → (ends_with_slash path ≡ true) ⊎ (length path < 1023)
    → (d : WorkingDirectory) × (current_working_directory s (some path) ≡ ok d)
      × IsStored d
      × (current_working_directory d other ≡ ok d)
unfolding current_working_directory
current_working_directory-IsStored s path other first fits =
    elim (Bool-cases (ends_with_slash path)) [
      | inl e ↦ (
        record { initialize = false; length = length path; path = path },
        rw (first, e) refl,
        record { measured = refl; slash = e; filled = refl },
        refl,
      )
      | inr e ↦
          let room : ltb 1022 (length path) ≡ false = ground arith in
          (
            record { initialize = false; length = length path + 1; path = path ++ (b'/' ∷ []) },
            rw (first, e, room) refl,
            record {
              measured = omega (arith, length-append path (b'/' ∷ []));
              slash = ends_with_slash-append path;
              filled = refl;
            },
            refl,
          )
    ]

-- A path of 1023 bytes without a slash at its end is written past the end of the array.
pub current_working_directory-overflow :
    (s : WorkingDirectory) (path : Bytes)
    → s.initialize ≡ true
    → ends_with_slash path ≡ false
    → length path ≡ 1023
    → current_working_directory s (some path) ≡ fault
unfolding current_working_directory
current_working_directory-overflow s path first e n = ground arith
