-- ===== src/Authorization/Tests.antt =====
-- The authorization code at concrete words.
use h_ss.Prelude.{◌+◌, ◌^◌, ◌≡◌, refl, true, false, [], some, codes}
use h_ss.Authorization.{Authorization, sextets, shifted, characters, get_authorization_code}

abbrev fresh : Authorization
fresh = record { initialize = true; code = [] }

abbrev used : Authorization
used = record { initialize = false; code = codes "1000000000W000000000Q00000000001" }

first_run : get_authorization_code fresh 1 16 (2 ^ 60 + 42) ≡ some used
unfolding get_authorization_code sextets shifted characters
first_run = refl
