-- ===== src/Headers/Tests.antt =====
-- Header lists at concrete inputs, and the theorems applied there.
use h_ss.Prelude.{◌≡◌, refl, [], ◌∷◌, some, Bytes, codes, c_str, strcmp, lex}
use h_ss.Headers.{Header, Headers, get, same, precedes, insert_header}
use h_ss.Headers.Lookup.{find, IsSorted, get-find}

abbrev header : Bytes → Bytes → Header
header k v = record { key = k; value = v }

abbrev pair : Headers
pair = header (codes "Accept") (codes "b") ∷ header (codes "Host") (codes "x") ∷ []

abbrev cookie : Header
cookie = header (codes "Cookie") (codes "c")

abbrev three : Headers
three = header (codes "Accept") (codes "b") ∷ cookie ∷ header (codes "Host") (codes "x") ∷ []

pair-IsSorted : IsSorted pair
unfolding strcmp lex c_str
pair-IsSorted = (refl, (tt, tt))

insert_cookie : insert_header pair cookie ≡ some three
unfolding insert_header precedes same strcmp lex c_str
insert_cookie = refl

get-find_example : get pair (codes "Cookie") ≡ find pair (codes "Cookie")
get-find_example = get-find pair (codes "Cookie") pair-IsSorted
