-- ===== src/Request/Grammar.antt =====
-- The messages that the parser is meant to read, as an independent description.
use h_ss.Prelude.{
  ◌≡◌, ◌≢◌, List, [], ◌∷◌, ◌++◌, Option, none, some, Bytes, codes, length, All, Ordering, strcmp,
  take, ◌⊎◌,
}
use h_ss.Headers.{Header, Headers, insert_header}
use h_ss.Request.{Request, parsed, get, cleared}
use h_ss.Request.Tokens.{IsBlank, IsInk, IsToken, NoCrlf}
use h_ss.Request.Fields.{IsKeyByte, IsTrimmed}

-- `<key>:<lead><value><trail>`
pub record Line : Type 0 where
  pub key : Bytes
  pub lead : Bytes
  pub value : Bytes
  pub trail : Bytes

abbrev pub line_bytes : Line → Bytes
line_bytes l = l.key ++ (b':' ∷ (l.lead ++ (l.value ++ l.trail)))

pub record IsLine (l : Line) : Type 0 where
  pub key_bytes : All IsKeyByte l.key
  pub lead_blank : All IsBlank l.lead
  pub value_trimmed : IsTrimmed l.value
  pub trail_blank : All IsBlank l.trail
  pub one_line : NoCrlf (line_bytes l)

-- The lines, the empty line, and what follows.
abbrev pub print_lines : List Line → Bytes → Bytes
print_lines [] rest = 13 ∷ 10 ∷ rest
print_lines (l ∷ ls) rest = line_bytes l ++ (13 ∷ 10 ∷ print_lines ls rest)

pub record Message : Type 0 where
  pub method : Bytes
  pub gap : Bytes
  pub url : Bytes
  pub gap' : Bytes
  pub version : Bytes
  pub lines : List Line

-- The start line and what follows it.
abbrev pub print_start : Message → Bytes → Bytes
print_start m tail = m.method ++ (m.gap ++ (m.url ++ (m.gap' ++ (m.version ++ (13 ∷ 10 ∷ tail)))))

abbrev pub print_message : Message → Bytes → Bytes
print_message m rest = print_start m (print_lines m.lines rest)

abbrev pub IsGap : Bytes → Type 0
IsGap g = (g ≢ []) × All IsBlank g

-- A prefix of GET, the empty one included, or GET, a NUL and anything.
abbrev pub IsGetLike : Bytes → Type 0
IsGetLike m =
    (m ≡ take (length m) (codes "GET")) ⊎ ((rest : Bytes) × (m ≡ codes "GET" ++ (0 ∷ rest)))

pub record IsMessage (m : Message) : Type 0 where
  pub method_ink : All IsInk m.method
  pub method_get : IsGetLike m.method
  pub gap_blank : IsGap m.gap
  pub url_token : IsToken m.url
  pub gap'_blank : IsGap m.gap'
  pub version_token : IsToken m.version
  pub lines_valid : All IsLine m.lines

abbrev pub header_of : Line → Header
header_of l = record { key = l.key; value = l.value }

-- No header has this name, as a C string.
abbrev pub IsNew : Bytes → Headers → Type 0
IsNew k hs = All (λ h. strcmp h.key k ≢ Ordering.eq) hs

-- The header in front of the first one whose name is not smaller.
unfoldable pub place : Header → Headers → Headers
place x [] = x ∷ []
place x (h ∷ hs) =
    let rest = place x hs in elim (strcmp h.key x.key) [ Ordering.lt ↦ h ∷ rest | _ ↦ x ∷ h ∷ hs ]

-- The headers of the lines, in the order of their names.
unfoldable pub place_all : Headers → List Line → Headers
place_all hs [] = hs
place_all hs (l ∷ ls) = place_all (place (header_of l) hs) ls

-- No line has the name of one of these headers, or of an earlier line.
unfoldable pub AreNew : Headers → List Line → Type 0
AreNew hs [] = Unit
AreNew hs (l ∷ ls) = IsNew l.key hs × AreNew (place (header_of l) hs) ls

-- What the parser makes of the lines: `insert_header` for one after the other.
unfoldable pub insert_all : Headers → List Line → Option Headers
insert_all hs [] = some hs
insert_all hs (l ∷ ls) = elim (insert_header hs (header_of l)) [
  | none ↦ none
  | some hs' ↦ insert_all hs' ls
]

-- What a message means.
abbrev pub request_of : Message → Headers → Request
request_of m hs = record cleared {
  state = parsed;
  start_line = record {
    method = get;
    http_version = some m.version;
    http_version_length = length m.version;
    url = some m.url;
    url_length = length m.url;
  };
  headers = hs;
}
