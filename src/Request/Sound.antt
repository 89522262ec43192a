-- ===== src/Request/Sound.antt =====
-- Every buffer that the parser takes is a message of the grammar.
use h_ss.Prelude.{
  ◌+◌, ◌≡◌, ◌≢◌, refl, inl, inr, sym, ap, ◌∙◌, true, List, [], ◌∷◌, ◌++◌, some, arith, Bytes, codes,
  length, All, Bool-cases,
}
use h_ss.Headers.{Headers}
use h_ss.Request.{
  Request, ok, cleared, parsed, parse_headers, range_non_blank, skip_whitespaces, strncmp_eq,
  parse_method, parse_token, take_token, parse_start_line, expect_crlf, with_url, with_version,
  with_method, http_request_from_buffer, http_request_destroy, finish,
}
use h_ss.Request.Tokens.{
  IsBlank, IsInk, IsToken, Stops, Starts, range_non_blank_sound, skip_whitespaces_sound,
  strncmp_eq-append,
}
use h_ss.Request.Grammar
use h_ss.Request.Methods.{method_language}
use h_ss.Request.Lines.{bind-eq-ok, parse_headers_sound}

take_token_sound :
    (r : Request) (p : Bytes × Bytes) (t rest : Bytes)
    → take_token r p ≡ ok (t, rest)
    → (p ≡ (t, rest)) × (t ≢ [])
unfolding take_token
take_token_sound r ([], b) t rest e = cc
take_token_sound r (c ∷ cs, b) t rest e = (ground arith, ground arith)

parse_token_sound :
    (r : Request) (b t rest : Bytes)
    → parse_token r b ≡ ok (t, rest)
    → (b ≡ t ++ rest) × IsToken t × Stops rest
unfolding parse_token
parse_token_sound r b t rest e =
    let (same', ne) = take_token_sound r (range_non_blank b) t rest e in
    let (split, ink, stops) = range_non_blank_sound b in
    (rw same' at split, (ne, rw same' at ink), rw same' at stops)

expect_crlf_sound : (r : Request) (b rest : Bytes) → expect_crlf r b ≡ ok rest → b ≡ 13 ∷ 10 ∷ rest
unfolding expect_crlf
expect_crlf_sound r [] rest e = cc
expect_crlf_sound r (c ∷ []) rest e = cc
expect_crlf_sound r (c ∷ d ∷ b) rest e = ground arith

split-IsGap :
    (gap rest b : Bytes)
    → b ≡ gap ++ rest
    → Stops b
    → All IsBlank gap
    → Starts rest
    → Grammar.IsGap gap
split-IsGap [] [] b e stops blank starts = absurd starts
split-IsGap [] (c ∷ rest) b e stops blank starts = absurd (ground arith)
split-IsGap (c ∷ gap) rest b e stops blank starts = (λ n. cc, blank)

-- The blanks between two tokens.
skip_whitespaces-IsGap :
    (r : Request) (b rest : Bytes)
    → Stops b
    → skip_whitespaces r b ≡ ok rest
    → (gap : Bytes) × (b ≡ gap ++ rest) × Grammar.IsGap gap
skip_whitespaces-IsGap r b rest stops e =
    let (gap, split, blank, starts) = skip_whitespaces_sound r b rest e in
    (gap, split, split-IsGap gap rest b split stops blank starts)

parse_method_sound :
    (r r' : Request) (b rest : Bytes)
    → parse_method r b ≡ ok (r', rest)
    → (m : Bytes) × (gap : Bytes) × (b ≡ m ++ (gap ++ rest))
      × All IsInk m
      × (strncmp_eq (codes "GET") m (length m) ≡ true)
      × Grammar.IsGap gap
      × (r' ≡ with_method r)
unfolding parse_method
parse_method_sound r r' b rest e = elim (Bool-cases (strncmp_eq (codes "GET") b (length m))) [
  | inr t ↦ absurd (ground arith)
  | inl t ↦
      let (a, skipped, done) =
        bind-eq-ok (skip_whitespaces (with_method r) after) (λ a. ok (with_method r, a))
          (rw t at e) in
      let skipped' : skip_whitespaces (with_method r) after ≡ ok rest = ground arith in
      let (gap, parts, isgap) =
        skip_whitespaces-IsGap (with_method r) after rest sound.2 skipped' in
      (
        m,
        gap,
        sound.0 ∙ ap (◌++◌ m) parts,
        sound.1,
        sym (strncmp_eq-append (codes "GET") m after)
            ∙ ap (λ x. strncmp_eq (codes "GET") x (length m)) (sym sound.0)
            ∙ t,
        isgap,
        ground arith,
      )
]
  where
    m : Bytes
    m = (range_non_blank b).0

    after : Bytes
    after = (range_non_blank b).1

    sound : (b ≡ m ++ after) × All IsInk m × Stops after
    sound = range_non_blank_sound b

record ReadsStart (r : Request) (b : Bytes) (p : Request × Bytes) : Type 0 where
  m : Grammar.Message
  whole : b ≡ m.method ++ (m.gap ++ (m.url ++ (m.gap' ++ (m.version ++ (13 ∷ 10 ∷ p.1)))))
  valid :
      (ls : List Grammar.Line) → All Grammar.IsLine ls → Grammar.IsMessage (record m { lines = ls })
  result : p.0 ≡ with_version (with_url (with_method r) m.url) m.version

-- The pieces of a start line, in the order of the reads, put together.
ReadsStart-pieces :
    (r r₁ : Request) (b b₁ b₂ b₃ b₄ b₅ url version : Bytes) (p : Request × Bytes)
    → parse_method r b ≡ ok (r₁, b₁)
    → parse_token r₁ b₁ ≡ ok (url, b₂)
    → skip_whitespaces (with_url r₁ url) b₂ ≡ ok b₃
    → parse_token (with_url r₁ url) b₃ ≡ ok (version, b₄)
    → expect_crlf (with_version (with_url r₁ url) version) b₄ ≡ ok b₅
    → ok (with_version (with_url r₁ url) version, b₅) ≡ ok p
    → ReadsStart r b p
ReadsStart-pieces r r₁ b b₁ b₂ b₃ b₄ b₅ url version p e₁ e₂ e₃ e₄ e₅ e₆ =
    let (m, gap, split₁, ink, getting, isgap, made) = parse_method_sound r r₁ b b₁ e₁ in
    let (split₂, token, stops) = parse_token_sound r₁ b₁ url b₂ e₂ in
    let (gap', split₃, isgap') = skip_whitespaces-IsGap (with_url r₁ url) b₂ b₃ stops e₃ in
    let (split₄, token', stops') = parse_token_sound (with_url r₁ url) b₃ version b₄ e₄ in
    let split₅ = expect_crlf_sound (with_version (with_url r₁ url) version) b₄ b₅ e₅ in
    let p' : p ≡ (with_version (with_url r₁ url) version, b₅) = ground arith in
    rw p' (record {
      m = record { method = m; gap = gap; url = url; gap' = gap'; version = version; lines = [] };
      whole = rw (split₁, split₂, split₃, split₄, split₅) refl;
      valid = λ ls v. record {
        method_ink = ink;
        method_get = (method_language m).0 getting;
        gap_blank = isgap;
        url_token = token;
        gap'_blank = isgap';
        version_token = token';
        lines_valid = v;
      };
      result = rw made refl;
    })

parse_start_line_sound :
    (r : Request) (b : Bytes) (p : Request × Bytes) → parse_start_line r b ≡ ok p → ReadsStart r b p
unfolding parse_start_line
parse_start_line_sound r b p e =
    let ((r₁, b₁), e₁, k₁) = bind-eq-ok (parse_method r b) _ e in
    let ((url, b₂), e₂, k₂) = bind-eq-ok (parse_token r₁ b₁) _ k₁ in
    let (b₃, e₃, k₃) = bind-eq-ok (skip_whitespaces (with_url r₁ url) b₂) _ k₂ in
    let ((version, b₄), e₄, k₄) = bind-eq-ok (parse_token (with_url r₁ url) b₃) _ k₃ in
    let (b₅, e₅, k₅) = bind-eq-ok (expect_crlf (with_version (with_url r₁ url) version) b₄) _ k₄ in
    ReadsStart-pieces r r₁ b b₁ b₂ b₃ b₄ b₅ url version p e₁ e₂ e₃ e₄ e₅ k₅

-- A buffer read as a message of the grammar.
pub record IsRead (b : Bytes) (r : Request) : Type 0 where
  pub message : Grammar.Message
  pub hs : Headers
  pub whole : b ≡ Grammar.print_message message []
  pub valid : Grammar.IsMessage message
  pub added : Grammar.insert_all [] message.lines ≡ some hs
  pub result : r ≡ Grammar.request_of message hs

finish_sound :
    (p : Request × Bytes) (r : Request)
    → finish p ≡ ok r
    → (p.1 ≡ []) × (r ≡ record p.0 { state = parsed })
unfolding finish
finish_sound (q, []) r e = (refl, ground arith)
finish_sound (q, c ∷ b) r e = cc

IsRead-pieces :
    (b b₁ : Bytes) (r r₁ : Request) (p : Request × Bytes)
    → parse_start_line cleared b ≡ ok (r₁, b₁)
    → parse_headers (length b₁ + 1) r₁ b₁ ≡ ok p
    → finish p ≡ ok r
    → IsRead b r
IsRead-pieces b b₁ r r₁ p e₁ e₂ e₃ =
    let start = parse_start_line_sound cleared b (r₁, b₁) e₁ in
    let rest = parse_headers_sound (length b₁ + 1) r₁ b₁ p e₂ in
    let (done, last) = finish_sound p r e₃ in
    record {
      message = record start.m { lines = rest.lines };
      hs = rest.hs;
      whole = start.whole ∙ rw (rest.whole, done) refl;
      valid = start.valid rest.lines rest.valid;
      added = rw start.result at rest.added;
      result = last ∙ rw (rest.result, start.result) refl;
    }

-- Only messages of the grammar are read, and each as what it means.
pub from_cleared_sound :
    (b : Bytes) (r : Request) → http_request_from_buffer cleared b ≡ ok r → IsRead b r
unfolding http_request_from_buffer http_request_destroy
from_cleared_sound b r e =
    let ((r₁, b₁), e₁, k₁) = bind-eq-ok (parse_start_line cleared b) _ e in
    let (p, e₂, e₃) = bind-eq-ok (parse_headers (length b₁ + 1) r₁ b₁) _ k₁ in
    IsRead-pieces b b₁ r r₁ p e₁ e₂ e₃
