-- ===== src/Request/Lines.antt =====
-- The header lines that the parser takes are lines of the grammar.
use h_ss.Prelude.{
  ℕ, zero, suc, ◌+◌, ◌≡◌, ◌≢◌, refl, inl, inr, sym, ap, ◌∙◌, false, List, [], ◌∷◌, ◌++◌, some,
  arith, Bytes, length, All, drop, Option-cases, Bool-cases,
}
use h_ss.Headers.{Headers, insert_header}
use h_ss.Request.{
  Request, Parse, ok, stop, fault, out_of_fuel, ◌>>=◌, parse_headers, parse_header, range_line,
  strchr_colon, any_space, trim_start, trim_end, Colon, found, absent, overrun, store_value,
  add_header, until_crlf,
}
use h_ss.Request.Tokens.{NoCrlf, until_crlf_sound}
use h_ss.Request.Fields.{IsKeyByte, strchr_colon_sound, value-IsTrimmed, drop-key}
use h_ss.Request.Grammar

pub bind-eq-ok {ℓ κ} :
    {A : Type ℓ} {B : Type κ} (m : Parse A) (f : A → Parse B) {b : B}
    → (m >>= f) ≡ ok b
    → (a : A) × (m ≡ ok a) × (f a ≡ ok b)
bind-eq-ok (ok a) f h = (a, refl, h)
bind-eq-ok (stop e r) f h = cc
bind-eq-ok fault f h = cc
bind-eq-ok out_of_fuel f h = cc

-- A header line that was taken, and what it added.
record Reads (r : Request) (line : Bytes) (r' : Request) : Type 0 where
  entry : Grammar.Line
  whole : line ≡ Grammar.line_bytes entry
  valid : Grammar.IsLine entry
  hs : Headers
  added : insert_header r.headers (Grammar.header_of entry) ≡ some hs
  result : r' ≡ record r { headers = hs }

store_value_sound :
    (r r' : Request) (key value : Bytes)
    → store_value r key value ≡ ok r'
    → (value ≢ [])
      × (hs : Headers) × (insert_header r.headers (record { key = key; value = value }) ≡ some hs)
      × (r' ≡ record r { headers = hs })
unfolding store_value add_header
store_value_sound r r' key [] e = cc
store_value_sound r r' key (c ∷ cs) e =
    elim (Option-cases (insert_header r.headers (record { key = key; value = c ∷ cs }))) [
      | inl n ↦ absurd (ground arith)
      | inr (hs, m) ↦ (λ x. cc, hs, m, ground arith)
    ]

colon_taken :
    (r r' : Request) (line rest : Bytes)
    → parse_header r line rest ≡ ok r'
    → (key : Bytes) × (strchr_colon rest ≡ found key)
      × (any_space key ≡ false)
      × (store_value r key (trim_end (trim_start (drop (length key + 1) line))) ≡ ok r')
unfolding parse_header
colon_taken r r' line rest e = go (strchr_colon rest) refl
  where
    go :
        (c : Colon)
        → strchr_colon rest ≡ c
        → (key : Bytes) × (strchr_colon rest ≡ found key)
          × (any_space key ≡ false)
          × (store_value r key (trim_end (trim_start (drop (length key + 1) line))) ≡ ok r')
    go overrun f = absurd (ground arith)
    go absent f = absurd (ground arith)
    go (found key) f = elim (Bool-cases (any_space key)) [
      | inl t ↦ absurd (ground arith)
      | inr t ↦ (key, f, t, ground arith)
    ]

parse_header_sound :
    (r r' : Request) (line rest : Bytes)
    → NoCrlf line
    → parse_header r line (line ++ (13 ∷ rest)) ≡ ok r'
    → Reads r line r'
parse_header_sound r r' line rest one e =
    let (key, f, clean, stored) = colon_taken r r' line (line ++ (13 ∷ rest)) e in
    let (tail, split, bytes) = strchr_colon_sound line rest key f clean in
    go key tail split bytes (trim_end (trim_start tail)) refl
      (rw (ap (λ l. drop (length key + 1) l) split ∙ drop-key key tail) at stored)
  where
    go :
        (key tail : Bytes)
        → line ≡ key ++ (b':' ∷ tail)
        → All IsKeyByte key
        → (value : Bytes) → trim_end (trim_start tail) ≡ value
        → store_value r key (trim_end (trim_start tail)) ≡ ok r'
        → Reads r line r'
    go key tail split bytes [] v stored =
        absurd ((store_value_sound r r' key (trim_end (trim_start tail)) stored).0 v)
    go key tail split bytes (c ∷ cs) v stored =
        let (lead, trail, parts, blank, blank', trimmed) = value-IsTrimmed tail c cs v in
        let (ne, hs, added, result) = store_value_sound r r' key (c ∷ cs) (rw v at stored) in
        let whole : line ≡ key ++ (b':' ∷ (lead ++ ((c ∷ cs) ++ trail))) =
          split ∙ ap (λ t. key ++ (b':' ∷ t)) parts in
        record {
          entry = record { key = key; lead = lead; value = c ∷ cs; trail = trail };
          whole = whole;
          valid = record {
            key_bytes = bytes;
            lead_blank = blank;
            value_trimmed = trimmed;
            trail_blank = blank';
            one_line = rw whole at one;
          };
          hs = hs;
          added = added;
          result = result;
        }

pub record ReadsAll (r : Request) (rest : Bytes) (p : Request × Bytes) : Type 0 where
  pub lines : List Grammar.Line
  pub whole : rest ≡ Grammar.print_lines lines p.1
  pub valid : All Grammar.IsLine lines
  pub hs : Headers
  pub added : Grammar.insert_all r.headers lines ≡ some hs
  pub result : p.0 ≡ record r { headers = hs }

ReadsAll-cons :
    (r r' : Request) (line rest : Bytes) (p : Request × Bytes)
    → Reads r line r'
    → ReadsAll r' rest p
    → ReadsAll r (line ++ (13 ∷ 10 ∷ rest)) p
unfolding Grammar.insert_all
ReadsAll-cons r r' line rest p a b = record {
  lines = a.entry ∷ b.lines;
  whole =
      ap (λ l. l ++ (13 ∷ 10 ∷ rest)) a.whole
      ∙ ap (λ t. Grammar.line_bytes a.entry ++ (13 ∷ 10 ∷ t)) b.whole;
  valid = (a.valid, b.valid);
  hs = b.hs;
  added =
      rw (a.added, Grammar.insert_all)
        (ap (λ (q : Request). Grammar.insert_all q.headers b.lines) (sym a.result) ∙ b.added);
  result = b.result ∙ ap (λ (q : Request). record q { headers = b.hs }) a.result;
}

pub parse_headers_sound :
    (fuel : ℕ) (r : Request) (rest : Bytes) (p : Request × Bytes)
    → parse_headers fuel r rest ≡ ok p
    → ReadsAll r rest p
unfolding parse_headers range_line Grammar.insert_all
parse_headers_sound zero r rest p e = cc
parse_headers_sound (suc fuel) r rest p e = elim (Option-cases (until_crlf rest)) [
  | inl n ↦ absurd (ground arith)
  | inr ((line, crlf), m) ↦
      let (rest', tail, split, one) = until_crlf_sound rest line crlf m in
      go (parse_headers_sound fuel) line crlf rest' m tail split one
]
  where
    go :
        ((q : Request) (b : Bytes) (s : Request × Bytes)
          → parse_headers fuel q b ≡ ok s
          → ReadsAll q b s)
        → (line crlf rest' : Bytes) → until_crlf rest ≡ some (line, crlf)
        → crlf ≡ 13 ∷ 10 ∷ rest'
        → rest ≡ line ++ (13 ∷ 10 ∷ rest')
        → NoCrlf line
        → ReadsAll r rest p
    go ih [] crlf rest' m tail split one =
        let e' : p ≡ (r, rest') = ground arith in
        rw e' (record {
          lines = [];
          whole = split;
          valid = tt;
          hs = r.headers;
          added = refl;
          result = refl;
        })
    go ih (c ∷ line) crlf rest' m tail split one =
        let (r', taken, later) =
          bind-eq-ok (parse_header r (c ∷ line) rest) (λ q. parse_headers fuel q (drop 2 crlf))
            (rw (m, range_line) at e) in
        rw split (
          ReadsAll-cons r r' (c ∷ line) rest' p
            (parse_header_sound r r' (c ∷ line) (10 ∷ rest') one (rw split at taken))
            (ih r' rest' p (rw tail at later)))
