-- ===== src/Transaction/PastEnd.antt =====
-- server.c: a range that ends behind the file.
use h_ss.Prelude.{
  ℕ, ◌+◌, ◌-◌, ◌^◌, ◌≤◌, ◌<◌, ◌≡◌, refl, ap, ◌∙◌, arith, Bool, true, false, ◌∷◌, ◌++◌, Option, none,
  some, if◌then◌else◌, ◌==◌, ltb, Bytes, codes, length, drop, length-drop,
}
use h_ss.Decimal.{decimal}
use h_ss.Response.{Response, http_response_set_body}
use h_ss.Range.{Range}
use h_ss.Range.Header.{parse_range-first_last}
use h_ss.Transaction.Content.{real_length, describe_content, serve_content}

set_body-short :
    (r : Response) (block : Bytes) (n : ℕ)
    → length block < n
    → http_response_set_body r block (some n) ≡ none
unfolding http_response_set_body
set_body-short r block n h = let short : ltb (length block) n ≡ true = ground arith in rw short refl

-- The header `bytes=a-b` with decimal numbers, a at most b, b below 2^63 - 1 and not below the size
-- of the file, makes the answer read behind the content of the file.
pub serve_content_past_end :
    (r : Response) (content : Bytes) (a b : ℕ)
    → a ≤ b
    → b < 2 ^ 63 - 1
    → length content ≤ b
    → serve_content r (some (codes "bytes=" ++ (decimal a ++ (b'-' ∷ decimal b)))) content ≡ none
unfolding serve_content
serve_content_past_end r content a b h k l =
    ap with_range (parse_range-first_last a b (length content) h k)
    ∙ ap with_response (
        set_body-short r (drop a content)
          (real_length (record { start = a; end = b + 1 }) (length content))
          (asked (a == b + 1) (ground arith)))
  where
    asked :
        (e : Bool) → e ≡ false → length (drop a content) < (if e then length content else b + 1 - a)
    asked true p = ground arith
    asked false p = omega (arith, length-drop a content)

    with_response : Option Response → Option Response
    with_response o = elim o [
      | none ↦ none
      | some t ↦ describe_content t (record { start = a; end = b + 1 }) (length content)
    ]

    with_range : Option Range → Option Response
    with_range o = elim o [
      | none ↦ none
      | some range ↦
          elim (http_response_set_body r (drop range.start content)
            (some (real_length range (length content)))) [
              | none ↦ none
              | some t ↦ describe_content t range (length content)
            ]
    ]
