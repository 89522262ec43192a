-- ===== src/Transaction/Within.antt =====
-- server.c: a range that ends within the file.
use h_ss.Prelude.{
  ℕ, ◌+◌, ◌-◌, ◌^◌, ◌≤◌, ◌<◌, ◌≡◌, refl, ap, ◌∙◌, arith, false, ◌∷◌, ◌++◌, Option, none, some, ◌==◌,
  ltb, Bytes, codes, length, take, drop, length-drop,
}
use h_ss.Decimal.{decimal}
use h_ss.Response.{
  Response, StateLine, http_partial_content, free_description, choose_description, describe,
  content_length, http_response_set_code, http_response_set_header, http_response_set_body,
}
use h_ss.Range.{Range}
use h_ss.Range.Header.{parse_range-first_last}
use h_ss.Transaction.Content.{content_range, real_length, describe_content, serve_content}

describe_content-partial :
    (t : Response) (range : Range) (size : ℕ) (s : StateLine)
    → (range.start == range.end) ≡ false
    → free_description t.state_line ≡ some s
    → (u : Response) × (describe_content t range size ≡ some u) × (u.body ≡ t.body)
unfolding http_response_set_code http_response_set_header
describe_content-partial t range size s e h = (
  http_response_set_header
      (record t {
        state_line =
            describe (record s { code = http_partial_content })
              (choose_description http_partial_content none);
      })
      (codes "Content-Range") (content_range range size),
  rw (e, h) refl,
  refl,
)

set_body-fits :
    (r : Response) (block : Bytes) (n : ℕ)
    → n ≤ length block
    → (t : Response) × (http_response_set_body r block (some n) ≡ some t)
      × (t.state_line ≡ r.state_line)
      × (t.body ≡ record { body = some (take n block); length = n })
unfolding http_response_set_body http_response_set_header
set_body-fits r block n h =
    let fits : ltb (length block) n ≡ false = ground arith in
    (
      http_response_set_header
          (record r { body = record { body = some (take n block); length = n } }) content_length
          (decimal n),
      rw fits refl,
      refl,
      refl,
    )

-- The header `bytes=a-b` with decimal numbers, a at most b and b below the size of the file, which
-- is below 2^63: the answer's body is the bytes a to b of the file, if the description of the
-- response is not a freed one.
pub serve_content-body :
    (r : Response) (s : StateLine) (content : Bytes) (a b : ℕ)
    → a ≤ b
    → b < length content
    → length content < 2 ^ 63
    → free_description r.state_line ≡ some s
    → (t : Response) × (serve_content r
          (some (codes "bytes=" ++ (decimal a ++ (b'-' ∷ decimal b))))
          content
        ≡ some t)
      × (t.body ≡ record { body = some (take (b + 1 - a) (drop a content)); length = b + 1 - a })
unfolding serve_content
serve_content-body r s content a b h k l f =
    let range : Range = record { start = a; end = b + 1 } in
    let apart : (a == b + 1) ≡ false = ground arith in
    let whole : real_length range (length content) ≡ b + 1 - a = rw apart refl in
    let filled =
      set_body-fits r (drop a content) (b + 1 - a) (omega (arith, length-drop a content)) in
    let described =
      describe_content-partial filled.0 range (length content) s apart
        (ap free_description filled.2 ∙ f) in
    (
      described.0,
      ap with_range (parse_range-first_last a b (length content) h (omega arith))
          ∙ ap (λ n. with_response (http_response_set_body r (drop a content) (some n))) whole
          ∙ ap with_response filled.1
          ∙ described.1,
      described.2 ∙ filled.3,
    )
  where
    with_response : Option Response → Option Response
    with_response o = elim o [
      | none ↦ none
      | some t ↦ describe_content t (record { start = a; end = b + 1 }) (length content)
    ]

    with_range : Option Range → Option Response
    with_range o = elim o [
      | none ↦ none
      | some range ↦
          elim (http_response_set_body r (drop range.start content)
            (some (real_length range (length content)))) [
              | none ↦ none
              | some t ↦ describe_content t range (length content)
            ]
    ]
