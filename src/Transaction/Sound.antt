-- ===== src/Transaction/Sound.antt =====
-- server.c: a transaction leaves a response that can be rendered and filled again.
use std.Path.{subst}
use mathlib.Core.Option
use h_ss.Prelude.{
  ℕ, ◌<◌, ◌≡◌, refl, sym, ◌∙◌, inl, inr, arith, Option, none, some, ◌==◌, Bytes, codes, length,
  drop, Bool-cases,
}
use h_ss.Range.{Range, parse_range}
use h_ss.Request.{Request}
use h_ss.Response.{
  Response, http_ok, http_partial_content, http_moved_permanently, http_response_set_code,
  http_response_set_header, http_response_set_body, content_length, complete,
}
use h_ss.Response.Valid.{
  IsValid, NotDangling, set_code-IsValid, set_header-IsValid, set_body-IsValid,
}
use h_ss.Descriptors.{DescriptorType}
use h_ss.Statics.{ok, Statics}
use h_ss.Transaction.{World, handle_http_transaction}
use h_ss.Transaction.Content.{content_range, real_length, describe_content, serve_content}
use h_ss.Transaction.Paths.{transaction-Always}

-- A valid response whose description is not freed.
abbrev pub IsSound : Response → Type 0
IsSound r = IsValid r × NotDangling r.state_line.description

pub set_code-IsSound :
    (r t : Response) (code : ℕ)
    → code < 10
    → IsSound r
    → http_response_set_code r code none ≡ some t
    → IsSound t
set_code-IsSound r t code small (v, nd) e =
    let (u, made, valid, usable, _, _) = set_code-IsValid r code none v nd (inl small) in
    subst IsSound (Option.some-injective u t (sym made ∙ e)) (valid, usable)

pub set_header-IsSound :
    (r : Response) (key value : Bytes) → IsSound r → IsSound (http_response_set_header r key value)
unfolding http_response_set_header
set_header-IsSound r key value (v, nd) =
    (unfold http_response_set_header in set_header-IsValid r key value v, nd)

pub complete-IsSound : (r : Response) → IsSound r → IsSound (complete r)
unfolding complete
complete-IsSound r v = elim (Bool-cases (r.body.length == 0)) [
  | inl empty ↦ rw empty (set_header-IsSound r content_length (codes "0") v)
  | inr more ↦ rw more v
]

set_body-IsSound :
    (r t : Response) (body : Bytes) (n : Option ℕ)
    → IsSound r
    → http_response_set_body r body n ≡ some t
    → IsSound t
set_body-IsSound r t body n (v, nd) e =
    let (valid, same) = set_body-IsValid r body n t v e in
    (valid, subst (λ l. NotDangling l.description) (sym same) nd)

describe_content-IsSound :
    (r t : Response) (range : Range) (size : ℕ)
    → IsSound r
    → describe_content r range size ≡ some t
    → IsSound t
describe_content-IsSound r t range size v e = elim (Bool-cases (range.start == range.end)) [
  | inl full ↦ set_code-IsSound r t http_ok (omega arith) v (rw full at e)
  | inr part ↦ go (http_response_set_code r http_partial_content none) refl (rw part at e)
]
  where
    go :
        (o : Option Response)
        → http_response_set_code r http_partial_content none ≡ o
        → (elim o as (λ _. Option Response) [
          | none ↦ none
          | some u ↦
              some (http_response_set_header u (codes "Content-Range") (content_range range size))
        ])
          ≡ some t
        → IsSound t
    go none h k = cc
    go (some u) h k = subst IsSound (Option.some-injective _ t k) (
        set_header-IsSound u (codes "Content-Range") (content_range range size)
          (set_code-IsSound r u http_partial_content (omega arith) v h))

serve_content-IsSound :
    (r t : Response) (value : Option Bytes) (content : Bytes)
    → IsSound r
    → serve_content r value content ≡ some t
    → IsSound t
unfolding serve_content
serve_content-IsSound r t value content v e = by_range (parse_range value (length content)) e
  where
    by_body :
        (range : Range) (o : Option Response)
        → http_response_set_body r
            (drop range.start content)
            (some (real_length range (length content)))
          ≡ o
        → (elim o as (λ _. Option Response) [
          | none ↦ none
          | some u ↦ describe_content u range (length content)
        ])
          ≡ some t
        → IsSound t
    by_body range none h k = cc
    by_body range (some u) h k =
        describe_content-IsSound u t range (length content) (set_body-IsSound r u _ _ v h) k

    by_range :
        (o : Option Range)
        → (elim o as (λ _. Option Response) [
          | none ↦ none
          | some range ↦
              elim (http_response_set_body r
                  (drop range.start content)
                  (some (real_length range (length content))))
                as (λ _. Option Response) [
                  | none ↦ none
                  | some u ↦ describe_content u range (length content)
                ]
        ])
          ≡ some t
        → IsSound t
    by_range none k = cc
    by_range (some range) k = by_body range _ refl k

-- A transaction on a valid response whose description is not freed leaves such a response.
pub transaction-IsSound :
    (w : World) (type : DescriptorType) (s t : Statics) (request : Request) (response r : Response)
    → IsSound response
    → handle_http_transaction w type s request response ≡ ok (t, r)
    → IsSound r
transaction-IsSound w type s t request response r v e = rw e at (
    transaction-Always w s request response (λ _ q. IsSound q)
      (λ u code q small g keeps h. set_code-IsSound response q code small v h)
      (λ q value h.
        set_header-IsSound q (codes "Location") value
          (set_code-IsSound response q http_moved_permanently (omega arith) v h))
      (λ d range content q h. serve_content-IsSound response q range content v h) type)
