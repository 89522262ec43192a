-- ===== src/Response/Framing.antt =====
-- The Content-Length header tells the length of the body, whatever was done to the response.
use h_ss.Prelude.{
  ℕ, zero, suc, ◌≤◌, ◌<◌, ◌≡◌, ◌≢◌, ◌⊎◌, refl, sym, ap, ◌∙◌, inl, inr, true, false, List, [], ◌∷◌,
  Option, none, some, arith, Bytes, codes, length, take, ◌==◌, Bool-cases, c_str-NoNul,
}
use h_ss.Decimal.{decimal, decimal-NoNul}
use h_ss.Headers.{same}
use h_ss.Headers.Lookup.{find, find-set_header}
use h_ss.Headers.Order.{strcmp_self}
use h_ss.Request.{Body}
use h_ss.Response.{
  Response, live, http_response_initialize, http_response_set_code, http_response_set_header,
  http_response_set_body, complete, content_length, length_of_body, free_description,
  get_default_description, nth, descriptions,
}
use h_ss.Response.Valid.{
  IsValid, NotDangling, initialize-IsValid, set_code-IsValid, set_header-IsValid, set_body-IsValid,
  complete-IsValid,
}

-- The calls that change a response.
pub data Call : Type 0 where
  set_code : ℕ → Option Bytes → Call
  set_header : Bytes → Bytes → Call
  set_body : Bytes → Option ℕ → Call

unfoldable pub call : Response → Call → Option Response
call r (set_code code description) = http_response_set_code r code description
call r (set_header key value) = some (http_response_set_header r key value)
call r (set_body body n) = http_response_set_body r body n

unfoldable pub run : Response → List Call → Option Response
run r [] = some r
run r (c ∷ cs) = elim (call r c) [ none ↦ none | some r' ↦ run r' cs ]

-- A mapped code or a description, a header other than Content-Length, a body that is as long as
-- it is told to be.
abbrev pub IsProper : Call → Type 0
IsProper (set_code code description) = (code < 10) ⊎ (description ≢ none)
IsProper (set_header key value) = same key content_length ≡ false
IsProper (set_body body n) = length_of_body body n ≤ length body

abbrev pub AllProper : List Call → Type 0
AllProper [] = Unit {0}
AllProper (c ∷ cs) = IsProper c × AllProper cs

pub record IsFramed (r : Response) : Type 0 where
  pub valid : IsValid r
  pub usable : NotDangling r.state_line.description
  pub framed : (r.body.length ≡ 0) ⊎ (find r.headers content_length ≡ some (decimal r.body.length))

pub same_self : (k : Bytes) → same k k ≡ true
unfolding same
same_self k = ground (arith, strcmp_self k)

-- A response whose body has been set.
bodied : Response → Bytes → ℕ → Response
bodied r body size =
    http_response_set_header
      (record r { body = record { body = some (take size body); length = size } }) content_length
      (decimal size)

call-IsFramed :
    (r : Response) (c : Call)
    → IsFramed r
    → IsProper c
    → (r' : Response) × (call r c ≡ some r') × IsFramed r'
unfolding call
call-IsFramed r (set_code code description) f p =
    let (r', made, valid, usable, hs, body) =
      set_code-IsValid r code description f.valid f.usable p in
    (r', made, record { valid = valid; usable = usable; framed = rw (hs, body) f.framed })
call-IsFramed r (set_header key value) f p = (
  http_response_set_header r key value,
  refl,
  record {
    valid = set_header-IsValid r key value f.valid;
    usable = unfold http_response_set_header in f.usable;
    framed = framed_by f.framed;
  },
)
  where
    framed_by :
        (r.body.length ≡ 0) ⊎ (find r.headers content_length ≡ some (decimal r.body.length))
        → ((http_response_set_header r key value).body.length ≡ 0)
          ⊎ (find (http_response_set_header r key value).headers content_length
              ≡ some (decimal (http_response_set_header r key value).body.length))
    framed_by e =
        unfold http_response_set_header in
        ground (arith, find-set_header r.headers key value content_length f.valid.sorted)
call-IsFramed r (set_body body n) f p =
    let out = bodied r body (length_of_body body n) in
    let made : http_response_set_body r body n ≡ some out =
      unfold http_response_set_body bodied in ground arith in
    let (valid, same_line) = set_body-IsValid r body n out f.valid made in
    (
      out,
      made,
      record {
        valid = valid;
        usable = rw same_line f.usable;
        framed = inr (
            unfold bodied http_response_set_header in
            find-set_header r.headers content_length (decimal (length_of_body body n))
              content_length f.valid.sorted
            ∙ rw (
              same_self content_length,
              c_str-NoNul (decimal (length_of_body body n)) (decimal-NoNul _),
            ));
      },
    )

run-IsFramed :
    (r : Response) (cs : List Call)
    → IsFramed r
    → AllProper cs
    → (r' : Response) × (run r cs ≡ some r') × IsFramed r'
unfolding run
run-IsFramed r [] f p = (r, refl, f)
run-IsFramed r (c ∷ cs) f p =
    let (r₁, made, f₁) = call-IsFramed r c f p.0 in
    let (r₂, made', f₂) = run-IsFramed r₁ cs f₁ p.1 in (r₂, rw (made, run) made', f₂)

initialize-IsFramed : (r : Response) → IsFramed (http_response_initialize r)
unfolding http_response_initialize
initialize-IsFramed r = record { valid = initialize-IsValid r; usable = λ e. cc; framed = inl refl }

decimal_zero : decimal 0 ≡ codes "0"
unfolding decimal
decimal_zero = refl

find-complete :
    (r : Response)
    → IsFramed r
    → (find (complete r).headers content_length ≡ some (decimal r.body.length))
      × ((complete r).body ≡ r.body)
unfolding complete http_response_set_header
find-complete r f = elim (Bool-cases (r.body.length == 0)) [
  | inl z ↦
      let zero_length : r.body.length ≡ 0 = ground arith in
      (
        rw z (
            find-set_header r.headers content_length (codes "0") content_length f.valid.sorted
            ∙ rw (
              same_self content_length,
              c_str-NoNul (codes "0") ((λ e. cc), tt),
              zero_length,
              decimal_zero,
            )),
        rw z,
      )
  | inr more ↦ (rw more (ground arith), rw more)
]

-- Whatever proper calls are made on a fresh response, each of them works, and the response that is
-- then rendered is valid and announces in Content-Length just the length of the body it carries.
pub run-content_length :
    (r : Response) (cs : List Call)
    → AllProper cs
    → (r' : Response) × (run (http_response_initialize r) cs ≡ some r')
      × IsValid (complete r')
      × (find (complete r').headers content_length ≡ some (decimal (complete r').body.length))
run-content_length r cs p =
    let (r', made, f) = run-IsFramed (http_response_initialize r) cs (initialize-IsFramed r) p in
    let (found, kept) = find-complete r' f in
    (
      r',
      made,
      complete-IsValid r' f.valid,
      found ∙ ap (λ b. some (decimal (Body.length b))) (sym kept),
    )

nth-none : (xs : List Bytes) (i : ℕ) → length xs ≤ i → nth xs i ≡ none
nth-none [] i h = refl
nth-none (x ∷ xs) zero h = absurd (omega arith)
nth-none (x ∷ xs) (suc i) h = nth-none xs i (omega arith)

-- A code outside the table, set with no description on a response that has one, leaves a freed
-- description behind: the next call frees it again.
pub set_code_double_free :
    (r r' : Response) (d : Bytes) (code code' : ℕ) (description : Option Bytes)
    → r.state_line.description ≡ live d
    → 10 ≤ code
    → http_response_set_code r code none ≡ some r'
    → http_response_set_code r' code' description ≡ none
unfolding http_response_set_code free_description get_default_description
set_code_double_free r r' d code code' description e far made =
    ground (arith, nth-none descriptions code far)
