-- ===== src/Response/Valid.antt =====
-- Well-formed responses, and the operations that keep them so.
use h_ss.Prelude.{
  List, ℕ, zero, suc, ◌≤◌, ◌<◌, ◌≡◌, ◌≢◌, ◌⊎◌, refl, ap, sym, inl, inr, [], ◌∷◌, Option, none, some,
  arith, Bytes, codes, length, take, c_str, strlen, ltb, ◌==◌, Bool-cases,
}
use h_ss.Decimal.{decimal}
use h_ss.Headers.Lookup.{IsSorted, set_header-IsSorted, set_header_idem}
use h_ss.Response.{
  Response, Pointer, null, live, dangling, http_response_initialize, http_response_set_code,
  http_response_set_header, http_response_set_body, get_default_description, free_description,
  choose_description, complete, nth, descriptions, content_length, length_of_body,
}

-- The description is NULL or a whole C string of the recorded length; a freed one has length 0.
abbrev pub Describes : Pointer → ℕ → Type 0
Describes null n = n ≡ 0
Describes (live d) n = n ≡ length d
Describes dangling n = n ≡ 0

abbrev pub HoldsBody : Option Bytes → ℕ → Type 0
HoldsBody none n = n ≡ 0
HoldsBody (some b) n = n ≡ length b

abbrev pub NotDangling : Pointer → Type 0
NotDangling p = p ≢ dangling

pub record IsValid (r : Response) : Type 0 where
  pub sorted : IsSorted r.headers
  pub described : Describes r.state_line.description r.state_line.description_length
  pub embodied : HoldsBody r.body.body r.body.length

pub initialize-IsValid : (r : Response) → IsValid (http_response_initialize r)
unfolding http_response_initialize
initialize-IsValid r = record { sorted = tt; described = refl; embodied = refl }

nth-some : (xs : List Bytes) (i : ℕ) → i < length xs → (x : Bytes) × (nth xs i ≡ some x)
nth-some [] i h = absurd (omega arith)
nth-some (x ∷ xs) zero h = (x, refl)
nth-some (x ∷ xs) (suc i) h = nth-some xs i (omega arith)

-- The table has a description for every code of the enumeration.
default-some : (code : ℕ) → code < 10 → (d : Bytes) × (get_default_description code ≡ some d)
unfolding get_default_description
default-some code h = nth-some descriptions code (omega arith)

chosen-some :
    (code : ℕ) (description : Option Bytes)
    → (code < 10) ⊎ (description ≢ none)
    → (d : Bytes) × (choose_description code description ≡ some d)
chosen-some code none (inl h) = default-some code h
chosen-some code none (inr h) = absurd (h refl)
chosen-some code (some d) h = (d, refl)

-- With a mapped code, or a description of its own, setting the code of a valid response that holds
-- no freed description works and leaves such a response.
pub set_code-IsValid :
    (r : Response) (code : ℕ) (description : Option Bytes)
    → IsValid r
    → NotDangling r.state_line.description
    → (code < 10) ⊎ (description ≢ none)
    → (r' : Response) × (http_response_set_code r code description ≡ some r')
      × IsValid r'
      × NotDangling r'.state_line.description
      × (r'.headers ≡ r.headers)
      × (r'.body ≡ r.body)
unfolding http_response_set_code free_description
set_code-IsValid r code description v nd h =
    let (d, chosen) = chosen-some code description h in
    (
      record r {
        state_line = record {
          code = code;
          description = live (c_str d);
          description_length = strlen d;
        };
      },
      go d chosen r.state_line.description refl,
      record { sorted = v.sorted; described = refl; embodied = v.embodied },
      (λ e. cc),
      refl,
      refl,
    )
  where
    go :
        (d : Bytes)
        → choose_description code description ≡ some d
        → (p : Pointer) → r.state_line.description ≡ p
        → http_response_set_code r code description
          ≡ some (record r {
            state_line = record {
              code = code;
              description = live (c_str d);
              description_length = strlen d;
            };
          })
    go d chosen null e = ground arith
    go d chosen (live b) e = ground arith
    go d chosen dangling e = absurd (nd e)

pub set_header-IsValid :
    (r : Response) (key value : Bytes) → IsValid r → IsValid (http_response_set_header r key value)
unfolding http_response_set_header
set_header-IsValid r key value v = record {
  sorted = set_header-IsSorted r.headers key value v.sorted;
  described = v.described;
  embodied = v.embodied;
}

pub length-take : (n : ℕ) (b : Bytes) → n ≤ length b → length (take n b) ≡ n
length-take zero b h = omega arith
length-take (suc n) [] h = absurd (omega arith)
length-take (suc n) (x ∷ b) h = omega (arith, length-take n b)

pub set_body-IsValid :
    (r : Response) (body : Bytes) (n : Option ℕ) (r' : Response)
    → IsValid r
    → http_response_set_body r body n ≡ some r'
    → IsValid r' × (r'.state_line ≡ r.state_line)
unfolding http_response_set_body
set_body-IsValid r body n r' v e = elim (Bool-cases (ltb (length body) (length_of_body body n))) [
  | inl t ↦ absurd (ground arith)
  | inr t ↦
      let bodied : Response = record r {
        body = record {
          body = some (take (length_of_body body n) body);
          length = length_of_body body n;
        };
      } in
      let out : Response =
        http_response_set_header bodied content_length (decimal (length_of_body body n)) in
      let valid : IsValid bodied = record {
        sorted = v.sorted;
        described = v.described;
        embodied = sym (length-take (length_of_body body n) body (ground arith));
      } in
      let both : IsValid out × (out.state_line ≡ r.state_line) = (
        set_header-IsValid bodied content_length _ valid,
        unfold http_response_set_header in refl,
      ) in
      let e' : out ≡ r' = ground arith in rw e' at both
]

pub complete-IsValid : (r : Response) → IsValid r → IsValid (complete r)
unfolding complete
complete-IsValid r v = elim (Bool-cases (r.body.length == 0)) [
  | inl t ↦ rw t (set_header-IsValid r content_length (codes "0") v)
  | inr t ↦ rw t v
]

-- Completing a response again changes nothing.
pub complete_idem : (r : Response) → complete (complete r) ≡ complete r
unfolding complete http_response_set_header
complete_idem r = elim (Bool-cases (r.body.length == 0)) [
  | inl t ↦
      rw (t, t)
        (ap (λ hs. record r { headers = hs })
          (set_header_idem r.headers content_length (codes "0")))
  | inr e ↦ rw (e, e) refl
]
