-- ===== src/Response/Render.antt =====
-- How many bytes rendering writes, and the two-call use of `http_response_render`.
use h_ss.Prelude.{
  All, List, ℕ, zero, suc, ◌+◌, ◌-◌, ◌≤◌, ◌^◌, ◌≡◌, refl, inl, inr, [], ◌∷◌, ◌++◌, Option, none,
  some, arith, Bytes, codes, length, take, drop, c_str, ltb, ◌==◌, Bool-cases, Option-cases,
  length-append, if◌then◌else◌,
}
use h_ss.Errors.{succeed, insufficient_buffer_size}
use h_ss.Decimal.{length-zeros, decimal, zeros, pad, format_03d}
use h_ss.Headers.{Headers}
use h_ss.Response.{
  Response, StateLine, Pointer, null, live, dangling, http_response_render,
  get_representative_state_code, measure_headers, measure_response_size, render_description,
  render_headers, render_bytes, read_body, complete, nth, state_codes, http_version,
}
use h_ss.Response.Valid.{Describes, HoldsBody, IsValid, length-take, complete-IsValid}

length-pad : (width : ℕ) (s : Bytes) → width ≤ length (pad width s)
length-pad width s =
    omega (arith, length-append (zeros (width - length s)) s, length-zeros (width - length s))

format_03d-long : (n : ℕ) → 3 ≤ length (format_03d n)
unfolding format_03d
format_03d-long n = ground (arith, length-pad 3 (decimal n), length-pad 2 (decimal (2 ^ 32 - n)))

nth-All :
    (P : Bytes → Type 0) (xs : List Bytes) (i : ℕ) (x : Bytes) → All P xs → nth xs i ≡ some x → P x
nth-All P [] i x h e = cc
nth-All P (y ∷ xs) zero x h e = let e' : y ≡ x = ground arith in rw e' at h.0
nth-All P (y ∷ xs) (suc i) x h e = nth-All P xs i x h.1 e

-- The status code is three bytes, for whatever code was set.
length-state_code : (code : ℕ) → length (take 3 (get_representative_state_code code)) ≡ 3
unfolding get_representative_state_code
length-state_code code = elim (Option-cases (nth state_codes code)) [
  | inl e ↦
      rw (e, get_representative_state_code) (length-take 3 (format_03d code) (format_03d-long code))
  | inr (s, e) ↦
      rw (e, get_representative_state_code)
        (nth-All (λ t. length (take 3 t) ≡ 3) state_codes code s
          (refl, (refl, (refl, (refl, (refl, (refl, (refl, (refl, (refl, (refl, tt)))))))))) e)
]

length-render_headers : (hs : Headers) → length (render_headers hs) ≡ measure_headers hs
unfolding render_headers measure_headers
length-render_headers [] = refl
length-render_headers (h ∷ hs) = omega (
  arith,
  length-render_headers hs,
  length-append (c_str h.key) (codes ": " ++ (c_str h.value ++ (13 ∷ 10 ∷ render_headers hs))),
  length-append (c_str h.value) (13 ∷ 10 ∷ render_headers hs),
)

length-read_body :
    (b : Option Bytes) (n : ℕ)
    → HoldsBody b n
    → (out : Bytes) × (read_body b n ≡ some out) × (length out ≡ n)
length-read_body none zero h = ([], refl, refl)
length-read_body none (suc n) h = absurd (omega arith)
length-read_body (some b) n h = (take n b, ground arith, length-take n b (omega arith))

abbrev description_size : ℕ → ℕ
description_size n = if n == 0 then 0 else n + 1

length-render_description :
    (s : StateLine)
    → Describes s.description s.description_length
    → (out : Bytes) × (render_description s ≡ some out)
      × (length out ≡ description_size s.description_length)
unfolding render_description
length-render_description s h = go s.description refl
  where
    go :
        (p : Pointer)
        → s.description ≡ p
        → (out : Bytes) × (render_description s ≡ some out)
          × (length out ≡ description_size s.description_length)
    go null e = ([], ground arith, ground arith)
    go dangling e = ([], ground arith, ground arith)
    go (live d) e = elim (Bool-cases (s.description_length == 0)) [
      | inl z ↦ ([], ground arith, ground arith)
      | inr more ↦
          let fits : s.description_length ≤ length (d ++ (0 ∷ [])) =
            ground (arith, length-append d (0 ∷ [])) in
          (
            b' ' ∷ take s.description_length (d ++ (0 ∷ [])),
            ground arith,
            ground (arith, length-take s.description_length (d ++ (0 ∷ [])) fits),
          )
    ]

-- Rendering a valid response reads only live blocks, and the bytes are as many as were measured.
pub length-render_bytes :
    (r : Response)
    → IsValid r
    → (out : Bytes) × (render_bytes r ≡ some out) × (length out ≡ measure_response_size r)
unfolding render_bytes measure_response_size
length-render_bytes r v =
    let (d, ed, ld) = length-render_description r.state_line v.described in
    let (b, eb, lb) = length-read_body r.body.body r.body.length v.embodied in
    let status : Bytes = take 3 (get_representative_state_code r.state_line.code) in
    let tail : Bytes = 13 ∷ 10 ∷ (render_headers r.headers ++ (13 ∷ 10 ∷ b)) in
    (
      http_version ++ (b' ' ∷ (status ++ (d ++ tail))),
      rw (ed, render_bytes) (rw (eb, render_bytes)),
      ground (
        arith,
        ld,
        lb,
        length-append status (d ++ tail),
        length-append d tail,
        length-append (render_headers r.headers) (13 ∷ 10 ∷ b),
        length-render_headers r.headers,
        length-state_code r.state_line.code,
      ),
    )

-- A valid response is rendered without undefined behaviour, into as many bytes as are measured, and
-- is still valid. A call without a buffer tells that size. A buffer that is told to be smaller is
-- left alone and the size is told; one that is as long as it is told to be, and has the room, gets
-- the bytes at its front and keeps its others.
pub render-fits :
    (r : Response) (block : Bytes) (n : ℕ)
    → IsValid r
    → n ≤ length block
    → (out : Bytes) × (render_bytes (complete r) ≡ some out)
      × (length out ≡ measure_response_size (complete r))
      × IsValid (complete r)
      × (http_response_render r none n
          ≡ some (record {
            response = complete r;
            code = succeed;
            length_out = length out;
            buffer = none;
          }))
      × (http_response_render r (some block) n
          ≡ some (
              if ltb n (length out)
              then record {
                response = complete r;
                code = insufficient_buffer_size;
                length_out = length out;
                buffer = some block;
              }
              else record {
                response = complete r;
                code = succeed;
                length_out = length out;
                buffer = some (out ++ drop (length out) block);
              }))
unfolding http_response_render
render-fits r block n v h =
    let (out, made, sized) = length-render_bytes (complete r) (complete-IsValid r v) in
    (
      out,
      made,
      sized,
      complete-IsValid r v,
      ground (arith, sized),
      elim (Bool-cases (ltb n (length out))) [
        | inl t ↦ ground (arith, sized)
        | inr t ↦ ground (arith, made, sized)
      ],
    )
