-- ===== src/Connection/Respond/Rendered.antt =====
-- server.c: the buffer holds the rendered response.
use mathlib.Core.Option
use h_ss.Prelude.{
  ℕ, ◌^◌, ◌≤◌, ◌<◌, ◌≡◌, refl, sym, ap, ◌∙◌, inl, inr, ◌⊎◌, arith, false, ◌++◌, Option, some,
  if◌then◌else◌, ltb, Bytes, length, take, drop, take-append, take-all, Bool-cases, length-append,
  length-drop,
}
use h_ss.Errors.{ErrorCode, insufficient_buffer_size, succeed}
use h_ss.Response.{
  Response, http_response_render, http_response_render, Rendered, render_bytes, complete,
}
use h_ss.Response.Valid
use h_ss.Response.Valid.{set_header-IsValid, complete-IsValid, complete_idem}
use h_ss.Response.Render.{render-fits}
use h_ss.Descriptors.{Buffer}
use h_ss.Connection.Fill.{block_at}
use h_ss.Connection.Fill.Kept.{unread, IsBuffer}
use h_ss.Connection.Respond.{render_into}

-- A buffer whose first bytes are those of a response.
front-IsBuffer :
    (out more : Bytes) (n : ℕ)
    → length (out ++ more) ≡ n
    → n < 2 ^ 64
    → let b : Buffer = record {
      buffer = some (out ++ more);
      capability = n;
      start = 0;
      end = length out;
    } in
      IsBuffer b × (unread b ≡ out)
front-IsBuffer out more n sized small = (
  record {
    sized = sized;
    ordered = omega arith;
    within = omega (arith, sized, length-append out more);
    bounded = small;
  },
  ap (λ k. take k (out ++ more)) (omega arith)
      ∙ take-append (length out) out more (omega arith)
      ∙ take-all (length out) out refl,
)

render_into_fits :
    (malloc : ℕ → Bytes) (b : Buffer) (r t : Response) (n : ℕ) (out : Option Bytes)
    → http_response_render r b.buffer b.capability
      ≡ some (record { response = t; code = succeed; length_out = n; buffer = out })
    → render_into malloc b r
      ≡ some (record { buffer = out; capability = b.capability; start = 0; end = n }, t)
unfolding render_into
render_into_fits malloc b r t n out e = rw (e, render_into) refl

render_into_new :
    (malloc : ℕ → Bytes) (b : Buffer) (r t u : Response) (n m : ℕ) (old out : Option Bytes)
    (code : ErrorCode)
    → http_response_render r b.buffer b.capability
      ≡ some
          (record { response = t; code = insufficient_buffer_size; length_out = n; buffer = old })
    → http_response_render t (some (malloc n)) n
      ≡ some (record { response = u; code = code; length_out = m; buffer = out })
    → render_into malloc b r ≡ some (record { buffer = out; capability = n; start = 0; end = m }, u)
unfolding render_into
render_into_new malloc b r t u n m old out code e g = rw (e, g, render_into) refl

abbrev rendered_into : Response → Bytes → ℕ → Bytes → Rendered
rendered_into r block n out =
    if ltb n (length out)
    then record {
      response = complete r;
      code = insufficient_buffer_size;
      length_out = length out;
      buffer = some block;
    }
    else record {
      response = complete r;
      code = succeed;
      length_out = length out;
      buffer = some (out ++ drop (length out) block);
    }

-- `render-fits` for a rendering that is known.
render_known :
    (r : Response) (b : Option Bytes) (block : Bytes) (n : ℕ) (out : Bytes)
    → Valid.IsValid r
    → n ≤ length block
    → b ≡ some block
    → render_bytes (complete r) ≡ some out
    → http_response_render r b n ≡ some (rendered_into r block n out)
render_known r b block n out v h e made =
    let (same, made', _, _, _, first) = render-fits r block n v h in
    ap (λ o. http_response_render r o n) e
    ∙ first
    ∙ ap (λ o. some (rendered_into r block n o)) (Option.some-injective same out (sym made' ∙ made))

-- The response is valid: then it is rendered, to the same size as before or to a block of just the
-- rendering. A buffer below 2^64 holds just the rendering, and is in order.
pub render_into_lem :
    (malloc : ℕ → Bytes) (b : Buffer) (block : Bytes) (r : Response) (out : Bytes)
    → ((n : ℕ) → length (malloc n) ≡ n)
    → IsBuffer b
    → b.buffer ≡ some block
    → Valid.IsValid r
    → render_bytes (complete r) ≡ some out
    → (q : Buffer) × (t : Response) × (render_into malloc b r ≡ some (q, t))
      × ((q.capability ≡ length out) ⊎ (q.capability ≡ b.capability))
      × (q.capability < 2 ^ 64 → IsBuffer q × (unread q ≡ out))
      × (t ≡ complete r)
render_into_lem malloc b block r out sized v e rv made =
    let room : length block ≡ b.capability = ap (λ o. length (block_at o)) (sym e) ∙ v.sized in
    let first = render_known r b.buffer block b.capability out rv (omega (arith, room)) e made in
    elim (Bool-cases (ltb b.capability (length out))) [
      | inl long ↦
          let n = length out in
          let second =
            render_known (complete r) (some (malloc n)) (malloc n) n out (complete-IsValid r rv)
              (omega (arith, sized n)) refl (ap render_bytes (complete_idem r) ∙ made) in
          let fits : ltb n n ≡ false = ground arith in
          let holds = front-IsBuffer out (drop n (malloc n)) n (
            omega
              (arith, length-append out (drop n (malloc n)), length-drop n (malloc n), sized n)) in
          (
            _,
            _,
            render_into_new malloc b r (complete r) (complete (complete r)) n n (some block)
                (some (out ++ drop n (malloc n))) succeed (first ∙ rw long refl)
                (second ∙ rw fits refl),
            inl refl,
            holds,
            complete_idem r,
          )
      | inr fits ↦
          let holds = front-IsBuffer out (drop (length out) block) b.capability (
            ground (
              arith,
              length-append out (drop (length out) block),
              length-drop (length out) block,
              room,
            )) in
          (
            _,
            _,
            render_into_fits malloc b r (complete r) (length out)
                (some (out ++ drop (length out) block)) (first ∙ rw fits refl),
            inr refl,
            holds,
            refl,
          )
    ]
