-- ===== src/Connection/Invariant/Answer.antt =====
-- server.c: answering keeps the invariant of a connection.
use std.Path.{subst}
use h_ss.Prelude.{ℕ, ◌≡◌, refl, sym, arith, [], none, some, Bytes, codes, length}
use h_ss.Errors
use h_ss.Errors.{ErrorCode, incomplete_request}
use h_ss.Request
use h_ss.Request.{
  Request, Parse, stop, out_of_fuel, cleared, http_request_from_buffer, http_request_destroy,
}
use h_ss.Request.State
use h_ss.Request.State.{Ensures, from_buffer-Ensures, destroy-cleared, cleared-IsValid}
use h_ss.Response.{Response, http_bad_request, http_response_set_code}
use h_ss.Response.Render.{render-fits}
use h_ss.Descriptors.{DescriptorType, Connection}
use h_ss.Statics
use h_ss.Statics.{Outcome, Statics, ◌>>=◌, defined}
use h_ss.Transaction.{World, handle_http_transaction}
use h_ss.Transaction.Sound.{
  IsSound, set_code-IsSound, set_header-IsSound, complete-IsSound, transaction-IsSound,
}
use h_ss.Connection.Respond.{
  Responding, waits, responds, prepare, refuse, answer_parse, request_bytes, respond,
}
use h_ss.Connection.Respond.Rendered.{render_into_lem}
use h_ss.Transaction.Guarded.{defined-ok}
use h_ss.Connection.Answered.{with_server, prepare_ok}
use h_ss.Connection.Invariant.{IsConnection, Bounded}

abbrev pub GoodAnswer : Outcome Responding → Type 0
GoodAnswer (Statics.ok (waits s c)) = Bounded c
GoodAnswer (Statics.ok (responds s c)) = Bounded c
GoodAnswer Statics.fault = Unit
GoodAnswer Statics.exits = Unit

GoodAnswer-bind :
    {A : Type 0} (m : Outcome A) (f : A → Outcome Responding)
    → ((a : A) → m ≡ Statics.ok a → GoodAnswer (f a))
    → GoodAnswer (m >>= f)
GoodAnswer-bind (Statics.ok a) f h = h a refl
GoodAnswer-bind Statics.fault f h = tt
GoodAnswer-bind Statics.exits f h = tt

module _ (w : World) (sized : (n : ℕ) → length (w.malloc n) ≡ n) (s : Statics) (c : Connection)
    (v : IsConnection c) (block : Bytes) (at : c.buffer.buffer ≡ some block) where
  prepare-Good :
      (t : Statics) (request : Request) (r : Response)
      → State.IsValid request
      → IsSound r
      → GoodAnswer (prepare w c request (t, r))
  prepare-Good t request r rv sound =
      let answered = set_header-IsSound r (codes "Server") (codes "hSS/0.0.1-alpha") sound in
      let (out, made, _, _, _, _) = render-fits (with_server r) [] 0 answered.0 (omega arith) in
      let (q, rendered, put, _, holds, same) =
        render_into_lem w.malloc c.buffer block (with_server r) out sized v.buffered at answered.0
          made in
      subst GoodAnswer (sym (prepare_ok w t c request r rendered q put)) (
        (λ small. (holds small).0),
        subst State.IsValid (sym (destroy-cleared request rv)) cleared-IsValid,
        subst IsSound (sym same) (complete-IsSound (with_server r) answered),
      )

  bad_request-Good :
      (request : Request)
      → State.IsValid request
      → GoodAnswer (
          defined (http_response_set_code c.response http_bad_request none) >>= λ r.
          prepare w c request (s, r))
  bad_request-Good request rv =
      GoodAnswer-bind (defined (http_response_set_code c.response http_bad_request none)) _ (λ r e.
        prepare-Good s request r rv (
          set_code-IsSound c.response r http_bad_request (omega arith) v.answered
            (defined-ok _ r e)))

  refuse-Good :
      (e : ErrorCode) (request : Request)
      → State.IsValid request
      → GoodAnswer (refuse w s c e request)
  refuse-Good incomplete_request request rv = ((λ small. v.buffered), rv, v.answered)
  refuse-Good Errors.request_no_valid_data request rv = bad_request-Good request rv
  refuse-Good Errors.parse_invalid_request_syntax request rv = bad_request-Good request rv
  refuse-Good Errors.insufficient_buffer_size request rv = bad_request-Good request rv
  refuse-Good Errors.unsupported_method request rv = bad_request-Good request rv
  refuse-Good Errors.duplicate_header_key request rv = bad_request-Good request rv
  refuse-Good Errors.no_such_header request rv = bad_request-Good request rv
  refuse-Good Errors.succeed request rv = bad_request-Good request rv

  answer_parse-Good :
      (type : DescriptorType) (p : Parse Request)
      → Ensures (λ q. (q.state ≡ Request.parsed) × State.IsValid q) p
      → GoodAnswer (answer_parse w type s c p)
  answer_parse-Good type (Request.ok request) h =
      GoodAnswer-bind (handle_http_transaction w type s request c.response) _ (λ (t, r) e.
        prepare-Good t request r h.1
          (transaction-IsSound w type s t request c.response r v.answered e))
  answer_parse-Good type (stop e request) h = refuse-Good e request h.0
  answer_parse-Good type Request.fault h = tt
  answer_parse-Good type Request.out_of_fuel h = tt

  pub respond-Good : (type : DescriptorType) → GoodAnswer (respond w type s c)
  unfolding respond
  respond-Good type =
      answer_parse-Good type _ (from_buffer-Ensures c.request (request_bytes c) v.requested)
