-- ===== src/Transaction/Magic.antt =====
-- server.c: who may make a magic call.
use h_ss.Prelude.{
  ℕ, ◌<◌, ◌≡◌, refl, ◌∙◌, inl, arith, [], ◌∷◌, some, Bytes, codes, length, length-append, c_str,
  strlen,
}
use h_ss.Headers.Lookup.{find}
use h_ss.Request.{Request, parsed}
use h_ss.Request.State.{IsValid}
use h_ss.Request.Query.{get_request_header, get_request_header-find, block_of}
use h_ss.Response.{Response}
use h_ss.Authorization.{Authorization, get_authorization_code}
use h_ss.Descriptors.{DescriptorType}
use h_ss.Statics.{ok, fault, Statics}
use h_ss.Transaction.{World, handle_magic_call, handle_http_transaction, authorization_code_length}
use h_ss.Transaction.Containment.{memcmp_eq-short}
use h_ss.Transaction.Guarded.{IsGuarded, KeepsCode}
use h_ss.Transaction.Paths.{transaction-Always}

-- A transaction leaves the running flag and the log level as they are, or the request has an
-- Authorization header whose first 32 bytes are those of the authorization code.
pub transaction-IsGuarded :
    (w : World) (s : Statics) (request : Request) (response : Response) (type : DescriptorType)
    (t : Statics) (r : Response)
    → handle_http_transaction w type s request response ≡ ok (t, r)
    → IsGuarded w s request t
transaction-IsGuarded w s request response type t r h = rw h at (
    transaction-Always w s request response (λ u _. IsGuarded w s request u)
      (λ u code r' small g keeps e. g) (λ r' value e. inl (refl, refl))
      (λ d range content r' e. inl (refl, refl)) type)

-- A code that was made before stays the one that it is.
pub transaction-KeepsCode :
    (w : World) (s : Statics) (request : Request) (response : Response) (type : DescriptorType)
    (t : Statics) (r : Response)
    → handle_http_transaction w type s request response ≡ ok (t, r)
    → KeepsCode s t
transaction-KeepsCode w s request response type t r h = rw h at (
    transaction-Always w s request response (λ u _. KeepsCode s u)
      (λ u code r' small g keeps e. keeps) (λ r' value e k. refl) (λ d range content r' e k. refl)
      type)

-- A magic call whose Authorization header has fewer than 31 bytes makes `memcmp` read past the end
-- of the header's block, whatever the code is.
pub handle_magic_call_short :
    (w : World) (s : Statics) (request : Request) (response : Response) (call value : Bytes)
    (t : Authorization)
    → ((n : ℕ) → length (w.malloc n) ≡ n)
    → IsValid request
    → request.state ≡ parsed
    → find request.headers (codes "Authorization") ≡ some value
    → get_authorization_code s.authorization w.random.0 w.random.1 w.random.2 ≡ some t
    → strlen value < 31
    → handle_magic_call w s request response call ≡ fault
unfolding handle_magic_call
handle_magic_call_short w s request response call value t sized v p e k short =
    let held : get_request_header w.malloc w.garbage request (codes "Authorization")
        ≡ some (block_of value) =
      get_request_header-find w.malloc w.garbage request (codes "Authorization") sized v p
      ∙ rw e refl in
    rw
      (
        held,
        k,
        memcmp_eq-short (block_of value) t.code authorization_code_length
            (omega (arith, length-append (c_str value) (0 ∷ []))),
        handle_magic_call,
      )
      refl
