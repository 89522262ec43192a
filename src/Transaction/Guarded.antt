-- ===== src/Transaction/Guarded.antt =====
-- server.c: what a transaction may change of the static variables.
use mathlib.Core.Option
use h_ss.Prelude.{
  ℕ, ◌≡◌, ◌⊎◌, refl, sym, ap, ◌∙◌, Bool, false, Option, none, some, if◌then◌else◌, Bytes, codes,
  take,
}
use h_ss.Request.{Request}
use h_ss.Request.Query.{get_request_header}
use h_ss.Response.{Response}
use h_ss.Authorization.{Authorization, get_authorization_code, characters, indices}
use h_ss.Statics.{Outcome, ok, exits, fault, ◌>>=◌, defined, Statics}
use h_ss.Transaction.{World, Answer, authorization_code_length}

-- The request has an Authorization header that begins with the code.
abbrev pub IsAuthorized : World → Statics → Request → Type 0
IsAuthorized w s request =
    (value : Bytes) × (t : Authorization) × (get_request_header w.malloc w.garbage request
        (codes "Authorization")
      ≡ some value)
    × (get_authorization_code s.authorization w.random.0 w.random.1 w.random.2 ≡ some t)
    × (take authorization_code_length value ≡ take authorization_code_length t.code)

-- What a transaction may change: the switches only when it is authorized.
abbrev pub IsGuarded : World → Statics → Request → Statics → Type 0
IsGuarded w s request t =
    ((t.running ≡ s.running) × (t.log_level ≡ s.log_level)) ⊎ IsAuthorized w s request

-- A code that was made before stays.
abbrev pub KeepsCode : Statics → Statics → Type 0
KeepsCode s t = s.authorization.initialize ≡ false → t.authorization ≡ s.authorization

abbrev pub Always : (Statics → Response → Type 0) → Answer → Type 0
Always P (ok (s, r)) = P s r
Always P exits = Unit
Always P fault = Unit

pub Always-bind {ℓ} :
    {A : Type ℓ} (P : Statics → Response → Type 0) (m : Outcome A) (f : A → Answer)
    → ((a : A) → m ≡ ok a → Always P (f a))
    → Always P (m >>= f)
Always-bind P (ok a) f h = h a refl
Always-bind P exits f h = tt
Always-bind P fault f h = tt

pub defined-ok {ℓ} : {A : Type ℓ} (o : Option A) (a : A) → defined o ≡ ok a → o ≡ some a
defined-ok none a h = cc
defined-ok (some b) a h = cc

-- The second call gives the code of the first.
pub code_again :
    (s t : Authorization) (a b c : ℕ)
    → get_authorization_code s a b c ≡ some t
    → s.initialize ≡ false
    → t ≡ s
unfolding get_authorization_code
code_again s t a b c e made =
    let by_flag : Bool → Option Authorization = λ x.
      if x
      then elim (characters (indices a b c)) [
        | none ↦ none
        | some code ↦ some (record { initialize = false; code = code })
      ]
      else some s in
    Option.some-injective t s (sym e ∙ ap by_flag made)
