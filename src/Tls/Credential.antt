-- ===== src/Tls/Credential.antt =====
-- tls_connection.c: the certificate that all sessions use, and the setting up of a session.
use h_ss.Prelude.{ℕ, ◌+◌, Bool, true, false, List, [], ◌∷◌, Option, none, some, if◌then◌else◌, ◌==◌}
use h_ss.Hooks.{Hooks, tls_hooks, memory_hooks}
use h_ss.Statics.{Outcome, ok, exits, ◌>>=◌}
use h_ss.Tls.{GnutlsError, TlsState, initialized, failed}

-- The static variables of `get_credential`, the blocks that GnuTLS holds for it, and how often
-- `destroy_credential` is registered to run at the end of the process.
pub record Credentials : Type 0 where
  pub credential : Option ℕ
  pub initialize : Bool
  pub blocks : List ℕ
  pub at_exit : ℕ

abbrev pub no_credentials : Credentials
no_credentials = record { credential = none; initialize = true; blocks = []; at_exit = 0 }

-- What GnuTLS returns for the allocation, with the address of the block, and for the loading of the
-- certificate and its key.
pub record Loading : Type 0 where
  pub allocate : Option GnutlsError
  pub address : ℕ
  pub load : Option GnutlsError

-- `GNUTLS_HELPER` with a call of `exit`.
abbrev pub helper_exit : {A : Type 0} → Option GnutlsError → Outcome A → Outcome A
helper_exit none rest = rest
helper_exit (some _) rest = exits

-- `gnutls_certificate_free_credentials`
unfoldable pub free_credential : Option ℕ → List ℕ → List ℕ
free_credential none blocks = blocks
free_credential (some a) [] = []
free_credential (some a) (b ∷ bs) =
    let rest = free_credential (some a) bs in if a == b then bs else b ∷ rest

unfoldable pub load_credential : Loading → Credentials → Outcome (Option ℕ × Credentials)
load_credential l s = helper_exit l.allocate (
    helper_exit l.load (
      ok (
        some l.address,
        record {
          credential = some l.address;
          initialize = true;
          blocks = l.address ∷ s.blocks;
          at_exit = s.at_exit + 1;
        },
      )))

-- The block when it is not asked to destroy it, and NULL when there is none to destroy.
unfoldable pub get_credential : Loading → Bool → Credentials → Outcome (Option ℕ × Credentials)
get_credential l true s =
    if s.initialize
    then ok (none, s)
    else ok (s.credential, record s { blocks = free_credential s.credential s.blocks })
get_credential l false s = if s.initialize then load_credential l s else ok (s.credential, s)

pub record TlsConnection : Type 0 where
  pub state : TlsState
  pub hooks : Hooks

-- What GnuTLS returns for `gnutls_init`, `gnutls_set_default_priority` and `gnutls_credentials_set`.
pub record Setup : Type 0 where
  pub init : Option GnutlsError
  pub priority : Option GnutlsError
  pub credentials_set : Option GnutlsError
  pub loading : Loading

-- The states of a set-up that is left early, and of one that is done.
abbrev pub left_early : TlsConnection
left_early = record { state = failed; hooks = memory_hooks }

abbrev pub set_up : TlsConnection
set_up = record { state = initialized; hooks = tls_hooks }

-- `GNUTLS_HELPER` with `return`.
abbrev pub helper_return :
    Option GnutlsError
    → Credentials
    → Outcome (TlsConnection × Credentials)
    → Outcome (TlsConnection × Credentials)
helper_return none s rest = rest
helper_return (some _) s rest = ok (left_early, s)

abbrev pub set_credential : Setup → Option ℕ × Credentials → Outcome (TlsConnection × Credentials)
set_credential r (credential, s) = helper_return r.credentials_set s (ok (set_up, s))

unfoldable pub tls_initialize_underlying :
    Setup → Credentials → Outcome (TlsConnection × Credentials)
tls_initialize_underlying r s =
    helper_return r.init s
      (helper_return r.priority s (get_credential r.loading false s >>= set_credential r))
