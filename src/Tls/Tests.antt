-- ===== src/Tls/Tests.antt =====
-- TLS connections at concrete inputs, and the theorems applied there.
use h_ss.Prelude.{ℕ, zero, suc, ◌+◌, ◌<◌, ◌≡◌, ◌≢◌, refl, arith, [], ◌∷◌, none, some, codes, length}
use h_ss.Statics.{ok}
use h_ss.Tls.{size, error, again, Gnutls, closed, tls_destroy_underlying}
use h_ss.Tls.Closing.{after_byes, bye_result, destroy_underlying-ends}
use h_ss.Tls.Credential.{Credentials, no_credentials, Setup}
use h_ss.Tls.Leak.{connect_all, run_handlers, connect_all-leaks}

-- A session is the number of calls made on it: the first handshake has to wait, then data flows, and
-- the second `bye` is done.
abbrev at_call : {A : Type 0} → A → A → ℕ → A
at_call first later zero = first
at_call first later (suc n) = later

abbrev gnutls : Gnutls ℕ
gnutls = record {
  handshake = λ s. (at_call (some again) none s, s + 1);
  record_recv = λ n s. (size (codes "a"), s + 1);
  record_send = λ b s. (at_call (error again) (size (length b)) s, s + 1);
  bye = λ s. (at_call (some again) none s, s + 1);
}

first_waits : (i : ℕ) → i < 1 → bye_result gnutls i 0 ≡ some again
unfolding after_byes
first_waits zero h = refl
first_waits (suc i) h = absurd (omega arith)

second_done : bye_result gnutls 1 0 ≢ some again
unfolding after_byes
second_done e = cc

destroy_underlying-ends_example :
    tls_destroy_underlying gnutls 5 0 ≡ closed (bye_result gnutls 1 0) (after_byes gnutls 2 0)
destroy_underlying-ends_example =
    destroy_underlying-ends gnutls 1 5 0 first_waits second_done (omega arith)

abbrev works : ℕ → Setup
works a = record {
  init = none;
  priority = none;
  credentials_set = none;
  loading = record { allocate = none; address = a; load = none };
}

connect_all-leaks_example :
    (t : Credentials) × (connect_all (works 100 ∷ works 200 ∷ []) no_credentials ≡ ok t)
    × (length t.blocks ≡ length (works 100 ∷ works 200 ∷ []))
    × (t.at_exit ≡ length (works 100 ∷ works 200 ∷ []))
    × (run_handlers (works 0).loading t.at_exit t ≡ ok t)
connect_all-leaks_example =
    connect_all-leaks (works 100 ∷ works 200 ∷ []) (works 0).loading
      ((refl, refl, refl, refl, refl), ((refl, refl, refl, refl, refl), tt))
