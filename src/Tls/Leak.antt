-- ===== src/Tls/Leak.antt =====
-- tls_connection.c: the certificate is loaded anew for every connection.
use h_ss.Prelude.{
  ℕ, zero, suc, ◌+◌, ◌≡◌, refl, ap, ◌∙◌, arith, true, List, All, [], ◌∷◌, none, some, if◌then◌else◌,
  length,
}
use h_ss.Statics.{Outcome, ok, ◌>>=◌}
use h_ss.Tls.Credential.{
  Credentials, no_credentials, Loading, free_credential, load_credential, get_credential, Setup,
  set_up, tls_initialize_underlying,
}

-- Connections are set up one after the other.
unfoldable pub connect_all : List Setup → Credentials → Outcome Credentials
connect_all [] s = ok s
connect_all (r ∷ rs) s = tls_initialize_underlying r s >>= λ t. connect_all rs t.1

-- The exit handlers that are registered run.
unfoldable pub run_handlers : Loading → ℕ → Credentials → Outcome Credentials
run_handlers l zero s = ok s
run_handlers l (suc n) s = get_credential l true s >>= λ t. run_handlers l n t.1

abbrev pub Works : Setup → Type 0
Works r =
    (r.init ≡ none)
    × (r.priority ≡ none)
    × (r.loading.allocate ≡ none)
    × (r.loading.load ≡ none)
    × (r.credentials_set ≡ none)

abbrev loaded : Setup → Credentials → Credentials
loaded r s = record {
  credential = some r.loading.address;
  initialize = true;
  blocks = r.loading.address ∷ s.blocks;
  at_exit = s.at_exit + 1;
}

initialize_lem :
    (r : Setup) (s : Credentials)
    → Works r
    → s.initialize ≡ true
    → (t : Credentials) × (tls_initialize_underlying r s ≡ ok (set_up, t))
      × (t.initialize ≡ true)
      × (t.blocks ≡ r.loading.address ∷ s.blocks)
      × (t.at_exit ≡ s.at_exit + 1)
unfolding tls_initialize_underlying get_credential load_credential
initialize_lem r s (i, p, a, l, c) e = (loaded r s, rw (i, p, e, a, l, c) refl, refl, refl, refl)

get_credential_null :
    (l : Loading) (s : Credentials) → s.initialize ≡ true → get_credential l true s ≡ ok (none, s)
unfolding get_credential
get_credential_null l s e =
    ap
      (λ b.
        if b
        then ok (none, s)
        else ok (s.credential, record s { blocks = free_credential s.credential s.blocks }))
      e

run_handlers_lem :
    (l : Loading) (n : ℕ) (s : Credentials) → s.initialize ≡ true → run_handlers l n s ≡ ok s
unfolding run_handlers
run_handlers_lem l zero s e = refl
run_handlers_lem l (suc n) s e =
    ap (λ o. o >>= λ t. run_handlers l n t.1) (get_credential_null l s e) ∙ run_handlers_lem l n s e

connect_all_lem :
    (rs : List Setup) (s : Credentials)
    → All Works rs
    → s.initialize ≡ true
    → (t : Credentials) × (connect_all rs s ≡ ok t)
      × (t.initialize ≡ true)
      × (length t.blocks ≡ length s.blocks + length rs)
      × (t.at_exit ≡ s.at_exit + length rs)
unfolding connect_all
connect_all_lem [] s h e = (s, refl, e, omega arith, omega arith)
connect_all_lem (r ∷ rs) s (w, h) e =
    let (t, made, still, more, handlers) = initialize_lem r s w e in
    let (u, rest, same, all, registered) = connect_all_lem rs t h still in
    (
      u,
      rw (made, connect_all) rest,
      same,
      omega (arith, all, ap length more),
      omega (arith, registered, handlers),
    )

-- Connections for which every call of GnuTLS succeeds: each of them takes a new block for the
-- certificate and registers another exit handler, and the handlers, run at the end of the process,
-- free none of the blocks.
pub connect_all-leaks :
    (rs : List Setup) (l : Loading)
    → All Works rs
    → (t : Credentials) × (connect_all rs no_credentials ≡ ok t)
      × (length t.blocks ≡ length rs)
      × (t.at_exit ≡ length rs)
      × (run_handlers l t.at_exit t ≡ ok t)
connect_all-leaks rs l h =
    let (t, made, same, all, registered) = connect_all_lem rs no_credentials h refl in
    (t, made, omega (arith, all), omega (arith, registered), run_handlers_lem l t.at_exit t same)
