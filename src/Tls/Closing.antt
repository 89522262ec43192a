-- ===== src/Tls/Closing.antt =====
-- tls_connection.c: the end of a TLS session.
use h_ss.Prelude.{ℕ, zero, suc, ◌+◌, ◌<◌, ◌≡◌, ◌≢◌, refl, ap, ◌∙◌, arith, Option, none, some}
use h_ss.Tls.{
  Gnutls, GnutlsError, again, interrupted, warning_alert_received, fatal_alert_received, other,
  closed, out_of_fuel, tls_destroy_underlying,
}

-- The session after so many calls of `gnutls_bye`.
unfoldable pub after_byes : {S : Type 0} → Gnutls S → ℕ → S → S
after_byes g zero s = s
after_byes g (suc n) s = after_byes g n (g.bye s).1

abbrev pub bye_result : {S : Type 0} → Gnutls S → ℕ → S → Option GnutlsError
bye_result g n s = (g.bye (after_byes g n s)).0

destroy_again :
    {S : Type 0} (g : Gnutls S) (fuel : ℕ) (s : S)
    → (g.bye s).0 ≡ some again
    → tls_destroy_underlying g (suc fuel) s ≡ tls_destroy_underlying g fuel (g.bye s).1
unfolding tls_destroy_underlying
destroy_again g fuel s e = rw (e, tls_destroy_underlying) refl

destroy_done :
    {S : Type 0} (g : Gnutls S) (fuel : ℕ) (s : S) (r : Option GnutlsError)
    → r ≢ some again
    → (g.bye s).0 ≡ r
    → tls_destroy_underlying g (suc fuel) s ≡ closed r (g.bye s).1
unfolding tls_destroy_underlying
destroy_done g fuel s none n e = rw (e, tls_destroy_underlying) refl
destroy_done g fuel s (some again) n e = absurd (n refl)
destroy_done g fuel s (some interrupted) n e = rw (e, tls_destroy_underlying) refl
destroy_done g fuel s (some warning_alert_received) n e = rw (e, tls_destroy_underlying) refl
destroy_done g fuel s (some fatal_alert_received) n e = rw (e, tls_destroy_underlying) refl
destroy_done g fuel s (some (other m)) n e = rw (e, tls_destroy_underlying) refl

-- When the peer lets `gnutls_bye` return something else than GNUTLS_E_AGAIN after `n` calls that do,
-- the loop ends with just that result, after one call more.
pub destroy_underlying-ends :
    {S : Type 0} (g : Gnutls S) (n fuel : ℕ) (s : S)
    → ((i : ℕ) → i < n → bye_result g i s ≡ some again)
    → bye_result g n s ≢ some again
    → n < fuel
    → tls_destroy_underlying g fuel s ≡ closed (bye_result g n s) (after_byes g (n + 1) s)
unfolding after_byes
destroy_underlying-ends g zero zero s busy done h = absurd (omega arith)
destroy_underlying-ends g (suc n) zero s busy done h = absurd (omega arith)
destroy_underlying-ends g zero (suc fuel) s busy done h =
    destroy_done g fuel s (g.bye s).0 done refl
destroy_underlying-ends g (suc n) (suc fuel) s busy done h =
    let shifted : suc (n + 1) ≡ suc n + 1 = omega arith in
    let one_more = ap (λ k. closed (bye_result g n (g.bye s).1) (after_byes g k s)) shifted in
    destroy_again g fuel s (busy 0 (omega arith))
    ∙ destroy_underlying-ends g n fuel (g.bye s).1 (λ i b. busy (suc i) (omega arith)) done
        (omega arith)
    ∙ one_more

-- When every call of `gnutls_bye` returns GNUTLS_E_AGAIN, the loop never ends.
pub destroy_underlying-hangs :
    {S : Type 0} (g : Gnutls S) (fuel : ℕ) (s : S)
    → ((i : ℕ) → bye_result g i s ≡ some again)
    → tls_destroy_underlying g fuel s ≡ out_of_fuel
unfolding tls_destroy_underlying after_byes
destroy_underlying-hangs g zero s silent = refl
destroy_underlying-hangs g (suc fuel) s silent =
    destroy_again g fuel s (silent 0)
    ∙ destroy_underlying-hangs g fuel (g.bye s).1 (λ i. silent (suc i))
