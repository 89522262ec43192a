-- ===== src/Server/Underlying.antt =====
-- server.c: what the calls of the function pointers of a connection add to an event, as rules for a
-- predicate on what the event comes to.
use std.Path.{subst}
use h_ss.Prelude.{
  ◌≡◌, refl, ℕ, inl, inr, Bool, true, false, Bool-cases, if◌then◌else◌, Option, none, some, ◌&&◌,
}
use h_ss.Statics
use h_ss.Statics.{Outcome, ◌>>=◌}
use h_ss.Hooks.{Hooks, tcp_hooks, tls_hooks, memory_hooks}
use h_ss.Tls.{GnutlsError}
use h_ss.Tls.Credential.{
  Credentials, Loading, Setup, TlsConnection, helper_return, helper_exit, load_credential,
  get_credential, set_credential, tls_initialize_underlying,
}
use h_ss.Transport.{initialize_underlying}
use h_ss.Descriptors.{DescriptorType, listen_socket, tcp_socket, tls_socket, Connection}
use h_ss.Sockets.{accept_connection}
use h_ss.Connection.{handle_connection}
use h_ss.Server.{
  Server, Event, Turn, continues, leaves, runs_on, fault, exits, hangs, by_hooks,
  destroy_underlying, after_handle, is_called, is_unset, serve, hooks_at, after_set_up, accept,
}

abbrev pub init_of :
    {S : Type 0} → Event S → Server → DescriptorType → Outcome (Hooks × Credentials)
init_of e t type = initialize_underlying type memory_hooks e.setup t.credentials

-- The end of the TLS session is asked for on and on.
abbrev pub HangsUnderlying : {S : Type 0} → Event S → Server → Type 0
HangsUnderlying e t = (e.closes ≡ false) × (t.hooks e.address ≡ tls_hooks)

abbrev Usable : {A : Type 0} → Outcome A → Type 0
Usable (Statics.ok x) = Unit
Usable Statics.exits = Unit
Usable Statics.fault = ⊥

return-Usable :
    (o : Option GnutlsError) (s : Credentials) (rest : Outcome (TlsConnection × Credentials))
    → Usable rest
    → Usable (helper_return o s rest)
return-Usable none s rest h = h
return-Usable (some x) s rest h = tt

exit-Usable :
    (o : Option GnutlsError) (rest : Outcome (Option ℕ × Credentials))
    → Usable rest
    → Usable (helper_exit o rest)
exit-Usable none rest h = h
exit-Usable (some x) rest h = tt

bind-Usable :
    {A B : Type 0} (o : Outcome A) (f : A → Outcome B)
    → Usable o
    → ((x : A) → Usable (f x))
    → Usable (o >>= f)
bind-Usable (Statics.ok x) f h k = k x
bind-Usable Statics.exits f h k = tt
bind-Usable Statics.fault f h k = h

credential-Usable : (l : Loading) (s : Credentials) → Usable (get_credential l false s)
unfolding get_credential load_credential
credential-Usable l s = elim (Bool-cases s.initialize) [
  | inl e ↦ rw e (exit-Usable l.allocate _ (exit-Usable l.load _ tt))
  | inr e ↦ rw e tt
]

tls-Usable : (r : Setup) (s : Credentials) → Usable (tls_initialize_underlying r s)
unfolding tls_initialize_underlying
tls-Usable r s = return-Usable r.init s _ (
    return-Usable r.priority s _ (
      bind-Usable (get_credential r.loading false s) (set_credential r)
        (credential-Usable r.loading s) (λ t. return-Usable r.credentials_set t.1 _ tt)))

initialize-Usable :
    (type : DescriptorType) (m : Hooks) (r : Setup) (s : Credentials)
    → Usable (initialize_underlying type m r s)
unfolding initialize_underlying
initialize-Usable tcp_socket m r s = tt
initialize-Usable listen_socket m r s =
    bind-Usable (tls_initialize_underlying r s) _ (tls-Usable r s) (λ t. tt)
initialize-Usable tls_socket m r s =
    bind-Usable (tls_initialize_underlying r s) _ (tls-Usable r s) (λ t. tt)

-- Setting a session up is defined, whatever GnuTLS returns.
pub initialize_underlying_defined :
    (type : DescriptorType) (m : Hooks) (r : Setup) (s : Credentials)
    → initialize_underlying type m r s ≡ Statics.fault
    → ⊥
initialize_underlying_defined type m r s bad = subst Usable bad (initialize-Usable type m r s)

module _ {ℓ} {S : Type 0} (e : Event S) (t : Server) (P : Turn → Type ℓ) where
  hangs-rule : (rest : Turn) → P rest → P runs_on → P (hangs rest)
  hangs-rule (continues u) p on = on
  hangs-rule (leaves u) p on = on
  hangs-rule runs_on p on = on
  hangs-rule fault p on = p
  hangs-rule exits p on = on

  by_hooks-rule :
      (h : Hooks) (rest : Turn)
      → t.hooks e.address ≡ h
      → P rest
      → (HangsUnderlying e t → P runs_on)
      → (t.hooks e.address ≡ memory_hooks → P fault)
      → P (by_hooks h e.closes rest)
  by_hooks-rule tcp_hooks rest at p on bad = p
  by_hooks-rule tls_hooks rest at p on bad = elim (Bool-cases e.closes) [
    | inl closes ↦ rw closes p
    | inr stays ↦ rw stays (hangs-rule rest p (on (stays, at)))
  ]
  by_hooks-rule memory_hooks rest at p on bad = bad at

  pub destroy_underlying-rule :
      (type : DescriptorType) (rest : Turn)
      → P rest
      → (HangsUnderlying e t → P runs_on)
      → (t.hooks e.address ≡ memory_hooks → P fault)
      → P (destroy_underlying e t type rest)
  unfolding destroy_underlying
  destroy_underlying-rule listen_socket rest p on bad = p
  destroy_underlying-rule tcp_socket rest p on bad =
      by_hooks-rule (t.hooks e.address) rest refl p on bad
  destroy_underlying-rule tls_socket rest p on bad =
      by_hooks-rule (t.hooks e.address) rest refl p on bad

  pub serve-rule :
      (type : DescriptorType) (c : Connection)
      → P (after_handle e t type (handle_connection e.fuel e.kernel type t.statics c))
      → (t.hooks e.address ≡ memory_hooks → P fault)
      → P (serve e t type (some c))
  unfolding serve
  serve-rule type c p bad = by_unset (t.hooks e.address) refl (is_called e.kernel c.state)
    where
      by_unset :
          (h : Hooks)
          → t.hooks e.address ≡ h
          → (b : Bool)
          → P (
              if b && is_unset h
              then fault
              else after_handle e t type (handle_connection e.fuel e.kernel type t.statics c))
      by_unset h at false = p
      by_unset tcp_hooks at true = p
      by_unset tls_hooks at true = p
      by_unset memory_hooks at true = bad at

  pub after_set_up-rule :
      (o : Outcome (Hooks × Credentials))
      → ((hooks : _) (s : Credentials)
          → P (
              continues (record t {
                descriptors = accept_connection e.block e.accepted t.descriptors;
                hooks = hooks;
                credentials = s;
              })))
      → (o ≡ Statics.exits → P exits)
      → (o ≡ Statics.fault → P fault)
      → P (after_set_up e t o)
  after_set_up-rule (Statics.ok (h, s)) p ends bad = p (hooks_at e.block.address h t.hooks) s
  after_set_up-rule Statics.exits p ends bad = ends refl
  after_set_up-rule Statics.fault p ends bad = bad refl

  pub accept-rule :
      (o : Option DescriptorType)
      → ((hooks : _) (s : Credentials)
          → P (
              continues (record t {
                descriptors = accept_connection e.block e.accepted t.descriptors;
                hooks = hooks;
                credentials = s;
              })))
      → ((type : DescriptorType) → o ≡ some type → init_of e t type ≡ Statics.exits → P exits)
      → P (accept e t o)
  accept-rule none p ends = p t.hooks t.credentials
  accept-rule (some type) p ends =
      after_set_up-rule (init_of e t type) p (ends type refl)
        (λ bad. absurd (initialize_underlying_defined type memory_hooks e.setup t.credentials bad))
