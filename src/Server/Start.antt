-- ===== src/Server/Start.antt =====
-- server.c: the server with which the event loop begins.
use std.Path.{subst}
use mathlib.Core.Option
use h_ss.Prelude.{
  ℕ, ◌≡◌, refl, sym, ap, ◌∙◌, inl, inr, Bool, true, false, Bool-cases, if◌then◌else◌, List, [], ◌∷◌,
  Option, none, some, Bytes,
}
use h_ss.Authorization.{Authorization, get_authorization_code, characters, indices}
use h_ss.Hooks.{memory_hooks}
use h_ss.Tls.Credential.{no_credentials}
use h_ss.Statics
use h_ss.Statics.{Outcome, Statics, ◌>>=◌, defined}
use h_ss.Descriptors.{Descriptors, listen_socket, register_file_descriptor}
use h_ss.Sockets.{Block, Attempt, listen_address, listen_addresses}
use h_ss.Server.{Server, no_descriptors, start}
use h_ss.Server.Nodes.{OnNodes}
use h_ss.Server.Served.{InOrder, IsServed, register-InOrder}

listen_address-InOrder :
    (b : Block) (a : Attempt) (d : Descriptors)
    → OnNodes InOrder d.nodes
    → OnNodes InOrder (listen_address b a d).nodes
unfolding listen_address
listen_address-InOrder b a d h = by_socket a.socket
  where
    by_socket :
        (o : Option ℕ)
        → OnNodes InOrder
            (elim o as (λ _. Descriptors) [
              | none ↦ d
              | some fd ↦
                  if a.bound
                  then (if a.listening
                      then register_file_descriptor b.address b.memory d fd listen_socket
                      else d)
                  else d
            ]).nodes
    by_socket none = h
    by_socket (some fd) = elim (Bool-cases a.bound) [
      | inr e ↦ rw e h
      | inl bound ↦ elim (Bool-cases a.listening) [
        | inr e ↦ rw (bound, e) h
        | inl e ↦ rw (bound, e) (register-InOrder b.address b.memory d fd listen_socket h)
      ]
    ]

listen_addresses-InOrder :
    (targets : List (Block × Attempt)) (d : Descriptors)
    → OnNodes InOrder d.nodes
    → OnNodes InOrder (listen_addresses targets d).nodes
unfolding listen_addresses
listen_addresses-InOrder [] d h = h
listen_addresses-InOrder ((b, a) ∷ targets) d h =
    listen_addresses-InOrder targets (listen_address b a d) (listen_address-InOrder b a d h)

get_authorization_code-made :
    (s t : Authorization) (a b c : ℕ)
    → get_authorization_code s a b c ≡ some t
    → t.initialize ≡ false
unfolding get_authorization_code
get_authorization_code-made s t a b c e = by_flag s.initialize refl e
  where
    by_code :
        (o : Option Bytes)
        → (elim o as (λ _. Option Authorization) [
          | none ↦ none
          | some code ↦ some (record { initialize = false; code = code })
        ])
          ≡ some t
        → t.initialize ≡ false
    by_code none e = cc
    by_code (some code) e =
        ap (λ (x : Authorization). x.initialize) (sym (Option.some-injective _ t e))

    by_flag :
        (x : Bool)
        → s.initialize ≡ x
        → (if x
            then elim (characters (indices a b c)) as (λ _. Option Authorization) [
              | none ↦ none
              | some code ↦ some (record { initialize = false; code = code })
            ]
            else some s)
          ≡ some t
        → t.initialize ≡ false
    by_flag true made e = by_code (characters (indices a b c)) e
    by_flag false made e =
        ap (λ (x : Authorization). x.initialize) (sym (Option.some-injective s t e)) ∙ made

-- A server that starts has its code and runs as it did, and its nodes are in order.
abbrev pub IsStarted : List (Block × Attempt) → List (Block × Attempt) → Statics → Server → Type 0
IsStarted http https s t =
    (t.descriptors ≡ listen_addresses https (listen_addresses http no_descriptors))
    × (t.statics.authorization.initialize ≡ false)
    × (t.statics.running ≡ s.running)
    × IsServed t

abbrev Starts : List (Block × Attempt) → List (Block × Attempt) → Statics → Outcome Server → Type 0
Starts http https s (Statics.ok t) = IsStarted http https s t
Starts http https s Statics.exits = Unit
Starts http https s Statics.fault = Unit

start-Starts :
    (random : ℕ × ℕ × ℕ) (http https : List (Block × Attempt)) (s : Statics)
    → Starts http https s (start random http https s)
unfolding start
start-Starts random http https s =
    by_code (get_authorization_code s.authorization random.0 random.1 random.2) refl
  where
    by_code :
        (o : Option Authorization)
        → get_authorization_code s.authorization random.0 random.1 random.2 ≡ o
        → Starts http https s (
            defined o >>= λ a. Statics.ok (record {
              statics = record s { authorization = a };
              descriptors = listen_addresses https (listen_addresses http no_descriptors);
              hooks = λ _. memory_hooks;
              credentials = no_credentials;
            }))
    by_code none e = tt
    by_code (some a) e = (
      refl,
      get_authorization_code-made s.authorization a random.0 random.1 random.2 e,
      refl,
      listen_addresses-InOrder https (listen_addresses http no_descriptors)
          (listen_addresses-InOrder http no_descriptors tt),
    )

pub start-IsStarted :
    (random : ℕ × ℕ × ℕ) (http https : List (Block × Attempt)) (s : Statics) (t : Server)
    → start random http https s ≡ Statics.ok t
    → IsStarted http https s t
start-IsStarted random http https s t e =
    subst (Starts http https s) e (start-Starts random http https s)
