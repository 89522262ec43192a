-- ===== src/Server/Nodes.antt =====
-- server.c: how the operations on the nodes of the descriptor list act on each node.
use mathlib.Core.Option
use std.Path.{subst}
use h_ss.Prelude.{
  ℕ, ◌≡◌, ◌≢◌, refl, ap, inl, inr, arith, List, [], ◌∷◌, Option, some, ◌==◌, All, Bool-cases,
}
use h_ss.Descriptors.{Connection, Information, Node, find_node, free_node}
use h_ss.Server.{set_connection}

module _ {ℓ} (P : Information → Type ℓ) where
  abbrev pub OnNodes : List Node → Type ℓ
  OnNodes = All (λ n. P n.information)

  pub OnNodes-find :
      (ns : List Node) (a : ℕ) (i : Information) → OnNodes ns → find_node ns a ≡ some i → P i
  unfolding find_node
  OnNodes-find [] a i h e = cc
  OnNodes-find (n ∷ ns) a i h e = elim (Bool-cases (n.address == a)) [
    | inl here ↦ subst P (Option.some-injective _ _ (rw here at e)) h.0
    | inr there ↦ OnNodes-find ns a i h.1 (rw there at e)
  ]

  pub OnNodes-free : (ns : List Node) (a : ℕ) → OnNodes ns → OnNodes (free_node ns a)
  unfolding free_node
  OnNodes-free [] a h = h
  OnNodes-free (n ∷ ns) a h = elim (Bool-cases (n.address == a)) [
    | inl here ↦ rw here h.1
    | inr there ↦ rw there (h.0, OnNodes-free ns a h.1)
  ]

  pub OnNodes-set :
      (ns : List Node) (a : ℕ) (c : Connection)
      → OnNodes ns
      → ((i : Information) → find_node ns a ≡ some i → P (record i { connection = some c }))
      → OnNodes (set_connection ns a c)
  unfolding find_node set_connection
  OnNodes-set [] a c h k = h
  OnNodes-set (n ∷ ns) a c h k = elim (Bool-cases (n.address == a)) [
    | inl here ↦ rw here (k n.information (rw here refl), h.1)
    | inr there ↦ rw there (h.0, OnNodes-set ns a c h.1 (λ i e. k i (rw there e)))
  ]

-- The changed node is found with its new connection.
pub find-set_connection :
    (ns : List Node) (a : ℕ) (c : Connection) (i : Information)
    → find_node ns a ≡ some i
    → find_node (set_connection ns a c) a ≡ some (record i { connection = some c })
unfolding find_node set_connection
find-set_connection [] a c i e = cc
find-set_connection (n ∷ ns) a c i e = elim (Bool-cases (n.address == a)) [
  | inl here ↦
      let changed : Information → Option Information =
        λ x. some (record x { connection = some c }) in
      rw (here, here) (ap changed (Option.some-injective _ _ (rw here at e)))
  | inr there ↦ rw (there, there) (find-set_connection ns a c i (rw there at e))
]

-- The other nodes are found as they were.
pub find-set_connection-other :
    (ns : List Node) (a b : ℕ) (c : Connection)
    → a ≢ b
    → find_node (set_connection ns a c) b ≡ find_node ns b
unfolding find_node set_connection
find-set_connection-other [] a b c d = refl
find-set_connection-other (n ∷ ns) a b c d =
    let rest = find-set_connection-other ns a b c d in
    elim (Bool-cases (n.address == a)) [
      | inl here ↦ rw here (ground arith)
      | inr there ↦ rw there (ground (arith, rest))
    ]

pub find-free_node-other :
    (ns : List Node) (a b : ℕ) → a ≢ b → find_node (free_node ns a) b ≡ find_node ns b
unfolding find_node free_node
find-free_node-other [] a b d = refl
find-free_node-other (n ∷ ns) a b d =
    let rest = find-free_node-other ns a b d in
    elim (Bool-cases (n.address == a)) [
      | inl here ↦ rw here (ground arith)
      | inr there ↦ rw there (ground (arith, rest))
    ]

-- A node that is freed may have been changed before.
pub free-set_connection :
    (ns : List Node) (a : ℕ) (c : Connection) → free_node (set_connection ns a c) a ≡ free_node ns a
unfolding set_connection free_node
free-set_connection [] a c = refl
free-set_connection (n ∷ ns) a c = elim (Bool-cases (n.address == a)) [
  | inl here ↦ rw (here, here) refl
  | inr there ↦ rw (there, there) (ap (λ rest. n ∷ rest) (free-set_connection ns a c))
]
