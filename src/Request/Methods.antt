-- ===== src/Request/Methods.antt =====
-- The method of a message, and what the parser compares it with.
use h_ss.Prelude.{◌≡◌, ◌↔◌, refl, inl, inr, arith, true, [], ◌∷◌, Bytes, codes, length}
use h_ss.Request.{strncmp_eq}
use h_ss.Request.Grammar.{IsGetLike}

pub method_language : (m : Bytes) → (strncmp_eq (codes "GET") m (length m) ≡ true) ↔ IsGetLike m
unfolding strncmp_eq
method_language [] = (λ e. inl refl, λ e. refl)
method_language (a ∷ []) = (λ e. inl (ground arith), λ d. ground arith)
method_language (a ∷ b ∷ []) = (λ e. inl (ground arith), λ d. ground arith)
method_language (a ∷ b ∷ c ∷ []) = (λ e. inl (ground arith), λ d. ground arith)
method_language (a ∷ b ∷ c ∷ d ∷ m) = (λ e. inr (m, ground arith), λ d. ground arith)
