-- ===== src/Request/Names.antt =====
-- The header lines of a message, each with a name of its own, and what the parser does with them.
use mathlib.Core.Option
use h_ss.Prelude.{
  ◌≡◌, refl, sym, ap, ◌∙◌, inl, inr, arith, Bool-cases, Option-cases, List, [], ◌∷◌, none, some,
  Bytes,
}
use h_ss.Headers.{Header, Headers, insert_header, precedes, same}
use h_ss.Headers.Order.{insert_header_step}
use h_ss.Headers.Lookup.{
  IsSorted, find, insert_header-IsSorted, insert_header-fresh, insert_header-absent,
}
use h_ss.Request.Grammar

find-IsNew : (hs : Headers) (k : Bytes) → find hs k ≡ none → Grammar.IsNew k hs
unfolding find same
find-IsNew [] k e = tt
find-IsNew (h ∷ hs) k e = elim (Bool-cases (same h.key k)) [
  | inl s ↦ absurd (ground arith)
  | inr s ↦ ((λ q. ground arith), find-IsNew hs k (rw s at e))
]

IsNew-find : (hs : Headers) (k : Bytes) → Grammar.IsNew k hs → find hs k ≡ none
unfolding find same
IsNew-find [] k h = refl
IsNew-find (h ∷ hs) k (d, more) = let rest = IsNew-find hs k more in ground (arith, d, rest)

-- A header that is inserted stands at the place of its name.
insert_header-place :
    (hs out : Headers) (x : Header) → insert_header hs x ≡ some out → out ≡ Grammar.place x hs
unfolding Grammar.place precedes same
insert_header-place [] out x e = unfold insert_header in sym (Option.some-injective _ out e)
insert_header-place (h ∷ hs) out x e = elim (Option-cases (insert_header hs x)) [
  | inl n ↦ ground (arith, insert_header_step h hs x, n)
  | inr (o, m) ↦
      let placed = insert_header-place hs o x m in
      ground (arith, insert_header_step h hs x, m, placed)
]

-- The lines are taken exactly when each has a name of its own, and then they stand in the order of
-- their names.
pub insert_all-place_all :
    (hs out : Headers) (ls : List Grammar.Line)
    → IsSorted hs
    → Grammar.insert_all hs ls ≡ some out
    → Grammar.AreNew hs ls × (out ≡ Grammar.place_all hs ls)
unfolding Grammar.insert_all Grammar.AreNew Grammar.place_all
insert_all-place_all hs out [] sorted e = (tt, sym (Option.some-injective hs out e))
insert_all-place_all hs out (l ∷ ls) sorted e =
    elim (Option-cases (insert_header hs (Grammar.header_of l))) [
      | inl n ↦ absurd (ground arith)
      | inr (one, m) ↦
          let placed = insert_header-place hs one (Grammar.header_of l) m in
          let rest =
            insert_all-place_all one out ls
              (insert_header-IsSorted hs (Grammar.header_of l) one sorted m)
              (rw (m, Grammar.insert_all) at e) in
          rw⁻¹ placed (
            (
              find-IsNew hs l.key (insert_header-absent hs (Grammar.header_of l) one sorted m),
              rest.0,
            ),
            rest.1,
          )
    ]

pub place_all-insert_all :
    (hs : Headers) (ls : List Grammar.Line)
    → Grammar.AreNew hs ls
    → Grammar.insert_all hs ls ≡ some (Grammar.place_all hs ls)
unfolding Grammar.insert_all Grammar.AreNew Grammar.place_all
place_all-insert_all hs [] new = refl
place_all-insert_all hs (l ∷ ls) (here, more) =
    let (out, made) = insert_header-fresh hs (Grammar.header_of l) (IsNew-find hs l.key here) in
    let placed = insert_header-place hs out (Grammar.header_of l) made in
    rw (made ∙ ap (λ o. some o) placed, Grammar.insert_all)
      (place_all-insert_all (Grammar.place (Grammar.header_of l) hs) ls more)
