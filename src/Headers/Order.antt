-- ===== src/Headers/Order.antt =====
-- The order of keys, and the list operations of http.c one node at a time.
use h_ss.Prelude.{
  ◌≡◌, refl, [], ◌∷◌, none, some, Ordering, arith, if◌then◌else◌, Bytes, strcmp, c_str, lex_self,
  lex_eq, lex-opposite, lex_trans, opposite, c_str_idem,
}
use h_ss.Headers.{Header, Headers, precedes, same, insert_header, set_header}
use mathlib.Core.Option

pub strcmp_trans :
    (a b c : Bytes) → strcmp a b ≡ Ordering.lt → strcmp b c ≡ Ordering.lt → strcmp a c ≡ Ordering.lt
unfolding strcmp
strcmp_trans a b c h k = lex_trans (c_str a) (c_str b) (c_str c) h k

pub strcmp-opposite : (a b : Bytes) → strcmp b a ≡ opposite (strcmp a b)
unfolding strcmp
strcmp-opposite a b = lex-opposite (c_str a) (c_str b)

-- Two names compare equal exactly when they are the same C string.
pub strcmp_eq : (a b : Bytes) → strcmp a b ≡ Ordering.eq → c_str a ≡ c_str b
unfolding strcmp
strcmp_eq a b h = lex_eq (c_str a) (c_str b) h

pub strcmp_self : (a : Bytes) → strcmp a a ≡ Ordering.eq
unfolding strcmp
strcmp_self a = lex_self (c_str a)

-- Equal C strings compare alike with any other.
pub strcmp_congr : (a b c : Bytes) → strcmp a b ≡ Ordering.eq → strcmp a c ≡ strcmp b c
unfolding strcmp
strcmp_congr a b c h = rw (lex_eq (c_str a) (c_str b) h)

pub strcmp_congr_right : (a b c : Bytes) → strcmp b c ≡ Ordering.eq → strcmp a b ≡ strcmp a c
unfolding strcmp
strcmp_congr_right a b c h = rw (lex_eq (c_str b) (c_str c) h)

-- A copy made by `strcpy` compares as its source.
pub strcmp-c_str : (a b : Bytes) → strcmp (c_str a) b ≡ strcmp a b
unfolding strcmp
strcmp-c_str a b = rw c_str_idem

pub strcmp-c_str_right : (a b : Bytes) → strcmp a (c_str b) ≡ strcmp a b
unfolding strcmp
strcmp-c_str_right a b = rw c_str_idem

-- Insertion, one node at a time.
pub insert_header_step :
    (h : Header) (hs : Headers) (x : Header)
    → insert_header (h ∷ hs) x ≡ (
        if precedes h.key x.key
        then Option.map (λ l. h ∷ l) (insert_header hs x)
        else if same h.key x.key
        then none
        else some (x ∷ h ∷ hs))
unfolding insert_header
insert_header_step h hs x = ground arith

pub set_header_step :
    (h : Header) (hs : Headers) (key value : Bytes)
    → set_header (h ∷ hs) key value ≡ (
        if precedes h.key key
        then h ∷ set_header hs key value
        else if same h.key key
        then record h { value = c_str value } ∷ hs
        else record { key = c_str key; value = c_str value } ∷ h ∷ hs)
unfolding set_header
set_header_step h hs key value = ground arith

pub insert_header_nil : (x : Header) → insert_header [] x ≡ some (x ∷ [])
unfolding insert_header
insert_header_nil x = refl

pub set_header_nil :
    (key value : Bytes)
    → set_header [] key value ≡ record { key = c_str key; value = c_str value } ∷ []
unfolding set_header
set_header_nil key value = refl
