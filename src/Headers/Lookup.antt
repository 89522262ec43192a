-- ===== src/Headers/Lookup.antt =====
-- The sorted header list implements a finite map keyed by C strings.
use h_ss.Prelude.{
  ◌≡◌, ◌≢◌, ◌↔◌, refl, [], ◌∷◌, Option, none, some, Ordering, arith, if◌then◌else◌, Bytes, strcmp,
  c_str, Option-cases, Ordering-cases, inl, inr,
}
use h_ss.Headers.{Header, Headers, precedes, same, insert_header, set_header, get}
use h_ss.Headers.Order.{
  strcmp_self, strcmp_trans, strcmp-opposite, strcmp_congr, strcmp-c_str, strcmp-c_str_right,
  insert_header_step, set_header_step, insert_header_nil, set_header_nil,
}

-- The abstract map: the value of the first header with that name, wherever it stands.
unfoldable pub find : Headers → Bytes → Option Bytes
find [] name = none
find (h ∷ hs) name = let rest = find hs name in if same h.key name then some h.value else rest

abbrev pub Above : Bytes → Headers → Type 0
Above k [] = Unit {0}
Above k (h ∷ hs) = strcmp k h.key ≡ Ordering.lt

-- Keys rise strictly along the list.
abbrev pub IsSorted : Headers → Type 0
IsSorted [] = Unit {0}
IsSorted (h ∷ hs) = Above h.key hs × IsSorted hs

Above-trans : (k j : Bytes) (hs : Headers) → strcmp k j ≡ Ordering.lt → Above j hs → Above k hs
Above-trans k j [] h a = tt
Above-trans k j (x ∷ hs) h a = strcmp_trans k j x.key h a

pub find-Above : (k : Bytes) (hs : Headers) → Above k hs → IsSorted hs → find hs k ≡ none
unfolding find same
find-Above k [] a s = refl
find-Above k (h ∷ hs) a s =
    ground (arith, strcmp-opposite k h.key, Above-trans k h.key hs, find-Above k hs)

-- In a sorted list the loop that stops at the first key that is not smaller finds what a full scan
-- finds.
pub get-find : (hs : Headers) (name : Bytes) → IsSorted hs → get hs name ≡ find hs name
unfolding get find precedes same
get-find [] name s = refl
get-find (h ∷ hs) name s = ground (
  arith,
  get-find hs name,
  strcmp-opposite h.key name,
  Above-trans name h.key hs,
  find-Above name hs,
)

-- In a sorted list, where the insertion of a header succeeds, its name then has its value, and every
-- other name the value that it had, or none.
pub find-insert_header :
    (hs : Headers) (x : Header) (out : Headers) (j : Bytes)
    → IsSorted hs
    → insert_header hs x ≡ some out
    → find out j ≡ (if same x.key j then some x.value else find hs j)
unfolding find precedes same
find-insert_header [] x out j s e = ground (arith, insert_header_nil x)
find-insert_header (h ∷ hs) x out j s e = elim (Option-cases (insert_header hs x)) [
  | inl none' ↦ ground (arith, insert_header_step h hs x)
  | inr (l, some') ↦ ground (
    arith,
    insert_header_step h hs x,
    find-insert_header hs x l j,
    strcmp_congr h.key j x.key,
    strcmp-opposite h.key x.key,
    strcmp-opposite j x.key,
  )
]

Above-insert_header :
    (k : Bytes) (hs : Headers) (x : Header) (out : Headers)
    → Above k hs
    → strcmp k x.key ≡ Ordering.lt
    → insert_header hs x ≡ some out
    → Above k out
Above-insert_header k [] x out a h e = ground (arith, insert_header_nil x)
Above-insert_header k (g ∷ hs) x out a h e = elim (Option-cases (insert_header hs x)) [
  | inl none' ↦ ground (arith, insert_header_step g hs x)
  | inr (l, some') ↦ ground (arith, insert_header_step g hs x)
]

-- A successful insertion into a sorted list leaves a sorted list, with no key twice.
pub insert_header-IsSorted :
    (hs : Headers) (x : Header) (out : Headers)
    → IsSorted hs
    → insert_header hs x ≡ some out
    → IsSorted out
unfolding precedes same
insert_header-IsSorted [] x out s e = ground (arith, insert_header_nil x)
insert_header-IsSorted (h ∷ hs) x out s e = elim (Option-cases (insert_header hs x)) [
  | inl none' ↦ ground (arith, insert_header_step h hs x, strcmp-opposite h.key x.key)
  | inr (l, some') ↦ ground (
    arith,
    insert_header_step h hs x,
    strcmp-opposite h.key x.key,
    insert_header-IsSorted hs x l s.1 some',
    Above-insert_header h.key hs x l s.0,
  )
]

pub insert_header-fresh :
    (hs : Headers) (x : Header)
    → find hs x.key ≡ none
    → (out : Headers) × (insert_header hs x ≡ some out)
unfolding find precedes same
insert_header-fresh [] x e = (x ∷ [], insert_header_nil x)
insert_header-fresh (h ∷ hs) x e = elim (Option-cases (insert_header hs x)) [
  | inl none' ↦ (x ∷ h ∷ hs, ground (arith, insert_header_step h hs x, insert_header-fresh hs x))
  | inr (l, some') ↦ elim (Ordering-cases (strcmp h.key x.key)) [
    | inl lt' ↦ (h ∷ l, ground (arith, insert_header_step h hs x))
    | inr ge ↦ (x ∷ h ∷ hs, ground (arith, insert_header_step h hs x))
  ]
]

pub insert_header-absent :
    (hs : Headers) (x : Header) (out : Headers)
    → IsSorted hs
    → insert_header hs x ≡ some out
    → find hs x.key ≡ none
unfolding find precedes same
insert_header-absent [] x out s e = refl
insert_header-absent (h ∷ hs) x out s e = elim (Option-cases (insert_header hs x)) [
  | inl none' ↦ ground (
    arith,
    insert_header_step h hs x,
    strcmp-opposite h.key x.key,
    find-Above x.key hs,
    Above-trans x.key h.key hs,
  )
  | inr (l, some') ↦ ground (
    arith,
    insert_header_step h hs x,
    insert_header-absent hs x l s.1 some',
    strcmp-opposite h.key x.key,
    find-Above x.key hs,
    Above-trans x.key h.key hs,
  )
]

-- In a sorted list, insertion is refused exactly when the name has a value already.
pub insert_header-none :
    (hs : Headers) (x : Header) → IsSorted hs → (insert_header hs x ≡ none) ↔ (find hs x.key ≢ none)
insert_header-none hs x s = (
  λ e n. let (out, made) = insert_header-fresh hs x n in cc,
  λ ne. elim (Option-cases (insert_header hs x)) [
    | inl e ↦ e
    | inr (out, made) ↦ absurd (ne (insert_header-absent hs x out s made))
  ],
)

-- In a sorted list, setting a header gives its name the string of the value, and leaves every other
-- name the value that it had, or none.
pub find-set_header :
    (hs : Headers) (key value j : Bytes)
    → IsSorted hs
    → find (set_header hs key value) j ≡ (if same key j then some (c_str value) else find hs j)
unfolding find precedes same
find-set_header [] key value j s = ground (arith, set_header_nil key value, strcmp-c_str key j)
find-set_header (h ∷ hs) key value j s = ground (
  arith,
  set_header_step h hs key value,
  find-set_header hs key value j s.1,
  strcmp_congr h.key key j,
  strcmp_congr h.key j key,
  strcmp-opposite h.key key,
  strcmp-opposite key j,
  strcmp-c_str key j,
)

Above-set_header :
    (k : Bytes) (hs : Headers) (key value : Bytes)
    → Above k hs
    → strcmp k key ≡ Ordering.lt
    → Above k (set_header hs key value)
Above-set_header k [] key value a h =
    ground (arith, set_header_nil key value, strcmp-c_str_right k key)
Above-set_header k (g ∷ hs) key value a h =
    ground (arith, set_header_step g hs key value, strcmp-c_str_right k key)

-- Setting a header in a sorted list leaves a sorted list, with no key twice.
pub set_header-IsSorted :
    (hs : Headers) (key value : Bytes) → IsSorted hs → IsSorted (set_header hs key value)
unfolding precedes same
set_header-IsSorted [] key value s = ground (arith, set_header_nil key value)
set_header-IsSorted (h ∷ hs) key value s = ground (
  arith,
  set_header_step h hs key value,
  strcmp-opposite h.key key,
  strcmp-c_str key h.key,
  set_header-IsSorted hs key value s.1,
  Above-set_header h.key hs key value s.0,
)

-- Setting a header again to the same value changes nothing.
pub set_header_idem :
    (hs : Headers) (key value : Bytes)
    → set_header (set_header hs key value) key value ≡ set_header hs key value
unfolding precedes same
set_header_idem [] key value =
    let h : Header = record { key = c_str key; value = c_str value } in
    ground (
      arith,
      set_header_nil key value,
      set_header_step h [] key value,
      strcmp-c_str key key,
      strcmp_self key,
    )
set_header_idem (h ∷ hs) key value =
    let new : Header = record { key = c_str key; value = c_str value } in
    let changed : Header = record h { value = c_str value } in
    ground (
      arith,
      set_header_step h hs key value,
      set_header_step h (set_header hs key value) key value,
      set_header_step new (h ∷ hs) key value,
      set_header_step changed hs key value,
      set_header_idem hs key value,
      strcmp-c_str key key,
      strcmp_self key,
    )
