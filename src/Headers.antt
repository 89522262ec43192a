-- ===== src/Headers.antt =====
-- http.c: the sorted, singly linked list of headers that requests and responses keep.
-- A block that ends in a NUL is kept without it; `next` is the tail of the list.
pub mod Order
pub mod Lookup
mod Tests
use h_ss.Prelude.{
  Bool, true, false, List, [], ◌∷◌, ◌++◌, Option, none, some, Ordering, if◌then◌else◌, Bytes,
  strcmp, c_str,
}

pub record Header : Type 0 where
  pub key : Bytes
  pub value : Bytes

abbrev pub Headers : Type 0
Headers = List Header

-- `strcmp(a, b) < 0`
unfoldable pub precedes : Bytes → Bytes → Bool
precedes a b = elim (strcmp a b) [ Ordering.lt ↦ true | _ ↦ false ]

-- `strcmp(a, b) == 0`
unfoldable pub same : Bytes → Bytes → Bool
same a b = elim (strcmp a b) [ Ordering.eq ↦ true | _ ↦ false ]

-- Where the search stopped: `*prev` is the link between the two parts.
pub record Place : Type 0 where
  pub before : Headers
  pub after : Headers

unfoldable pub seek : Headers → Bytes → Place
seek [] name = record { before = []; after = [] }
seek (h ∷ hs) name =
    let rest = seek hs name in
    if precedes h.key name
    then record { before = h ∷ rest.before; after = rest.after }
    else record { before = []; after = h ∷ hs }

-- `*target`: the header at `*prev` if its key is the name.
unfoldable pub match_first : Headers → Bytes → Option Header
match_first [] name = none
match_first (h ∷ hs) name = if same h.key name then some h else none

pub record Found : Type 0 where
  pub target : Option Header
  pub prev : Place

unfoldable pub lookup_header : Headers → Bytes → Found
unfolding seek match_first
lookup_header headers name =
    let prev = seek headers name in record { target = match_first prev.after name; prev = prev }

-- The new header stands at `*prev`.
abbrev pub link : Place → Header → Headers
link p h = p.before ++ (h ∷ p.after)

-- `none` is HTTP_ERROR_CODE_DUPLICATE_HEADER_KEY.
unfoldable pub insert_header : Headers → Header → Option Headers
unfolding lookup_header
insert_header headers header =
    let found = lookup_header headers header.key in
    elim found.target [ none ↦ some (link found.prev header) | some _ ↦ none ]

-- `while (header != NULL && strcmp(header->key, name) < 0)` and the test behind it, as the
-- request's query makes them.
unfoldable pub get : Headers → Bytes → Option Bytes
get [] name = none
get (h ∷ hs) name =
    let rest = get hs name in
    if precedes h.key name then rest else if same h.key name then some h.value else none

-- `target->value = value` for the header at `*prev`.
unfoldable pub revalue : Headers → Bytes → Headers
revalue [] value = []
revalue (h ∷ hs) value = record h { value = value } ∷ hs

-- The list part of `http_response_set_header`: the value of an existing header is replaced, and
-- a new header is linked in at `*prev`. Key and value are copied by `strcpy`.
unfoldable pub set_header : Headers → Bytes → Bytes → Headers
unfolding lookup_header revalue
set_header headers key value =
    let found = lookup_header headers key in
    elim found.target [
      | some _ ↦ found.prev.before ++ revalue found.prev.after (c_str value)
      | none ↦ link found.prev (record { key = c_str key; value = c_str value })
    ]
