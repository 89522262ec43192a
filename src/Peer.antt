-- ===== src/Peer.antt =====
-- common.c: the address and the port of the peer, from the bytes of its `sockaddr_storage`. `inet_ntop`
-- is a parameter.
use h_ss.Prelude.{ℕ, ◌+◌, ◌*◌, ◌/◌, ◌%◌, ◌<◌, ◌≡◌, arith, ◌∷◌, Option, none, some, Bytes, drop, nth}
use h_ss.Sockets.{Family, inet, inet6, other}

-- `ss_family`, and all bytes of the structure, those of the family in front.
pub record SocketAddress : Type 0 where
  pub ss_family : Family
  pub bytes : Bytes

abbrev pub family_size : ℕ
family_size = 2

-- Where `sin_addr` and `sin6_addr` stand.
abbrev pub address_offset : Family → ℕ
address_offset inet = 4
address_offset inet6 = 8
address_offset other = 8

unfoldable pub get_address : (Family → Bytes → Bytes) → SocketAddress → Bytes
get_address inet_ntop address =
    inet_ntop address.ss_family (drop (address_offset address.ss_family) address.bytes)

-- `ntohs` on a machine whose own order is the other one.
abbrev pub ntohs : ℕ → ℕ
ntohs port = port % 256 * 256 + port / 256

-- The two bytes behind the family as a number of the machine, the low byte first. `none` is a read past
-- the end.
unfoldable pub get_port : SocketAddress → Option ℕ
get_port address = elim (nth address.bytes family_size) [
  | none ↦ none
  | some low ↦ elim (nth address.bytes (family_size + 1)) [
    | none ↦ none
    | some high ↦ some (ntohs (low + high * 256))
  ]
]

-- A port that stands in the structure in the order of the network, is read.
pub get_port_lem :
    (family : Family) (a b port : ℕ) (rest : Bytes)
    → port < 256 * 256
    → get_port (record { ss_family = family; bytes = a ∷ b ∷ port / 256 ∷ port % 256 ∷ rest })
      ≡ some port
unfolding get_port
get_port_lem family a b port rest small = ground arith
