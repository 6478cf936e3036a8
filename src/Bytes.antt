-- ===== src/Bytes.antt =====
-- Values in memory: the bytes of a number, least significant first (the server's host order), and
-- `swap_endian` of shared/protocol/net_packet.hpp, which reverses them in place.
use endless_peak_server.Shared.{ℕ, zero, suc, ◌+◌, ◌*◌, ◌/◌, ◌%◌, List, [], ◌∷◌, reverse}
pub mod Laws

-- The object representation of a value of `n` bytes.
unfoldable pub to_bytes : ℕ → ℕ → List ℕ
to_bytes zero v = []
to_bytes (suc n) v = (v % 256) ∷ to_bytes n (v / 256)

-- The value whose representation is the given bytes.
unfoldable pub of_bytes : List ℕ → ℕ
of_bytes [] = 0
of_bytes (b ∷ bs) = b + 256 * of_bytes bs

-- `swap_endian<T>` with `sizeof(T)` equal to `n`.
unfoldable pub swap_endian : ℕ → ℕ → ℕ
swap_endian n v = of_bytes (reverse (to_bytes n v))
