-- ===== src/Config.antt =====
-- `Config::InitGameConfig` of shared/config/config.cpp: what it does with the map once the JSON
-- library has read the numbers.
use endless_peak_server.Shared.{
  ℕ, zero, suc, ◌+◌, ◌*◌, ◌%◌, ◌≡◌, Bool, true, false, if◌then◌else◌, ltb, int_mul, List, [], ◌∷◌,
  ◌++◌, Option, none, some, ◌>>=◌, get_elem?,
}
pub mod Map
pub mod Load
pub mod Instance
pub mod Fits

-- `game_config_.map_[i] = tmp[i]` for the `n` indices from `i` on: an `int`, given by its two's
-- complement, goes to a `std::uint8_t`. `none` is a read behind the end of `tmp`.
unfoldable pub copy_from : ℕ → ℕ → List ℕ → Option (List ℕ)
copy_from zero i tmp = some []
copy_from (suc n) i tmp =
    get_elem? tmp i >>= λ v. copy_from n (i + 1) tmp >>= λ rest. some ((v % 256) ∷ rest)

-- The product of the sizes is an `int`; `none` also when it overflows.
unfoldable pub copy_map : ℕ → ℕ → List ℕ → Option (List ℕ)
copy_map grid_x grid_y tmp = int_mul grid_x grid_y >>= λ n. copy_from n 0 tmp

-- The loops that print the map read the index `y * 25 + x` for `y` and `x` below 25, in order.
unfoldable pub print_from : ℕ → ℕ → List ℕ → Option (List ℕ)
print_from zero i cells = some []
print_from (suc n) i cells =
    get_elem? cells i >>= λ v. print_from n (i + 1) cells >>= λ rest. some (v ∷ rest)

unfoldable pub print_map : List ℕ → Option (List ℕ)
print_map cells = print_from 625 0 cells

-- The map of the game configuration, after it was printed.
unfoldable pub init_map : ℕ → ℕ → List ℕ → Option (List ℕ)
init_map grid_x grid_y tmp =
    copy_map grid_x grid_y tmp >>= λ cells. print_map cells >>= λ printed. some cells
