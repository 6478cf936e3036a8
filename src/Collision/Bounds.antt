-- ===== src/Collision/Bounds.antt =====
-- Which tiles a movement looks at.
use native.Mathlib.Nat.{mod-le}
use native.Mathlib.Decide.{dec_lt}
use endless_peak_server.Shared.{
  ℕ, zero, suc, ◌+◌, ◌-◌, ◌*◌, ◌%◌, ◌^◌, ◌≤◌, ◌<◌, ◌≡◌, refl, ◌&&◌, List, [], ◌∷◌, some, get_elem?,
  flatten, map, length, All, All-append, All-imp, arith, Bool-cases, inl, inr,
}
use endless_peak_server.Double.{Double}
use endless_peak_server.Swept.{Box, Tile, SweptData, no_hit}
use endless_peak_server.Collision.{
  counted, upto, tiles_in, find_collision_indices, sweep, swept_axis, meet,
}

counted-All : (n lo hi : ℕ) → lo + n ≤ hi + 1 → All (λ i. i ≤ hi) (counted n lo)
unfolding counted
counted-All zero lo hi h = tt
counted-All (suc n) lo hi h = (omega arith, counted-All n (lo + 1) hi (omega arith))

upto-All : (lo hi : ℕ) → All (λ i. i ≤ hi) (upto lo hi)
unfolding upto
upto-All lo hi = elim (dec_lt (hi + 1) lo) [
  | yes none_left ↦ let z : hi + 1 - lo ≡ 0 = omega arith in rw z tt
  | no some_left ↦ counted-All (hi + 1 - lo) lo hi (omega arith)
]

cell :
    (grid_x y rows x : ℕ)
    → y < rows
    → x ≤ grid_x - 1
    → 0 < grid_x
    → (y * grid_x + x) % 2 ^ 64 < grid_x * rows
cell grid_x y rows x hy hx p =
    let inside : y * grid_x + x < grid_x * rows = grind arith in
    omega (arith, inside, mod-le (y * grid_x + x) (2 ^ 64))

row-All :
    (grid_x y rows : ℕ) (xs : List ℕ)
    → y < rows
    → grid_x < 2 ^ 16
    → rows < 2 ^ 8
    → All (λ x. x ≤ grid_x - 1) xs
    → 0 < grid_x
    → All (λ i. i < grid_x * rows) (map (λ x. (y * grid_x + x) % 2 ^ 64) xs)
row-All grid_x y rows [] hy hx hr h p = tt
row-All grid_x y rows (x ∷ xs) hy hx hr (h, hs) p =
    (cell grid_x y rows x hy h p, row-All grid_x y rows xs hy hx hr hs p)

rows-All :
    (grid_x rows left right : ℕ) (ys : List ℕ)
    → 0 < grid_x
    → grid_x < 2 ^ 16
    → rows < 2 ^ 8
    → right ≤ grid_x - 1
    → All (λ y. y ≤ rows - 1) ys
    → 0 < rows
    → All
        (λ i. i < grid_x * rows)
        (flatten (map (λ y. map (λ x. (y * grid_x + x) % 2 ^ 64) (upto left right)) ys))
rows-All grid_x rows left right [] p hx hr h hs q = tt
rows-All grid_x rows left right (y ∷ ys) p hx hr h (hy, hs) q =
    All-append (λ i. i < grid_x * rows) _ _
      (row-All grid_x y rows (upto left right) (omega arith) hx hr
        (All-imp (λ x. x ≤ right) (λ x. x ≤ grid_x - 1) (upto left right) (λ x e. omega arith)
          (upto-All left right))
        p)
      (rows-All grid_x rows left right ys p hx hr h hs q)

-- A grid whose dimensions fit the parameter types and are not zero.
pub record IsGrid (grid_x grid_y : ℕ) : Type 0 where
  pub x_pos : 0 < grid_x
  pub x_fits : grid_x < 2 ^ 16
  pub y_pos : 0 < grid_y
  pub y_fits : grid_y < 2 ^ 8

tiles_in-All :
    (grid_x grid_y left top right bottom : ℕ)
    → IsGrid grid_x grid_y
    → right ≤ grid_x - 1
    → bottom ≤ grid_y - 1
    → All (λ i. i < grid_x * grid_y) (tiles_in grid_x left top right bottom)
unfolding tiles_in
tiles_in-All grid_x grid_y left top right bottom g hr hb =
    rows-All grid_x grid_y left right (upto top bottom) g.x_pos g.x_fits g.y_fits hr
      (All-imp (λ y. y ≤ bottom) (λ y. y ≤ grid_y - 1) (upto top bottom) (λ y e. omega arith)
        (upto-All top bottom))
      g.y_pos

pub get_elem?-some {ℓ} :
    {A : Type ℓ} (xs : List A) (i : ℕ) → i < length xs → (a : A) × (get_elem? xs i ≡ some a)
get_elem?-some [] i h = absurd (omega arith)
get_elem?-some (x ∷ xs) zero h = (x, refl)
get_elem?-some (x ∷ xs) (suc i) h = get_elem?-some xs i (omega arith)

module _ {D : Type 0} ⦃d : Double D⦄ where
  -- Whatever the box and its velocity, NaN and infinite values included, and however they convert to
  -- `std::size_t`, every index found lies inside the grid.
  pub find_collision_indices-All :
      (box : Box D) (tile grid_x grid_y : ℕ) (vel_x vel_y : D)
      → IsGrid grid_x grid_y
      → All (λ i. i < grid_x * grid_y) (find_collision_indices box tile grid_x grid_y vel_x vel_y)
  unfolding find_collision_indices
  find_collision_indices-All box tile grid_x grid_y vel_x vel_y g =
      elim (Bool-cases (d.eq vel_x (d.of_nat 0) && d.eq vel_y (d.of_nat 0))) [
        | inl still ↦ rw still tt
        | inr moving ↦ rw moving (
            tiles_in-All grid_x grid_y _ _ _ _ g (omega (arith, g.x_pos, g.x_fits))
              (omega (arith, g.y_pos, g.y_fits)))
      ]

  sweep_total :
      (is : List ℕ) (tiles : List (Tile D)) (box : Box D) (vel_x vel_y : D) (res : SweptData D)
      → All (λ i. i < length tiles) is
      → (s : SweptData D) × (sweep is tiles box vel_x vel_y res ≡ some s)
  unfolding sweep
  sweep_total [] tiles box vel_x vel_y res h = (res, refl)
  sweep_total (i ∷ is) tiles box vel_x vel_y res (hi, hs) =
      let (t, e) = get_elem?-some tiles i hi in
      let (s, r) = sweep_total is tiles box vel_x vel_y (meet box vel_x vel_y res t) hs in
      (s, rw e r)

  -- On a map of at least the grid's size `SweptAxis` reads no tile outside the map and returns a result.
  pub swept_axis_total :
      (box : Box D) (tile grid_x grid_y : ℕ) (tiles : List (Tile D)) (vel_x vel_y : D)
      → IsGrid grid_x grid_y
      → grid_x * grid_y ≤ length tiles
      → (s : SweptData D) × (swept_axis box tile grid_x grid_y tiles vel_x vel_y ≡ some s)
  unfolding swept_axis
  swept_axis_total box tile grid_x grid_y tiles vel_x vel_y g e =
      let found = find_collision_indices box tile grid_x grid_y vel_x vel_y in
      sweep_total found tiles box vel_x vel_y no_hit (
        All-imp (λ i. i < grid_x * grid_y) (λ i. i < length tiles) found (λ i h. omega arith)
          (find_collision_indices-All box tile grid_x grid_y vel_x vel_y g))
