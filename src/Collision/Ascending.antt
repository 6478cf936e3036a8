-- ===== src/Collision/Ascending.antt =====
-- The order of the tiles that a movement looks at, and a `std::set` of them.
use native.Mathlib.Decide.{dec_lt}
use endless_peak_server.Shared.{
  ℕ, zero, suc, ◌+◌, ◌-◌, ◌*◌, ◌%◌, ◌^◌, ◌≤◌, ◌<◌, ◌≡◌, refl, sym, ◌∙◌, ◌&&◌, ltb, ◌==◌,
  if◌then◌else◌, List, [], ◌∷◌, ◌++◌, flatten, map, subst, All, All-append, All-imp, arith,
  append_assoc, append-nil, Bool-cases, inl, inr,
}
use endless_peak_server.Double.{Double}
use endless_peak_server.Swept.{Box}
use endless_peak_server.Collision.{counted, upto, tiles_in, find_collision_indices}
use endless_peak_server.Collision.Bounds.{IsGrid}

-- `std::set::insert`, on the elements in ascending order, and one insertion after another.
abbrev pub set_insert : ℕ → List ℕ → List ℕ
set_insert x [] = x ∷ []
set_insert x (y ∷ ys) =
    let rest = set_insert x ys in
    if ltb x y then x ∷ y ∷ ys else if x == y then y ∷ ys else y ∷ rest

abbrev pub set_of : List ℕ → List ℕ → List ℕ
set_of [] s = s
set_of (x ∷ xs) s = set_of xs (set_insert x s)

-- Strictly ascending, from a bound on.
abbrev pub Above : ℕ → List ℕ → Type 0
Above b [] = Unit
Above b (x ∷ xs) = (b ≤ x) × Above (x + 1) xs

abbrev Below : ℕ → List ℕ → Type 0
Below c = All (λ i. i < c)

Above-weaken : (b c : ℕ) (xs : List ℕ) → b ≤ c → Above c xs → Above b xs
Above-weaken b c [] h a = tt
Above-weaken b c (x ∷ xs) h (first, rest) = (omega arith, rest)

Above-append :
    (b c : ℕ) (xs ys : List ℕ) → b ≤ c → Above b xs → Below c xs → Above c ys → Above b (xs ++ ys)
Above-append b c [] ys h a l a' = Above-weaken b c ys h a'
Above-append b c (x ∷ xs) ys h (first, rest) (small, l) a' =
    (first, Above-append (x + 1) c xs ys (omega arith) rest l a')

set_insert-end : (x : ℕ) (s : List ℕ) → Below x s → set_insert x s ≡ s ++ (x ∷ [])
set_insert-end x [] l = refl
set_insert-end x (y ∷ ys) (small, l) = ground (arith, set_insert-end x ys l)

set_of-Above : (b : ℕ) (xs s : List ℕ) → Above b xs → Below b s → set_of xs s ≡ s ++ xs
set_of-Above b [] s a l = sym (append-nil s)
set_of-Above b (x ∷ xs) s (first, rest) l =
    let below = All-imp (λ i. i < b) (λ i. i < x) s (λ i e. omega arith) l in
    let next =
      All-append (λ i. i < x + 1) s (x ∷ [])
        (All-imp (λ i. i < b) (λ i. i < x + 1) s (λ i e. omega arith) l) (omega arith, tt) in
    rw (set_insert-end x s below)
      (set_of-Above (x + 1) xs (s ++ (x ∷ [])) rest next ∙ append_assoc s (x ∷ []) xs)

row-Above :
    (p n lo : ℕ) → p + lo + n ≤ 2 ^ 64 → Above (p + lo) (map (λ x. (p + x) % 2 ^ 64) (counted n lo))
unfolding counted
row-Above p zero lo h = tt
row-Above p (suc n) lo h =
    let small : (p + lo) % 2 ^ 64 ≡ p + lo = omega arith in
    let rest = row-Above p n (lo + 1) (omega arith) in
    (omega (arith, small), Above-weaken _ (p + (lo + 1)) _ (omega (arith, small)) rest)

row-Below :
    (p n lo c : ℕ)
    → p + lo + n ≤ c
    → c ≤ 2 ^ 64
    → Below c (map (λ x. (p + x) % 2 ^ 64) (counted n lo))
unfolding counted
row-Below p zero lo c h h' = tt
row-Below p (suc n) lo c h h' = (omega arith, row-Below p n (lo + 1) c (omega arith) h')

next_row : (y g : ℕ) → (y + 1) * g ≡ y * g + g
next_row y g = grind arith

row_fits : (y g : ℕ) → y < 256 → g < 2 ^ 16 → y * g + g ≤ 2 ^ 64
row_fits y g hy hg = grind arith

-- The indices of a row.
abbrev row : ℕ → ℕ → ℕ → ℕ → List ℕ
row g left right y = map (λ x. (y * g + x) % 2 ^ 64) (upto left right)

row-Ascends :
    (g left right y : ℕ)
    → y < 256
    → g < 2 ^ 16
    → right < g
    → Above (y * g) (row g left right y) × Below (y * g + g) (row g left right y)
unfolding upto counted
row-Ascends g left right y hy hg hr =
    let fits = row_fits y g hy hg in
    elim (dec_lt (right + 1) left) [
      | yes none_left ↦ let z : right + 1 - left ≡ 0 = omega arith in rw z (tt, tt)
      | no some_left ↦ (
        Above-weaken (y * g) (y * g + left) _ (omega arith)
            (row-Above (y * g) (right + 1 - left) left (omega (arith, fits))),
        row-Below (y * g) (right + 1 - left) left (y * g + g) (omega arith) fits,
      )
    ]

rows-Above :
    (g left right n lo : ℕ)
    → lo + n ≤ 256
    → g < 2 ^ 16
    → right < g
    → Above (lo * g) (flatten (map (row g left right) (counted n lo)))
unfolding counted
rows-Above g left right zero lo h hg hr = tt
rows-Above g left right (suc n) lo h hg hr =
    let (ascends, below) = row-Ascends g left right lo (omega arith) hg hr in
    let rest = rows-Above g left right n (lo + 1) (omega arith) hg hr in
    Above-append (lo * g) (lo * g + g) (row g left right lo) _ (omega arith) ascends below (
      subst (λ b. Above b (flatten (map (row g left right) (counted n (lo + 1))))) (next_row lo g)
        rest)

tiles_in-Above :
    (g left top right bottom : ℕ)
    → bottom < 256
    → g < 2 ^ 16
    → right < g
    → Above 0 (tiles_in g left top right bottom)
unfolding tiles_in upto counted
tiles_in-Above g left top right bottom hb hg hr = elim (dec_lt (bottom + 1) top) [
  | yes none_left ↦ let z : bottom + 1 - top ≡ 0 = omega arith in rw z tt
  | no some_left ↦
      Above-weaken 0 (top * g) _ (omega arith)
        (rows-Above g left right (bottom + 1 - top) top (omega arith) hg hr)
]

module _ {D : Type 0} ⦃d : Double D⦄ where
  -- On a grid that fits the parameter types and is not empty, the indices in the order of the two
  -- loops are strictly ascending, so that a `std::set` into which they are inserted one after
  -- another holds them in this order.
  pub set_of-find_collision_indices :
      (box : Box D) (tile grid_x grid_y : ℕ) (vel_x vel_y : D)
      → IsGrid grid_x grid_y
      → let found = find_collision_indices box tile grid_x grid_y vel_x vel_y in
        Above 0 found × (set_of found [] ≡ found)
  unfolding find_collision_indices
  set_of-find_collision_indices box tile grid_x grid_y vel_x vel_y g =
      let found = find_collision_indices box tile grid_x grid_y vel_x vel_y in
      let above : Above 0 found =
        elim (Bool-cases (d.eq vel_x (d.of_nat 0) && d.eq vel_y (d.of_nat 0))) [
          | inl still ↦ rw still tt
          | inr moves ↦ rw moves (
              tiles_in-Above grid_x _ _ _ _ (omega (arith, g.y_pos, g.y_fits)) g.x_fits
                (omega (arith, g.x_pos, g.x_fits)))
        ] in
      (above, set_of-Above 0 found [] above tt)
