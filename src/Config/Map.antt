-- ===== src/Config/Map.antt =====
-- When `InitGameConfig` gets through the map, and what it stores.
use native.Mathlib.Decide.{dec_lt}
use endless_peak_server.Shared.{
  ℕ, zero, suc, ◌+◌, ◌*◌, ◌%◌, ◌≤◌, ◌<◌, ◌≡◌, refl, ap, ◌∙◌, List, [], ◌∷◌, none, some, get_elem?,
  length, take, drop, map, arith, true, false, if◌then◌else◌, leb, ltb, ◌&&◌, ◌^◌, Bool-cases, inl,
  inr,
}
use endless_peak_server.Config.{copy_from, copy_map, print_from, print_map, init_map}

get_elem?-drop :
    (i : ℕ) (xs : List ℕ)
    → i < length xs
    → (v : ℕ) × (get_elem? xs i ≡ some v) × (drop i xs ≡ v ∷ drop (suc i) xs)
get_elem?-drop i [] h = absurd (omega arith)
get_elem?-drop zero (x ∷ xs) h = (x, refl, refl)
get_elem?-drop (suc i) (x ∷ xs) h = get_elem?-drop i xs (omega arith)

get_elem?-none : (i : ℕ) (xs : List ℕ) → length xs ≤ i → get_elem? xs i ≡ none
get_elem?-none i [] h = refl
get_elem?-none zero (x ∷ xs) h = absurd (omega arith)
get_elem?-none (suc i) (x ∷ xs) h = get_elem?-none i xs (omega arith)

abbrev byte_of : ℕ → ℕ
byte_of v = v % 256

copy_from_lem :
    (n i : ℕ) (tmp : List ℕ)
    → i + n ≤ length tmp
    → copy_from n i tmp ≡ some (map byte_of (take n (drop i tmp)))
unfolding copy_from
copy_from_lem zero i tmp h = refl
copy_from_lem (suc n) i tmp h =
    let (v, e, d) = get_elem?-drop i tmp (omega arith) in
    let s : i + 1 ≡ suc i = omega arith in
    let later : copy_from n (i + 1) tmp ≡ some (map byte_of (take n (drop (suc i) tmp))) =
      copy_from_lem n (i + 1) tmp (omega arith) ∙ rw s in
    rw (e, later, d)

print_from-some :
    (n i : ℕ) (cells : List ℕ)
    → i + n ≤ length cells
    → (printed : List ℕ) × (print_from n i cells ≡ some printed)
unfolding print_from
print_from-some zero i cells h = ([], refl)
print_from-some (suc n) i cells h =
    let (v, e, _) = get_elem?-drop i cells (omega arith) in
    let (rest, e') = print_from-some n (i + 1) cells (omega arith) in (v ∷ rest, rw (e, e'))

pub print_from-none :
    (n i : ℕ) (cells : List ℕ) → length cells < i + n → 0 < n → print_from n i cells ≡ none
unfolding print_from
print_from-none zero i cells h p = absurd (omega arith)
print_from-none (suc n) i cells h p = elim (dec_lt i (length cells)) [
  | no behind ↦ rw (get_elem?-none i cells (omega arith))
  | yes inside ↦
      let (v, e, _) = get_elem?-drop i cells inside in
      rw (e, print_from-none n (i + 1) cells (omega arith) (omega arith))
]

length-map_take : (n : ℕ) (xs : List ℕ) → n ≤ length xs → length (map byte_of (take n xs)) ≡ n
length-map_take zero xs h = refl
length-map_take (suc n) [] h = absurd (omega arith)
length-map_take (suc n) (x ∷ xs) h = ap suc (length-map_take n xs (omega arith))

-- Given at least `grid_x * grid_y` numbers, the map becomes the first of them modulo 256 when the grid
-- has 625 cells or more and less than `2 ^ 31`. With fewer the print loops read outside the map, and
-- with more the product, which is computed as an `int`, overflows.
pub init_map_lem :
    (grid_x grid_y : ℕ) (tmp : List ℕ)
    → grid_x * grid_y ≤ length tmp
    → init_map grid_x grid_y tmp ≡ (
        if leb 625 (grid_x * grid_y) && ltb (grid_x * grid_y) (2 ^ 31)
        then some (map (λ v. v % 256) (take (grid_x * grid_y) tmp))
        else none)
unfolding init_map copy_map print_map
init_map_lem grid_x grid_y tmp h =
    let n = grid_x * grid_y in
    let size = length-map_take n tmp h in
    elim (Bool-cases (ltb n (2 ^ 31))) [
      | inr over ↦ elim (Bool-cases (leb 625 n)) [
        | inl long ↦ rw (over, long) refl
        | inr short ↦ rw (over, short) refl
      ]
      | inl fits ↦
          rw (fits, copy_from_lem n 0 tmp (omega arith))
            (elim (dec_lt n 625) [
              | yes few ↦
                  let short : leb 625 n ≡ false = ground arith in
                  rw (
                    short,
                    print_from-none 625 0 (map byte_of (take n tmp)) (omega (arith, size))
                        (omega arith),
                  )
              | no enough ↦
                  let long : leb 625 n ≡ true = ground arith in
                  let (printed, e) =
                    print_from-some 625 0 (map byte_of (take n tmp)) (omega (arith, size)) in
                  rw (long, e)
            ])
    ]
