-- ===== src/Collision/Nearest.antt =====
-- Which tile `SweptAxis` of game/physics/collision.cpp takes for the collision.
use mathlib.Core.Option.{some-injective}
use endless_peak_server.Shared.{
  ℕ, ◌≡◌, refl, sym, ◌∙◌, subst, ◌⊎◌, inl, inr, true, false, List, [], ◌∷◌, Option, none, some,
  get_elem?, arith, Bool-cases, Option-cases,
}
use endless_peak_server.Double.{Double, IsOrdered}
use endless_peak_server.Swept.{
  Box, Tile, empty, solid, default_tile, new_tile, SweptData, swept_aabb, no_hit,
}
use endless_peak_server.Swept.Times.{IsHit, IsResult, swept_aabb-IsResult}
use endless_peak_server.Collision.{find_collision_indices, sweep, swept_axis, meet, nearer}

some-ne-none : {A : Type 0} (a : A) → some a ≡ none → ⊥
some-ne-none a e = cc

module _ {D : Type 0} ⦃d : Double D⦄ (laws : IsOrdered D) (box : Box D) (vel_x vel_y : D) where
  open d use {lt, of_nat}
  open laws use {lt_irrefl, lt_trans}

  -- No collision of the box with this tile comes before the time.
  abbrev pub NotBefore : D → Tile D → Type 0
  NotBefore time default_tile = Unit {0}
  NotBefore time (new_tile other empty) = Unit {0}
  NotBefore time (new_tile other solid) =
      lt (swept_aabb box other vel_x vel_y).entry_time time ≡ false

  -- No collision, or a hit before the end of the movement.
  abbrev pub IsFirst : SweptData D → Type 0
  IsFirst s = (s ≡ no_hit) ⊎ (IsHit s × (lt s.entry_time (of_nat 1) ≡ true))

  -- A later bound by a smaller time.
  NotBefore-nearer :
      (res : SweptData D) (t : Tile D) (time : D)
      → NotBefore res.entry_time t
      → (lt time res.entry_time ≡ true) ⊎ (time ≡ res.entry_time)
      → NotBefore time t
  NotBefore-nearer res default_tile time n h = tt
  NotBefore-nearer res (new_tile other empty) time n h = tt
  NotBefore-nearer res (new_tile other solid) time n (inr e) = rw e n
  NotBefore-nearer res (new_tile other solid) time n (inl h) =
      let entry = (swept_aabb box other vel_x vel_y).entry_time in
      ground (arith, lt_trans entry time res.entry_time)

  IsFirst-of_lt :
      (res tmp : SweptData D)
      → IsResult tmp
      → IsFirst res
      → lt tmp.entry_time res.entry_time ≡ true
      → IsFirst tmp
  IsFirst-of_lt res tmp r f h =
      ground (arith, lt_irrefl (of_nat 1), lt_trans tmp.entry_time res.entry_time (of_nat 1))

  before_trans :
      (x y z : D)
      → (lt x y ≡ true) ⊎ (x ≡ y)
      → (lt y z ≡ true) ⊎ (y ≡ z)
      → (lt x z ≡ true) ⊎ (x ≡ z)
  before_trans x y z p q = ground (arith, lt_trans x y z)

  -- One tile: the result so far does not get later, and then nothing of this tile is before it.
  meet_lem :
      (res : SweptData D) (t : Tile D)
      → IsFirst res
      → let next = meet box vel_x vel_y res t in
        IsFirst next
        × NotBefore next.entry_time t
        × ((lt next.entry_time res.entry_time ≡ true) ⊎ (next.entry_time ≡ res.entry_time))
  unfolding meet
  meet_lem res default_tile f = (f, tt, inr refl)
  meet_lem res (new_tile other empty) f = (f, tt, inr refl)
  meet_lem res (new_tile other solid) f =
      let tmp = swept_aabb box other vel_x vel_y in
      elim (Bool-cases (lt tmp.entry_time res.entry_time)) [
        | inl sooner ↦
            rw (sooner, nearer)
              (
                IsFirst-of_lt res tmp (swept_aabb-IsResult box other vel_x vel_y) f sooner,
                lt_irrefl tmp.entry_time,
                inl sooner,
              )
        | inr later ↦ rw (later, nearer) (f, later, inr refl)
      ]

  abbrev NotBeforeAt : D → Option (Tile D) → Type 0
  NotBeforeAt time none = Unit {0}
  NotBeforeAt time (some t) = NotBefore time t

  abbrev pub AllNotBefore : D → List (Tile D) → List ℕ → Type 0
  AllNotBefore time tiles [] = Unit {0}
  AllNotBefore time tiles (i ∷ is) =
      NotBeforeAt time (get_elem? tiles i) × AllNotBefore time tiles is

  sweep_lem :
      (is : List ℕ) (tiles : List (Tile D)) (res s : SweptData D)
      → IsFirst res
      → sweep is tiles box vel_x vel_y res ≡ some s
      → IsFirst s
        × AllNotBefore s.entry_time tiles is
        × ((lt s.entry_time res.entry_time ≡ true) ⊎ (s.entry_time ≡ res.entry_time))
  unfolding sweep
  sweep_lem [] tiles res s f e =
      let same : res ≡ s = some-injective _ _ e in rw (← same) (f, tt, inr refl)
  sweep_lem (i ∷ is) tiles res s f e = elim (Option-cases (get_elem? tiles i)) [
    | inl out ↦ absurd (some-ne-none s (sym e ∙ rw out))
    | inr (t, found) ↦
        let next = meet box vel_x vel_y res t in
        let (f', here, before) = meet_lem res t f in
        let (fs, rest, after) = sweep_lem is tiles next s f' (rw found at e) in
        (
          fs,
          (rw found (NotBefore-nearer next t s.entry_time here after), rest),
          before_trans s.entry_time next.entry_time res.entry_time after before,
        )
  ]

  -- The result for this solid tile.
  abbrev OfTile : SweptData D → Option (Tile D) → Type 0
  OfTile s (some (new_tile other solid)) = s ≡ swept_aabb box other vel_x vel_y
  OfTile s _ = ⊥

  abbrev pub OfSome : SweptData D → List (Tile D) → List ℕ → Type 0
  OfSome s tiles [] = ⊥
  OfSome s tiles (i ∷ is) = OfTile s (get_elem? tiles i) ⊎ OfSome s tiles is

  meet_cases :
      (res : SweptData D) (t : Tile D)
      → (meet box vel_x vel_y res t ≡ res) ⊎ OfTile (meet box vel_x vel_y res t) (some t)
  unfolding meet
  meet_cases res default_tile = inl refl
  meet_cases res (new_tile other empty) = inl refl
  meet_cases res (new_tile other solid) =
      let tmp = swept_aabb box other vel_x vel_y in
      elim (Bool-cases (lt tmp.entry_time res.entry_time)) [
        | inl sooner ↦ rw (sooner, nearer) (inr refl)
        | inr later ↦ rw (later, nearer) (inl refl)
      ]

  sweep_cases :
      (is : List ℕ) (tiles : List (Tile D)) (res s : SweptData D)
      → sweep is tiles box vel_x vel_y res ≡ some s
      → (s ≡ res) ⊎ OfSome s tiles is
  unfolding sweep
  sweep_cases [] tiles res s e = inl (sym (some-injective _ _ e))
  sweep_cases (i ∷ is) tiles res s e = elim (Option-cases (get_elem? tiles i)) [
    | inl out ↦ absurd (some-ne-none s (sym e ∙ rw out))
    | inr (t, found) ↦
        let next = meet box vel_x vel_y res t in
        elim (sweep_cases is tiles next s (rw found at e)) [
          | inr further ↦ inr (inr further)
          | inl here ↦ elim (meet_cases res t) [
            | inl kept ↦ inl (here ∙ kept)
            | inr new ↦
                inr (
                  inl
                    (subst (OfTile s) (sym found) (subst (λ r. OfTile r (some t)) (sym here) new)))
          ]
        ]
  ]

  -- Where comparisons are those of IEEE 754, a result of `SweptAxis` is "no collision", or a hit with an entry time below 1; it is "no
  -- collision" or the result of `SweptAABB` for a solid tile among the indices found; and no solid
  -- tile among them is entered before it.
  pub swept_axis-IsFirst :
      (tile grid_x grid_y : ℕ) (tiles : List (Tile D)) (s : SweptData D)
      → swept_axis box tile grid_x grid_y tiles vel_x vel_y ≡ some s
      → IsFirst s
        × ((s ≡ no_hit)
            ⊎ OfSome s tiles (find_collision_indices box tile grid_x grid_y vel_x vel_y))
        × AllNotBefore s.entry_time tiles
            (find_collision_indices box tile grid_x grid_y vel_x vel_y)
  unfolding swept_axis
  swept_axis-IsFirst tile grid_x grid_y tiles s e =
      let (f, all, _) =
        sweep_lem (find_collision_indices box tile grid_x grid_y vel_x vel_y) tiles no_hit s
          (inl refl) e in
      (
        f,
        sweep_cases (find_collision_indices box tile grid_x grid_y vel_x vel_y) tiles no_hit s e,
        all,
      )
