-- ===== src/Swept/Times.antt =====
-- What a result of `SweptAABB` can be.
use endless_peak_server.Shared.{
  ◌≡◌, refl, ◌⊎◌, inl, inr, true, false, arith, ◌&&◌, Bool-cases, Option-cases,
}
use endless_peak_server.Double.{Double}
use endless_peak_server.Swept.{
  Box, SweptData, no_hit, resolve, swept_aabb, axis_distances, axis_time,
}

module _ {D : Type 0} ⦃d : Double D⦄ where
  open d use {of_nat, lt}

  -- Either the result for "no collision", or a hit whose entry time is neither below 0 nor above 1
  -- and whose normal is a unit along one axis.
  abbrev pub IsHit : SweptData D → Type 0
  IsHit s =
      (s.hit ≡ true)
      × (lt s.entry_time (of_nat 0) ≡ false)
      × (lt (of_nat 1) s.entry_time ≡ false)
      × (((s.normal_y ≡ 0) × ((s.normal_x ≡ 1) ⊎ (s.normal_x ≡ 255)))
          ⊎ ((s.normal_x ≡ 0) × ((s.normal_y ≡ 1) ⊎ (s.normal_y ≡ 255))))

  abbrev pub IsResult : SweptData D → Type 0
  IsResult s = (s ≡ no_hit) ⊎ IsHit s

  resolve-IsResult :
      (vel_x vel_y x_entry x_exit y_entry y_exit : D)
      → IsResult (resolve vel_x vel_y x_entry x_exit y_entry y_exit)
  unfolding resolve
  resolve-IsResult vel_x vel_y x_entry x_exit y_entry y_exit = ground arith

  -- Every result of `SweptAABB`, for any boxes and velocities, NaN included: no collision with entry
  -- time 1 and no normal, or a hit with an entry time not below 0 and not above 1 and a normal of
  -- length 1 along exactly one axis.
  pub swept_aabb-IsResult :
      (box1 box2 : Box D) (vel_x vel_y : D) → IsResult (swept_aabb box1 box2 vel_x vel_y)
  unfolding swept_aabb
  swept_aabb-IsResult box1 box2 vel_x vel_y =
      elim (Bool-cases (d.eq vel_x (of_nat 0) && d.eq vel_y (of_nat 0))) [
        | inl still ↦ rw still (inl refl)
        | inr moving ↦
            elim (Option-cases (axis_distances vel_x box1.x box1.width box2.x box2.width)) [
              | inl apart ↦ rw (moving, apart, swept_aabb) (inl refl)
              | inr ((x_in, x_out), ex) ↦
                  elim (Option-cases (axis_distances vel_y box1.y box1.height box2.y box2.height)) [
                    | inl apart ↦ rw (moving, ex, apart, swept_aabb) (inl refl)
                    | inr ((y_in, y_out), ey) ↦
                        rw (moving, ex, ey, swept_aabb)
                          (resolve-IsResult vel_x vel_y (axis_time vel_x x_in)
                            (axis_time vel_x x_out) (axis_time vel_y y_in) (axis_time vel_y y_out))
                  ]
            ]
      ]
