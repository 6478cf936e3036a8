-- ===== src/Double.antt =====
-- `double`, which the compiler and the C library implement: a parameter of the physics. `to_size` is
-- the conversion to `std::size_t`, `bits` the object representation, `of_nat` the conversion of an
-- unsigned integer; the other operations are those of the same name in C++ and <cmath>.
use endless_peak_server.Shared.{ℕ, ◌<◌, ◌^◌, ◌≡◌, Bool, true, false, not, ◌||◌}
pub mod Coarse

pub record Double (D : Type 0) : Type 0 where
  pub of_nat : ℕ → D
  pub gravity : D
  pub infinity : D
  pub neg : D → D
  pub add : D → D → D
  pub sub : D → D → D
  pub mul : D → D → D
  pub div : D → D → D
  pub floor : D → D
  pub fmin : D → D → D
  pub fmax : D → D → D
  pub lt : D → D → Bool
  pub le : D → D → Bool
  pub eq : D → D → Bool
  pub to_size : D → ℕ
  pub bits : D → ℕ

-- IEEE 754 on comparisons, NaN included, and on the representation.
pub record IsOrdered (D : Type 0) ⦃d : Double D⦄ : Type 0 where
  pub lt_irrefl : (x : D) → d.lt x x ≡ false
  pub lt_trans : (x y z : D) → d.lt x y ≡ true → d.lt y z ≡ true → d.lt x z ≡ true
  pub bits-lt : (x : D) → d.bits x < 256 ^ 8
