-- ===== src/Double/Coarse.antt =====
-- Whole numbers with infinities and NaN: an instance that meets the hypotheses on `double`, and on
-- which tests run.
use endless_peak_server.Shared.{
  ℕ, ◌+◌, ◌-◌, ◌*◌, ◌/◌, ◌%◌, ◌^◌, ◌<◌, ◌≡◌, refl, Bool, true, false, ◌||◌, if◌then◌else◌, ltb,
  ◌==◌, arith,
}
use endless_peak_server.Double.{Double, IsOrdered}

-- `fin a b` is `a - b`.
pub data Coarse : Type 0 where
  fin : ℕ → ℕ → Coarse
  plus_inf minus_inf nan : Coarse

abbrev pub norm : ℕ → ℕ → Coarse
norm a b = fin (a - b) (b - a)

abbrev pub opposite : Coarse → Coarse
opposite (fin a b) = fin b a
opposite plus_inf = minus_inf
opposite minus_inf = plus_inf
opposite nan = nan

abbrev pub plus : Coarse → Coarse → Coarse
plus (fin a b) (fin c d) = norm (a + c) (b + d)
plus (fin a b) x = x
plus plus_inf (fin c d) = plus_inf
plus plus_inf plus_inf = plus_inf
plus minus_inf (fin c d) = minus_inf
plus minus_inf minus_inf = minus_inf
plus _ _ = nan

abbrev pub times : Coarse → Coarse → Coarse
times (fin a b) (fin c d) = norm (a * c + b * d) (a * d + b * c)
times _ _ = nan

abbrev pub over : Coarse → Coarse → Coarse
over (fin a b) (fin c d) = norm (a / c + b / d) (a / d + b / c)
over _ _ = nan

abbrev pub less : Coarse → Coarse → Bool
less (fin a b) (fin c d) = ltb (a + d) (c + b)
less (fin a b) plus_inf = true
less minus_inf (fin c d) = true
less minus_inf plus_inf = true
less _ _ = false

abbrev pub same : Coarse → Coarse → Bool
same (fin a b) (fin c d) = (a + d) == (c + b)
same plus_inf plus_inf = true
same minus_inf minus_inf = true
same _ _ = false

abbrev pub bit_pattern : Coarse → ℕ
bit_pattern (fin a b) = (a + 2 ^ 32 * b) % 2 ^ 64
bit_pattern plus_inf = 0x7ff0_0000_0000_0000
bit_pattern minus_inf = 0xfff0_0000_0000_0000
bit_pattern nan = 0x7ff8_0000_0000_0000

abbrev pub whole : Coarse → ℕ
whole (fin a b) = (a + 2 ^ 64 - b) % 2 ^ 64
whole _ = 0

instance abbrev pub coarse_double : Double Coarse
coarse_double = record {
  of_nat = λ n. fin n 0;
  gravity = fin 9 0;
  infinity = plus_inf;
  neg = opposite;
  add = plus;
  sub = λ a b. plus a (opposite b);
  mul = times;
  div = over;
  floor = λ a. a;
  fmin = λ a b. if less b a then b else a;
  fmax = λ a b. if less a b then b else a;
  lt = less;
  le = λ a b. less a b || same a b;
  eq = same;
  to_size = whole;
  bits = bit_pattern;
}

less_irrefl : (x : Coarse) → less x x ≡ false
less_irrefl (fin a b) = ground arith
less_irrefl plus_inf = refl
less_irrefl minus_inf = refl
less_irrefl nan = refl

less_trans : (x y z : Coarse) → less x y ≡ true → less y z ≡ true → less x z ≡ true
less_trans x y z p q = ground arith

bit_pattern-lt : (x : Coarse) → bit_pattern x < 256 ^ 8
bit_pattern-lt (fin a b) = omega arith
bit_pattern-lt plus_inf = omega arith
bit_pattern-lt minus_inf = omega arith
bit_pattern-lt nan = omega arith

pub Coarse-IsOrdered : IsOrdered Coarse
Coarse-IsOrdered = record {
  lt_irrefl = less_irrefl;
  lt_trans = less_trans;
  bits-lt = bit_pattern-lt;
}
