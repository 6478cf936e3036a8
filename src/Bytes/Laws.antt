-- ===== src/Bytes/Laws.antt =====
-- Laws of `to_bytes`, `of_bytes` and `swap_endian`.
use mathlib.Core.List.{reverse-reverse}
use mathlib.Core.Path.{ap₂}
use native.Mathlib.Nat.{pow-suc}
use endless_peak_server.Shared.{
  ℕ, zero, suc, ◌/◌, ◌^◌, ◌<◌, ◌≡◌, refl, ap, ◌∙◌, subst, List, [], ◌∷◌, reverse, arith, length,
  length-reverse, All, All-reverse,
}
use endless_peak_server.Bytes.{to_bytes, of_bytes, swap_endian}

abbrev pub IsByte : ℕ → Type 0
IsByte b = b < 256

pub length-to_bytes : (n v : ℕ) → length (to_bytes n v) ≡ n
unfolding to_bytes
length-to_bytes zero v = refl
length-to_bytes (suc n) v = ap suc (length-to_bytes n (v / 256))

pub to_bytes-IsByte : (n v : ℕ) → All IsByte (to_bytes n v)
unfolding to_bytes
to_bytes-IsByte zero v = tt
to_bytes-IsByte (suc n) v = (omega arith, to_bytes-IsByte n (v / 256))

pub of_bytes-to_bytes : (n v : ℕ) → v < 256 ^ n → of_bytes (to_bytes n v) ≡ v
unfolding to_bytes of_bytes
of_bytes-to_bytes zero v h = omega arith
of_bytes-to_bytes (suc n) v h =
    omega (arith, of_bytes-to_bytes n (v / 256) (omega (arith, pow-suc 256 n)))

pub to_bytes-of_bytes :
    (n : ℕ) (bs : List ℕ) → n ≡ length bs → All IsByte bs → to_bytes n (of_bytes bs) ≡ bs
unfolding to_bytes of_bytes
to_bytes-of_bytes zero [] e h = refl
to_bytes-of_bytes zero (b ∷ bs) e h = absurd (omega arith)
to_bytes-of_bytes (suc n) [] e h = absurd (omega arith)
to_bytes-of_bytes (suc n) (b ∷ bs) e (hb, hs) =
    ap₂ ◌∷◌ (omega arith) (ap (to_bytes n) (omega arith) ∙ to_bytes-of_bytes n bs (omega arith) hs)

pub of_bytes-lt : (bs : List ℕ) → All IsByte bs → of_bytes bs < 256 ^ length bs
unfolding of_bytes
of_bytes-lt [] h = omega arith
of_bytes-lt (b ∷ bs) (hb, hs) = omega (arith, of_bytes-lt bs hs, pow-suc 256 (length bs))

-- On the wire a swapped value stands most significant byte first.
pub to_bytes-swap_endian : (n v : ℕ) → to_bytes n (swap_endian n v) ≡ reverse (to_bytes n v)
unfolding swap_endian
to_bytes-swap_endian n v =
    to_bytes-of_bytes n (reverse (to_bytes n v))
      (omega (arith, length-reverse (to_bytes n v), length-to_bytes n v))
      (All-reverse IsByte (to_bytes n v) (to_bytes-IsByte n v))

pub swap_endian-lt : (n v : ℕ) → swap_endian n v < 256 ^ n
unfolding swap_endian
swap_endian-lt n v =
    let r = reverse (to_bytes n v) in
    let e : length r ≡ n = length-reverse (to_bytes n v) ∙ length-to_bytes n v in
    subst (λ k. of_bytes r < 256 ^ k) e
      (of_bytes-lt r (All-reverse IsByte (to_bytes n v) (to_bytes-IsByte n v)))

-- Swapping twice gives back every value of the width.
pub swap_endian-swap_endian : (n v : ℕ) → v < 256 ^ n → swap_endian n (swap_endian n v) ≡ v
swap_endian-swap_endian n v h =
    unfold swap_endian in
    (ap (λ bs. of_bytes (reverse bs)) (to_bytes-swap_endian n v)
      ∙ ap of_bytes (reverse-reverse (to_bytes n v))
      ∙ of_bytes-to_bytes n v h)
