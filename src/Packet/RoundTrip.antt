-- ===== src/Packet/RoundTrip.antt =====
-- `operator>>` behind `operator<<`, the value written last first.
use endless_peak_server.Shared.{
  ℕ, ◌+◌, ◌-◌, ◌^◌, ◌<◌, ◌≡◌, refl, ap, true, leb, List, [], ◌∷◌, ◌++◌, map, Option, none, some,
  ◌>>=◌, length, length-append, take-append, drop-append, take_all, append-nil, arith, All,
}
use endless_peak_server.Bytes.{to_bytes, swap_endian}
use endless_peak_server.Bytes.Laws.{
  length-to_bytes, of_bytes-to_bytes, swap_endian-lt, swap_endian-swap_endian,
}
use endless_peak_server.Packet.{
  NetPacket, set_head_size, get_body_size, resize, resize_body, resized, insert, extract,
  body_bytes,
}

-- A value and its width in bytes.
abbrev pub Field : Type 0
Field = record { width : ℕ; value : ℕ }

abbrev pub IsFitting : Field → Type 0
IsFitting f = f.value < 256 ^ f.width

-- The packet with a body vector, and the size of that body in the head.
abbrev pub sized : NetPacket → NetPacket
sized p = set_head_size (get_body_size p) (record p { body = some (body_bytes p.body) })

pub resize-append : (xs ys : List ℕ) (n : ℕ) → n ≡ length xs → resize n (xs ++ ys) ≡ xs
unfolding resize
resize-append xs ys n e =
    let z : n - length (xs ++ ys) ≡ 0 = omega (arith, length-append xs ys) in
    rw (z, take-append n xs ys e) (append-nil xs)

module _ (n v : ℕ) (p : NetPacket) where
  swapped_bytes : List ℕ
  swapped_bytes = to_bytes n (swap_endian n v)

  length-inserted : get_body_size (insert n v p) ≡ get_body_size p + n
  unfolding get_body_size insert set_head_size
  length-inserted = omega (
    arith,
    length-append (body_bytes p.body) (to_bytes n (swap_endian n v)),
    length-to_bytes n (swap_endian n v),
  )

  -- A value that was written comes back, and the packet is as before, with its body vector present
  -- and its size field exact.
  pub extract-insert : v < 256 ^ n → extract n (insert n v p) ≡ some (v, sized p)
  unfolding extract insert resize_body resized set_head_size get_body_size
  extract-insert h =
      let b = body_bytes p.body in
      let s = to_bytes n (swap_endian n v) in
      let room : leb n (length (b ++ s)) ≡ true =
        ground (arith, length-append b s, length-to_bytes n (swap_endian n v)) in
      let offset : length (b ++ s) - n ≡ length b =
        omega (arith, length-append b s, length-to_bytes n (swap_endian n v)) in
      rw (
        room,
        offset,
        drop-append (length b) b s refl,
        take_all n s (omega (arith, length-to_bytes n (swap_endian n v))),
        of_bytes-to_bytes n (swap_endian n v) (swap_endian-lt n v),
        swap_endian-swap_endian n v h,
        resize-append b s (length b) refl,
      )

-- A run of `packet << v` (the last field written stands first in the list), and a run of
-- `packet >> v` over the given widths.
unfoldable pub insert_all : List Field → NetPacket → NetPacket
insert_all [] p = p
insert_all (f ∷ fs) p = insert f.width f.value (insert_all fs p)

unfoldable pub extract_all : List ℕ → NetPacket → Option (List ℕ × NetPacket)
extract_all [] p = some ([], p)
extract_all (w ∷ ws) p =
    extract w p >>= λ r. extract_all ws r.1 >>= λ rest. some (r.0 ∷ rest.0, rest.1)

abbrev pub widths : List Field → List ℕ
widths = map λ f. f.width

abbrev pub values : List Field → List ℕ
values = map λ f. f.value

sized-insert : (n v : ℕ) (p : NetPacket) → sized (insert n v p) ≡ insert n v p
unfolding insert set_head_size get_body_size
sized-insert n v p = refl

sized-sized : (p : NetPacket) → sized (sized p) ≡ sized p
unfolding set_head_size get_body_size
sized-sized p = refl

sized-insert_all :
    (fs : List Field) (p : NetPacket) → sized (insert_all fs (sized p)) ≡ insert_all fs (sized p)
unfolding insert_all
sized-insert_all [] p = sized-sized p
sized-insert_all (f ∷ fs) p = sized-insert f.width f.value _

-- Any fields that fit their widths, written one after the other to a packet with an exact size
-- field, are read back in the reverse order, and the packet is what it was.
pub extract_all-insert_all :
    (fs : List Field) (p : NetPacket)
    → All IsFitting fs
    → extract_all (widths fs) (insert_all fs (sized p)) ≡ some (values fs, sized p)
unfolding extract_all insert_all
extract_all-insert_all [] p h = refl
extract_all-insert_all (f ∷ fs) p h = rw (
  extract-insert f.width f.value (insert_all fs (sized p)) h.0,
  sized-insert_all fs p,
  extract_all-insert_all fs p h.1,
)

-- Reading more than the body holds is refused by no test: the copy starts outside the vector.
pub extract_short : (n : ℕ) (p : NetPacket) → get_body_size p < n → extract n p ≡ none
unfolding extract
extract_short n p h = ground arith

insert-sized : (n v : ℕ) (p : NetPacket) → insert n v p ≡ insert n v (sized p)
unfolding insert set_head_size get_body_size
insert-sized n v p = refl

-- The first write makes the body vector and the size field exact.
pub insert_all-sized :
    (fs : List Field) (p : NetPacket) → 0 < length fs → insert_all fs p ≡ insert_all fs (sized p)
unfolding insert_all
insert_all-sized [] p h = absurd (omega arith)
insert_all-sized (f ∷ []) p h = insert-sized f.width f.value p
insert_all-sized (f ∷ g ∷ fs) p h =
    ap (insert f.width f.value) (insert_all-sized (g ∷ fs) p (omega arith))
