-- ===== src/Reader/Frames.antt =====
-- What a byte stream from a client means: frames of a six-byte head and a body of the size that the
-- head gives; a head that `IsValidHeader` refuses is dropped, and the next head starts behind it.
use endless_peak_server.Shared.{
  ℕ, zero, suc, ◌+◌, ◌≤◌, ◌<◌, ◌≡◌, refl, Bool, true, false, if◌then◌else◌, ltb, List, [], ◌∷◌,
  ◌++◌, some, length, take, drop, length-append, length-drop, take-append, drop-append, arith,
  Bool-cases, inl, inr,
}
use endless_peak_server.Packet.{NetPacket, get_head_size, is_valid_header, write_head, empty_packet}

-- The packet with the given head and body bytes.
unfoldable pub frame : List ℕ → List ℕ → NetPacket
frame hd bd = record (write_head hd empty_packet) { body = some bd }

abbrev pub head_size : List ℕ → ℕ
head_size hd = get_head_size (write_head hd empty_packet)

abbrev pub is_valid : List ℕ → Bool
is_valid hd = is_valid_header (write_head hd empty_packet)

-- Each round takes six bytes at least.
unfoldable pub decode : ℕ → List ℕ → List NetPacket
decode zero bs = []
decode (suc fuel) bs =
    let hd = take 6 bs in
    let rest = drop 6 bs in
    let n = head_size hd in
    let skipped = decode fuel rest in
    let framed = frame hd (take n rest) ∷ decode fuel (drop n rest) in
    if ltb (length bs) 6
    then []
    else if is_valid hd
    then if ltb (length rest) n then [] else framed
    else skipped

-- The packets in a stream.
unfoldable pub frames : List ℕ → List NetPacket
frames bs = decode (length bs) bs

decode-fuel : (f g : ℕ) (bs : List ℕ) → length bs ≤ f → length bs ≤ g → decode f bs ≡ decode g bs
unfolding decode
decode-fuel zero zero bs hf hg = refl
decode-fuel zero (suc g) [] hf hg = refl
decode-fuel zero (suc g) (b ∷ bs) hf hg = absurd (omega arith)
decode-fuel (suc f) zero [] hf hg = refl
decode-fuel (suc f) zero (b ∷ bs) hf hg = absurd (omega arith)
decode-fuel (suc f) (suc g) bs hf hg = elim (Bool-cases (ltb (length bs) 6)) [
  | inl e ↦ rw e
  | inr e ↦
      let rest = drop 6 bs in
      let n = head_size (take 6 bs) in
      let l : length rest + 6 ≤ length bs = ground (arith, length-drop 6 bs) in
      rw (
        e,
        decode-fuel f g rest (omega arith) (omega arith),
        decode-fuel f g (drop n rest) (omega (arith, length-drop n rest))
            (omega (arith, length-drop n rest)),
      )
]

-- A stream that ends inside a head, or inside a body, has no packet.
pub frames_short_head : (bs : List ℕ) → length bs < 6 → frames bs ≡ []
unfolding frames decode
frames_short_head [] h = refl
frames_short_head (b ∷ bs) h = ground arith

frames_unfold :
    (bs : List ℕ)
    → 6 ≤ length bs
    → frames bs ≡ (
        if is_valid (take 6 bs)
        then if ltb (length (drop 6 bs)) (head_size (take 6 bs))
          then []
          else frame (take 6 bs) (take (head_size (take 6 bs)) (drop 6 bs))
            ∷ frames (drop (head_size (take 6 bs)) (drop 6 bs))
        else frames (drop 6 bs))
unfolding frames decode
frames_unfold [] h = absurd (omega arith)
frames_unfold (b ∷ bs) h =
    let all = b ∷ bs in
    let rest = drop 6 all in
    let n = head_size (take 6 all) in
    let long : ltb (length all) 6 ≡ false = ground arith in
    rw (
      long,
      decode-fuel (length bs) (length rest) rest (omega (arith, length-drop 6 all)) (omega arith),
      decode-fuel (length bs) (length (drop n rest)) (drop n rest)
          (omega (arith, length-drop 6 all, length-drop n rest)) (omega arith),
    )

module _ (hd : List ℕ) (six : 6 ≡ length hd) where
  frames_head :
      (rest : List ℕ)
      → frames (hd ++ rest) ≡ (
          if is_valid hd
          then if ltb (length rest) (head_size hd)
            then []
            else frame hd (take (head_size hd) rest) ∷ frames (drop (head_size hd) rest)
          else frames rest)
  frames_head rest = rw (
    frames_unfold (hd ++ rest) (omega (arith, length-append hd rest)),
    take-append 6 hd rest six,
    drop-append 6 hd rest six,
  )

  pub frames_invalid : (rest : List ℕ) → is_valid hd ≡ false → frames (hd ++ rest) ≡ frames rest
  frames_invalid rest e = rw (frames_head rest, e)

  pub frames_short_body :
      (bd : List ℕ) → is_valid hd ≡ true → length bd < head_size hd → frames (hd ++ bd) ≡ []
  frames_short_body bd e h =
      let s : ltb (length bd) (head_size hd) ≡ true = ground arith in rw (frames_head bd, e, s)

  pub frames-frame :
      (bd rest : List ℕ)
      → is_valid hd ≡ true
      → head_size hd ≡ length bd
      → frames (hd ++ (bd ++ rest)) ≡ frame hd bd ∷ frames rest
  frames-frame bd rest e n =
      let s : ltb (length (bd ++ rest)) (head_size hd) ≡ false =
        ground (arith, length-append bd rest) in
      rw (
        frames_head (bd ++ rest),
        e,
        s,
        take-append (head_size hd) bd rest n,
        drop-append (head_size hd) bd rest n,
      )
