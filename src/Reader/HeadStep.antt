-- ===== src/Reader/HeadStep.antt =====
-- One completion of a head read, on the bytes that the reader holds.
use endless_peak_server.Shared.{
  ℕ, ◌+◌, ◌≤◌, ◌<◌, ◌≡◌, refl, sym, ap, ◌∙◌, true, false, List, [], ◌∷◌, ◌++◌, none, some, length,
  take, replicate, length-append, length-replicate, append_assoc, append-nil, arith, All,
  All-append, inl, inr, Bool-cases, ltb, ◌==◌, sub64, add64,
}
use native.Mathlib.Decide.{dec_lt}
use endless_peak_server.Bytes.Laws.{IsByte}
use endless_peak_server.Packet.{
  NetPacket, get_head_size, is_valid_header, write_head, head_data, empty_packet, resize_body,
  get_body_size, move_packet,
}
use endless_peak_server.Handler.{
  PacketHandler, splice, fill_head, update_head_size, head_size_left, body_size_left,
  extract_packet,
}
use endless_peak_server.Reader.Frames.{
  frames, frame, head_size, is_valid, frames_invalid, frames-frame,
}
use endless_peak_server.Reader.Pending.{
  IsHead, Progress, splice_full, length-splice, take-splice, splice-IsByte, length-head_data,
  head_data-IsByte, head_data-write_head,
}
use endless_peak_server.Reader.{on_read_head}

-- A valid head announces less than `kMaxPayloadSize` bytes.
pub head_size-lt : (hd : List ℕ) → is_valid hd ≡ true → head_size hd < 128
unfolding is_valid_header get_head_size
head_size-lt hd e = ground arith

body-write_head : (bs : List ℕ) (p : NetPacket) → (write_head bs p).body ≡ p.body
unfolding write_head
body-write_head bs p = refl

is_valid-write_head :
    (bs : List ℕ) (p : NetPacket) → is_valid_header (write_head bs p) ≡ is_valid bs
unfolding write_head is_valid_header
is_valid-write_head bs p = refl

size-write_head : (bs : List ℕ) (p : NetPacket) → get_head_size (write_head bs p) ≡ head_size bs
unfolding write_head get_head_size
size-write_head bs p = refl

pub frame-write_head :
    (hd bd : List ℕ) (p : NetPacket)
    → ◌≡◌ {A = NetPacket} (frame hd bd) (record { head = (write_head hd p).head; body = some bd })
unfolding frame write_head
frame-write_head hd bd p = refl

pub head-write_head :
    (bs : List ℕ) (p : NetPacket) → (write_head bs p).head ≡ (write_head bs empty_packet).head
unfolding write_head
head-write_head bs p = refl

resize_body-none :
    (n : ℕ) (p : NetPacket)
    → p.body ≡ none
    → resize_body n p ≡ record p { body = some (replicate n 0) }
unfolding resize_body
resize_body-none n p e = rw (e, resize_body)

module _ (h : PacketHandler) (pending chunk : List ℕ) (inv : IsHead h pending)
    (fits : length chunk ≤ head_size_left h) (bytes : All IsByte chunk) where
  buffer : List ℕ
  buffer = splice (length pending) chunk (head_data h.packet)

  fits_six : length pending + length chunk ≤ 6
  unfolding head_size_left
  fits_six = omega (arith, fits, inv.count, inv.short)

  filled : fill_head chunk h ≡ record h {
    packet = write_head (splice (length pending) chunk (head_data h.packet)) h.packet;
  }
  unfolding fill_head
  filled = rw inv.count

  written : head_data (write_head buffer h.packet) ≡ buffer
  unfolding buffer
  written =
      head_data-write_head buffer h.packet
        (omega (
          arith,
          fits_six,
          length-splice (head_data h.packet) pending chunk inv.start,
          length-head_data h.packet,
        ))
        (splice-IsByte (head_data h.packet) pending chunk inv.start (head_data-IsByte h.packet)
          inv.bytes bytes)

  head_part : length pending + length chunk < 6 → Progress pending chunk (on_read_head chunk h)
  unfolding on_read_head update_head_size buffer
  head_part short =
      let sum : add64 (length pending) (length chunk) ≡ length pending + length chunk =
        omega arith in
      let test : ltb (length pending + length chunk) 6 ≡ true = ground arith in
      rw (filled, inv.count, sum, test)
        (
          pending ++ chunk,
          record {
            count = sym (length-append pending chunk);
            short = omega (arith, length-append pending chunk);
            body_count = inv.body_count;
            no_body = body-write_head buffer h.packet ∙ inv.no_body;
            start =
                ap (take (length (pending ++ chunk))) written
                ∙ take-splice (head_data h.packet) pending chunk inv.start;
            bytes = All-append IsByte pending chunk inv.bytes bytes;
          },
          λ rest. ap frames (sym (append_assoc pending chunk rest)),
        )

  module _ (full : length pending + length chunk ≡ 6) where
    six : 6 ≡ length (pending ++ chunk)
    six = omega (arith, full, length-append pending chunk)

    filled_full : fill_head chunk h ≡ record h { packet = write_head (pending ++ chunk) h.packet }
    filled_full =
        filled
        ∙ ap (λ (bs : List ℕ). record h { packet = write_head bs h.packet })
            (splice_full (head_data h.packet) pending chunk inv.start
              (omega (arith, full, length-head_data h.packet)))

    regroup :
        (rest : List ℕ) → frames (pending ++ (chunk ++ rest)) ≡ frames ((pending ++ chunk) ++ rest)
    regroup rest = ap frames (sym (append_assoc pending chunk rest))

    sum_full : add64 (length pending) (length chunk) ≡ 6
    sum_full = omega (arith, full)

    head_refused :
        is_valid (pending ++ chunk) ≡ false → Progress pending chunk (on_read_head chunk h)
    unfolding on_read_head update_head_size
    head_refused e =
        rw (filled_full, inv.count, sum_full, is_valid-write_head (pending ++ chunk) h.packet, e)
          (
            [],
            record {
              count = refl;
              short = omega arith;
              body_count = inv.body_count;
              no_body = body-write_head (pending ++ chunk) h.packet ∙ inv.no_body;
              start = refl;
              bytes = tt;
            },
            λ rest. regroup rest ∙ frames_invalid (pending ++ chunk) six rest e,
          )

    opened :
        is_valid (pending ++ chunk) ≡ true
        → update_head_size (length chunk) (fill_head chunk h) ≡ (
          true,
          record h {
            head_already_read = 6;
            packet = record (write_head (pending ++ chunk) h.packet) {
              body = some (replicate (head_size (pending ++ chunk)) 0);
            };
          },
        )
    unfolding update_head_size
    opened e = rw (
      filled_full,
      inv.count,
      sum_full,
      is_valid-write_head (pending ++ chunk) h.packet,
      e,
      size-write_head (pending ++ chunk) h.packet,
      resize_body-none (head_size (pending ++ chunk)) (write_head (pending ++ chunk) h.packet)
          (body-write_head (pending ++ chunk) h.packet ∙ inv.no_body),
    )

    head_alone :
        is_valid (pending ++ chunk) ≡ true
        → head_size (pending ++ chunk) ≡ 0
        → Progress pending chunk (on_read_head chunk h)
    unfolding on_read_head body_size_left get_body_size extract_packet move_packet
    head_alone e z =
        rw (opened e, inv.body_count, z)
          (
            [],
            record {
              count = refl;
              short = omega arith;
              body_count = refl;
              no_body = refl;
              start = refl;
              bytes = tt;
            },
            λ rest.
                regroup rest
                ∙ frames-frame (pending ++ chunk) six [] rest e z
                ∙ ap (λ p. p ∷ frames rest) (frame-write_head (pending ++ chunk) [] h.packet),
          )

    head_opens :
        is_valid (pending ++ chunk) ≡ true
        → 0 < head_size (pending ++ chunk)
        → Progress pending chunk (on_read_head chunk h)
    unfolding on_read_head body_size_left get_body_size
    head_opens e pos =
        let zeros : List ℕ = replicate (head_size (pending ++ chunk)) 0 in
        let size : length zeros ≡ head_size (pending ++ chunk) =
          length-replicate (head_size (pending ++ chunk)) 0 in
        let left : (sub64 (length zeros) 0 == 0) ≡ false =
          ground (arith, size, head_size-lt (pending ++ chunk) e) in
        rw (opened e, inv.body_count, left)
          (
            pending ++ chunk,
            (
              pending ++ chunk,
              [],
              sym (append-nil (pending ++ chunk)),
              record {
                six = six;
                head = head-write_head (pending ++ chunk) h.packet;
                valid = e;
                room = size;
                count = refl;
                short = pos;
                start = refl;
              },
            ),
            regroup,
          )

  -- Every completion of a head read.
  pub on_read_head-Progress : Progress pending chunk (on_read_head chunk h)
  on_read_head-Progress = elim (dec_lt (length pending + length chunk) 6) [
    | yes short ↦ head_part short
    | no whole ↦ elim (Bool-cases (is_valid (pending ++ chunk))) [
      | inr bad ↦ head_refused (omega (arith, whole, fits_six)) bad
      | inl good ↦ elim (dec_lt 0 (head_size (pending ++ chunk))) [
        | yes pos ↦ head_opens (omega (arith, whole, fits_six)) good pos
        | no zero_size ↦ head_alone (omega (arith, whole, fits_six)) good (omega arith)
      ]
    ]
  ]
