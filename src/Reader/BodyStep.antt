-- ===== src/Reader/BodyStep.antt =====
-- One completion of a body read, on the bytes that the reader holds.
use endless_peak_server.Shared.{
  ℕ, ◌+◌, ◌≤◌, ◌<◌, ◌≡◌, refl, sym, ap, ◌∙◌, true, false, List, [], ◌∷◌, ◌++◌, some, length,
  length-append, append_assoc, arith, ltb, add64,
}
use native.Mathlib.Decide.{dec_lt}
use endless_peak_server.Packet.{
  NetPacket, PacketHead, get_head_size, write_head, empty_packet, body_bytes, get_body_size,
  move_packet,
}
use endless_peak_server.Handler.{
  PacketHandler, splice, fill_body, update_body_size, body_size_left, extract_packet,
}
use endless_peak_server.Reader.Frames.{frames, frame, head_size, frames-frame}
use endless_peak_server.Reader.Pending.{IsBody, Progress, splice_full, length-splice, take-splice}
use endless_peak_server.Reader.HeadStep.{head_size-lt, frame-write_head}
use endless_peak_server.Reader.{on_read_body}

size-head :
    (hd : List ℕ) (p : NetPacket)
    → p.head ≡ (write_head hd empty_packet).head
    → get_head_size p ≡ head_size hd
unfolding get_head_size
size-head hd p e = rw e

frame-head :
    (hd bd : List ℕ) (p : NetPacket)
    → p.head ≡ (write_head hd empty_packet).head
    → frame hd bd ≡ record p { body = some bd }
frame-head hd bd p e =
    frame-write_head hd bd empty_packet
    ∙ ap (λ (x : PacketHead). let q : NetPacket = record { head = x; body = some bd } in q) (sym e)

module _ (h : PacketHandler) (hd bd chunk : List ℕ) (inv : IsBody h hd bd)
    (fits : length chunk ≤ body_size_left h) where
  old : List ℕ
  old = body_bytes h.packet.body

  fits_body : length bd + length chunk ≤ head_size hd
  unfolding body_size_left get_body_size
  fits_body = omega (arith, fits, inv.count, inv.short, inv.room, head_size-lt hd inv.valid)

  filled : fill_body chunk h ≡ record h {
    packet = record (h.packet) {
      body = some (splice (length bd) chunk (body_bytes h.packet.body));
    };
  }
  unfolding fill_body
  filled = rw inv.count

  sum : add64 (length bd) (length chunk) ≡ length bd + length chunk
  sum = omega (arith, fits_body, head_size-lt hd inv.valid)

  size : (bs : List ℕ) → get_head_size (record (h.packet) { body = some bs }) ≡ head_size hd
  size bs = size-head hd (record (h.packet) { body = some bs }) inv.head

  regroup :
      (rest : List ℕ)
      → frames ((hd ++ bd) ++ (chunk ++ rest)) ≡ frames (hd ++ ((bd ++ chunk) ++ rest))
  regroup rest =
      ap frames (
        append_assoc hd bd (chunk ++ rest) ∙ ap (λ xs. hd ++ xs) (sym (append_assoc bd chunk rest)))

  body_part :
      length bd + length chunk < head_size hd → Progress (hd ++ bd) chunk (on_read_body chunk h)
  unfolding on_read_body update_body_size
  body_part short =
      let test : ltb (length bd + length chunk) (head_size hd) ≡ true = ground arith in
      rw (filled, inv.count, sum, size (splice (length bd) chunk (body_bytes h.packet.body)), test)
        (
          hd ++ (bd ++ chunk),
          (
            hd,
            bd ++ chunk,
            refl,
            record {
              six = inv.six;
              head = inv.head;
              valid = inv.valid;
              room =
                  length-splice (body_bytes h.packet.body) bd chunk inv.start
                    (omega (arith, fits_body, inv.room))
                  ∙ inv.room;
              count = sym (length-append bd chunk);
              short = omega (arith, short, length-append bd chunk);
              start = take-splice (body_bytes h.packet.body) bd chunk inv.start;
            },
          ),
          λ rest. regroup rest ∙ ap frames (sym (append_assoc hd (bd ++ chunk) rest)),
        )

  body_whole :
      head_size hd ≡ length bd + length chunk → Progress (hd ++ bd) chunk (on_read_body chunk h)
  unfolding on_read_body update_body_size extract_packet move_packet
  body_whole whole =
      let test : ltb (length bd + length chunk) (head_size hd) ≡ false = ground arith in
      rw
        (
          filled,
          inv.count,
          sum,
          size (splice (length bd) chunk (body_bytes h.packet.body)),
          test,
          splice_full (body_bytes h.packet.body) bd chunk inv.start
              (omega (arith, whole, inv.room)),
        )
        (
          [],
          record {
            count = refl;
            short = omega arith;
            body_count = refl;
            no_body = refl;
            start = refl;
            bytes = tt;
          },
          λ rest.
              regroup rest
              ∙ frames-frame hd inv.six (bd ++ chunk) rest inv.valid
                  (omega (arith, whole, length-append bd chunk))
              ∙ ap (λ p. p ∷ frames rest) (frame-head hd (bd ++ chunk) h.packet inv.head),
        )

  -- Every completion of a body read.
  pub on_read_body-Progress : Progress (hd ++ bd) chunk (on_read_body chunk h)
  on_read_body-Progress = elim (dec_lt (length bd + length chunk) (head_size hd)) [
    | yes short ↦ body_part short
    | no whole ↦ body_whole (omega (arith, whole, fits_body))
  ]
