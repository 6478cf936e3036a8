-- ===== src/Reader/Sent.antt =====
-- `MakeBuffer` at one end of a connection and the reader at the other.
use endless_peak_server.Shared.{
  ℕ, ◌<◌, ◌^◌, ◌≡◌, sym, ap, ◌∙◌, true, List, [], ◌∷◌, ◌++◌, map, some, length, flatten,
  append_assoc, take-append, drop-append, arith, All,
}
use endless_peak_server.Bytes.{to_bytes}
use endless_peak_server.Bytes.Laws.{length-to_bytes, of_bytes-to_bytes}
use endless_peak_server.Packet.{
  NetPacket, get_head_size, is_valid_header, head_data, write_head, make_buffer, body_bytes,
  empty_packet,
}
use endless_peak_server.Packet.Wire.{make_buffer-some}
use endless_peak_server.Reader.Frames.{
  frames, frame, head_size, is_valid, frames-frame, frames_short_head,
}
use endless_peak_server.Reader.Pending.{length-head_data}
use endless_peak_server.Reader.HeadStep.{frame-write_head}

-- A packet that `IsValidHeader` accepts, with a body and its exact size in the head.
pub record IsSendable (p : NetPacket) : Type 0 where
  pub valid : is_valid_header p ≡ true
  pub has_body : p.body ≡ some (body_bytes p.body)
  pub exact : get_head_size p ≡ length (body_bytes p.body)
  pub opcode_fits : p.head.opcode < 256 ^ 2
  pub size_fits : p.head.size < 256 ^ 4

write_head-head_data :
    (p : NetPacket)
    → p.head.opcode < 256 ^ 2
    → p.head.size < 256 ^ 4
    → (write_head (head_data p) empty_packet).head ≡ p.head
unfolding write_head head_data
write_head-head_data p o s = rw (
  take-append 2 (to_bytes 2 p.head.opcode) (to_bytes 4 p.head.size)
      (sym (length-to_bytes 2 p.head.opcode)),
  drop-append 2 (to_bytes 2 p.head.opcode) (to_bytes 4 p.head.size)
      (sym (length-to_bytes 2 p.head.opcode)),
  of_bytes-to_bytes 2 p.head.opcode o,
  of_bytes-to_bytes 4 p.head.size s,
)

module _ (p : NetPacket) (s : IsSendable p) where
  head_back : (write_head (head_data p) empty_packet).head ≡ p.head
  head_back = write_head-head_data p s.opcode_fits s.size_fits

  make_buffer-eq : make_buffer p ≡ head_data p ++ body_bytes p.body
  make_buffer-eq = make_buffer-some p (body_bytes p.body) s.has_body

  head_size-eq : head_size (head_data p) ≡ length (body_bytes p.body)
  unfolding get_head_size
  head_size-eq = rw head_back s.exact

  is_valid-eq : is_valid (head_data p) ≡ true
  unfolding is_valid_header
  is_valid-eq = rw head_back s.valid

  frame-eq : frame (head_data p) (body_bytes p.body) ≡ p
  frame-eq =
      frame-write_head (head_data p) (body_bytes p.body) empty_packet
      ∙ (λ i. record { head = head_back i; body = sym s.has_body i })

  frames-make_buffer : (rest : List ℕ) → frames (make_buffer p ++ rest) ≡ p ∷ frames rest
  frames-make_buffer rest =
      ap (λ bs. frames (bs ++ rest)) make_buffer-eq
      ∙ ap frames (append_assoc (head_data p) (body_bytes p.body) rest)
      ∙ frames-frame (head_data p) (sym (length-head_data p)) (body_bytes p.body) rest is_valid-eq
          head_size-eq
      ∙ ap (λ q. q ∷ frames rest) frame-eq

-- The buffers of any sendable packets, written to one stream, read back as those packets.
pub frames-make_buffers :
    (ps : List NetPacket) → All IsSendable ps → frames (flatten (map make_buffer ps)) ≡ ps
frames-make_buffers [] s = frames_short_head [] (omega arith)
frames-make_buffers (p ∷ ps) s =
    frames-make_buffer p s.0 (flatten (map make_buffer ps))
    ∙ ap (λ qs. p ∷ qs) (frames-make_buffers ps s.1)
