-- ===== src/Reader/Pending.antt =====
-- The bytes that a reader has taken from the stream and not yet given out.
use endless_peak_server.Shared.{
  ℕ, ◌+◌, ◌≤◌, ◌<◌, ◌≡◌, refl, sym, ap, ◌∙◌, true, List, ◌++◌, Option, none, length, take, drop,
  length-append, length-drop, length-take, take-append, drop_all, append_assoc, append-nil, arith,
  All, All-append, All-drop, All-take, take-append-drop, option_list,
}
use endless_peak_server.Bytes.{to_bytes}
use endless_peak_server.Bytes.Laws.{IsByte, length-to_bytes, to_bytes-IsByte, to_bytes-of_bytes}
use endless_peak_server.Packet.{NetPacket, write_head, head_data, empty_packet, body_bytes}
use endless_peak_server.Handler.{PacketHandler, splice}
use endless_peak_server.Reader.Frames.{frames, head_size, is_valid}
use endless_peak_server.Reader.{Reading, packet_head, packet_body, Reader}

-- Inside a head: the pending bytes are the start of the head buffer.
pub record IsHead (h : PacketHandler) (pending : List ℕ) : Type 0 where
  pub count : h.head_already_read ≡ length pending
  pub short : length pending < 6
  pub body_count : h.body_already_read ≡ 0
  pub no_body : h.packet.body ≡ none
  pub start : take (length pending) (head_data h.packet) ≡ pending
  pub bytes : All IsByte pending

-- Inside a body: the head is whole and valid, and the body buffer has the size that it gives.
pub record IsBody (h : PacketHandler) (hd bd : List ℕ) : Type 0 where
  pub six : 6 ≡ length hd
  pub head : h.packet.head ≡ (write_head hd empty_packet).head
  pub valid : is_valid hd ≡ true
  pub room : length (body_bytes h.packet.body) ≡ head_size hd
  pub count : h.body_already_read ≡ length bd
  pub short : length bd < head_size hd
  pub start : take (length bd) (body_bytes h.packet.body) ≡ bd

abbrev pub IsPending : Reading → PacketHandler → List ℕ → Type 0
IsPending packet_head h pending = IsHead h pending
IsPending packet_body h pending =
    (hd : List ℕ) × (bd : List ℕ) × (pending ≡ hd ++ bd) × IsBody h hd bd

-- A completion with the bytes `chunk` gave `out` and left the reader `r`: what is pending now, and
-- that the packets of the stream are `out` and then those of the rest.
abbrev pub Progress : List ℕ → List ℕ → Option NetPacket × Reader → Type 0
Progress pending chunk (out, r) =
    (left : List ℕ) × IsPending r.reading r.handler left
    × ((rest : List ℕ)
        → frames (pending ++ (chunk ++ rest)) ≡ option_list out ++ frames (left ++ rest))

pub splice_lem :
    (old pending chunk : List ℕ)
    → take (length pending) old ≡ pending
    → splice (length pending) chunk old
      ≡ (pending ++ chunk) ++ drop (length pending + length chunk) old
unfolding splice
splice_lem old pending chunk e =
    rw e (sym (append_assoc pending chunk (drop (length pending + length chunk) old)))

-- What a filled buffer holds while it is not full, and when it is.
pub splice_full :
    (old pending chunk : List ℕ)
    → take (length pending) old ≡ pending
    → length old ≤ length pending + length chunk
    → splice (length pending) chunk old ≡ pending ++ chunk
splice_full old pending chunk e full =
    splice_lem old pending chunk e
    ∙ ap (λ xs. (pending ++ chunk) ++ xs) (drop_all (length pending + length chunk) old full)
    ∙ append-nil (pending ++ chunk)

pub length-splice :
    (old pending chunk : List ℕ)
    → take (length pending) old ≡ pending
    → length pending + length chunk ≤ length old
    → length (splice (length pending) chunk old) ≡ length old
length-splice old pending chunk e fits =
    let rest = drop (length pending + length chunk) old in
    omega (
      arith,
      ap length (splice_lem old pending chunk e),
      length-append (pending ++ chunk) rest,
      length-append pending chunk,
      length-drop (length pending + length chunk) old,
    )

pub take-splice :
    (old pending chunk : List ℕ)
    → take (length pending) old ≡ pending
    → take (length (pending ++ chunk)) (splice (length pending) chunk old) ≡ pending ++ chunk
take-splice old pending chunk e =
    ap (take (length (pending ++ chunk))) (splice_lem old pending chunk e)
    ∙ take-append (length (pending ++ chunk)) (pending ++ chunk) _ refl

pub length-head_data : (p : NetPacket) → length (head_data p) ≡ 6
unfolding head_data
length-head_data p = omega (
  arith,
  length-append (to_bytes 2 p.head.opcode) (to_bytes 4 p.head.size),
  length-to_bytes 2 p.head.opcode,
  length-to_bytes 4 p.head.size,
)

pub head_data-IsByte : (p : NetPacket) → All IsByte (head_data p)
unfolding head_data
head_data-IsByte p =
    All-append IsByte (to_bytes 2 p.head.opcode) (to_bytes 4 p.head.size)
      (to_bytes-IsByte 2 p.head.opcode) (to_bytes-IsByte 4 p.head.size)

-- The head buffer reads back what was written to it.
pub head_data-write_head :
    (bs : List ℕ) (p : NetPacket) → length bs ≡ 6 → All IsByte bs → head_data (write_head bs p) ≡ bs
unfolding head_data write_head
head_data-write_head bs p six bytes =
    rw
      (
        to_bytes-of_bytes 2 (take 2 bs) (omega (arith, length-take 2 bs))
            (All-take IsByte 2 bs bytes),
        to_bytes-of_bytes 4 (drop 2 bs) (omega (arith, length-drop 2 bs))
            (All-drop IsByte 2 bs bytes),
      )
      (take-append-drop 2 bs)

pub splice-IsByte :
    (old pending chunk : List ℕ)
    → take (length pending) old ≡ pending
    → All IsByte old
    → All IsByte pending
    → All IsByte chunk
    → All IsByte (splice (length pending) chunk old)
splice-IsByte old pending chunk e o p c = rw (splice_lem old pending chunk e) (
    All-append IsByte (pending ++ chunk) _ (All-append IsByte pending chunk p c)
      (All-drop IsByte (length pending + length chunk) old o))
