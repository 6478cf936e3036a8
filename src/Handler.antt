-- ===== src/Handler.antt =====
-- `PacketHandler` of net/session/packet_handler.hpp and packet_handler.cpp: a packet that is being
-- received, and how much of its head and of its body has arrived.
use endless_peak_server.Shared.{
  ℕ, ◌+◌, Bool, true, false, if◌then◌else◌, ltb, List, ◌++◌, some, length, take, drop, add64, sub64,
}
use endless_peak_server.Packet.{
  NetPacket, empty_packet, head_bytes_size, get_head_size, get_body_size, is_valid_header,
  resize_body, move_packet, head_data, write_head, body_bytes,
}

pub record PacketHandler : Type 0 where
  pub head_already_read : ℕ
  pub body_already_read : ℕ
  pub packet : NetPacket

abbrev pub new_handler : PacketHandler
new_handler = record { head_already_read = 0; body_already_read = 0; packet = empty_packet }

unfoldable pub head_size_left : PacketHandler → ℕ
head_size_left h = sub64 head_bytes_size h.head_already_read

unfoldable pub body_size_left : PacketHandler → ℕ
body_size_left h = sub64 (get_body_size h.packet) h.body_already_read

unfoldable pub extract_packet : PacketHandler → NetPacket × PacketHandler
extract_packet h =
    let (taken, left) = move_packet h.packet in
    (taken, record { head_already_read = 0; body_already_read = 0; packet = left })

unfoldable pub update_head_size : ℕ → PacketHandler → Bool × PacketHandler
update_head_size size h =
    let count = add64 h.head_already_read size in
    if ltb count head_bytes_size
    then (false, record h { head_already_read = count })
    else if is_valid_header h.packet
    then (
      true,
      record h {
        head_already_read = count;
        packet = resize_body (get_head_size h.packet) h.packet;
      },
    )
    else (false, record h { head_already_read = 0 })

unfoldable pub update_body_size : ℕ → PacketHandler → Bool × PacketHandler
update_body_size size h =
    let count = add64 h.body_already_read size in
    if ltb count (get_head_size h.packet)
    then (false, record h { body_already_read = count })
    else (true, record h { head_already_read = 0; body_already_read = 0 })

-- A write of `bs` into the buffer `old` from `offset` on.
unfoldable pub splice : ℕ → List ℕ → List ℕ → List ℕ
splice offset bs old = take offset old ++ (bs ++ drop (offset + length bs) old)

-- The socket has copied bytes to `HeadCurrentData`, or to `BodyCurrentData`.
unfoldable pub fill_head : List ℕ → PacketHandler → PacketHandler
fill_head bs h = record h {
  packet = write_head (splice h.head_already_read bs (head_data h.packet)) h.packet;
}

unfoldable pub fill_body : List ℕ → PacketHandler → PacketHandler
fill_body bs h = record h {
  packet = record (h.packet) {
    body = some (splice h.body_already_read bs (body_bytes h.packet.body));
  };
}
