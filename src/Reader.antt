-- ===== src/Reader.antt =====
-- The success branches of the completion handlers in `Session::ReadPacketHead` and
-- `Session::ReadPacketBody` of net/session/session.cpp: what has arrived on a connection, and which
-- read is outstanding. A packet that comes out is the one given to `Server::PushPacket`.
use endless_peak_server.Shared.{
  ℕ, Bool, true, false, if◌then◌else◌, ltb, ◌==◌, List, [], ◌∷◌, ◌++◌, Option, none, some, length,
  option_list,
}
use endless_peak_server.Packet.{NetPacket}
use endless_peak_server.Handler.{
  PacketHandler, new_handler, head_size_left, body_size_left, extract_packet, update_head_size,
  update_body_size, fill_head, fill_body,
}
pub mod Frames
pub mod Pending
pub mod HeadStep
pub mod BodyStep
pub mod Framing
pub mod Sent

pub data Reading : Type 0 where
  packet_head packet_body : Reading

pub record Reader : Type 0 where
  pub reading : Reading
  pub handler : PacketHandler

abbrev pub new_reader : Reader
new_reader = record { reading = packet_head; handler = new_handler }

-- The size passed to `async_read_some`: at most so many bytes arrive.
unfoldable pub limit : Reading → PacketHandler → ℕ
limit packet_head h = head_size_left h
limit packet_body h = body_size_left h

take_packet : PacketHandler → Option NetPacket × Reader
take_packet h =
    let (p, h') = extract_packet h in (some p, record { reading = packet_head; handler = h' })

unfoldable pub on_read_head : List ℕ → PacketHandler → Option NetPacket × Reader
unfolding take_packet
on_read_head chunk h =
    let (complete, h') = update_head_size (length chunk) (fill_head chunk h) in
    if complete
    then if body_size_left h' == 0
      then take_packet h'
      else (none, record { reading = packet_body; handler = h' })
    else (none, record { reading = packet_head; handler = h' })

unfoldable pub on_read_body : List ℕ → PacketHandler → Option NetPacket × Reader
unfolding take_packet
on_read_body chunk h =
    let (complete, h') = update_body_size (length chunk) (fill_body chunk h) in
    if complete then take_packet h' else (none, record { reading = packet_body; handler = h' })

-- One completion with its bytes.
unfoldable pub on_read : List ℕ → Reading → PacketHandler → Option NetPacket × Reader
on_read chunk packet_head h = on_read_head chunk h
on_read chunk packet_body h = on_read_body chunk h

unfoldable pub read_all : List (List ℕ) → Reader → List NetPacket × Reader
read_all [] r = ([], r)
read_all (chunk ∷ chunks) r =
    let (p, r') = on_read chunk r.reading r.handler in
    let (ps, r'') = read_all chunks r' in (option_list p ++ ps, r'')
