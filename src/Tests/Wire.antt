-- ===== src/Tests/Wire.antt =====
-- Packets, streams of bytes and queues, as in shared/protocol, shared/utils and net/session.
use endless_peak_server.Shared.{ℕ, ◌≡◌, refl, List, [], ◌∷◌, ◌++◌, some, map, flatten, arith}
use endless_peak_server.Bytes.{to_bytes, of_bytes, swap_endian}
use endless_peak_server.Queue.Fifo.{Call, pushes, try_pops, wait_pops, run, pushed, run_fifo}
use endless_peak_server.Packet.{
  NetPacket, empty_packet, set_head_opcode, set_head_size, move_player_packet, make_buffer,
  is_valid_header, get_head_size, insert, get_body_size, head_data, write_head, resize_body, resize,
  move_packet, to_uint16,
}
use endless_peak_server.Packet.RoundTrip.{
  Field, insert_all, extract_all, widths, values, sized, extract_all-insert_all,
}
use endless_peak_server.Packet.Wire.{wire, payload, make_buffer-insert_all}
use endless_peak_server.Handler.{
  head_size_left, body_size_left, extract_packet, update_head_size, update_body_size, splice,
  fill_head, fill_body,
}
use endless_peak_server.Reader.{new_reader, limit, on_read_head, on_read_body, on_read, read_all}
use endless_peak_server.Reader.Frames.{frames}
use endless_peak_server.Reader.Framing.{Fits, read_all_framing}
use endless_peak_server.Reader.Sent.{IsSendable, frames-make_buffers}

-- A jump whose head arrives in two parts, then a packet with two bytes of payload, one at a time.
abbrev pub two_packets : List (List ℕ)
two_packets =
    (0 ∷ 0x14 ∷ [])
    ∷ (0 ∷ 0 ∷ 0 ∷ 0 ∷ [])
    ∷ (0 ∷ 0x15 ∷ 0 ∷ 0 ∷ 0 ∷ 2 ∷ [])
    ∷ (7 ∷ [])
    ∷ (8 ∷ [])
    ∷ []

pub two_packets-Fits : Fits two_packets new_reader
unfolding limit on_read on_read_head on_read_body head_size_left body_size_left update_head_size
    update_body_size fill_head fill_body splice extract_packet head_data write_head is_valid_header
    get_head_size get_body_size resize_body resize move_packet to_bytes of_bytes swap_endian
two_packets-Fits = ground arith

read_all_framing_example : (read_all two_packets new_reader).0 ≡ frames (flatten two_packets)
read_all_framing_example = read_all_framing two_packets two_packets-Fits

abbrev moved : NetPacket
moved = move_player_packet 3 5 6

moved-IsSendable : IsSendable moved
unfolding move_player_packet insert set_head_opcode set_head_size is_valid_header get_head_size
    to_uint16 to_bytes of_bytes swap_endian
moved-IsSendable = record {
  valid = refl;
  has_body = refl;
  exact = refl;
  opcode_fits = omega arith;
  size_fits = omega arith;
}

frames-make_buffers_example :
    frames (flatten (map make_buffer (moved ∷ moved ∷ []))) ≡ moved ∷ moved ∷ []
frames-make_buffers_example =
    frames-make_buffers (moved ∷ moved ∷ []) (moved-IsSendable, (moved-IsSendable, tt))

abbrev two_fields : List Field
two_fields = record { width = 2; value = 513 } ∷ record { width = 1; value = 7 } ∷ []

extract_all-insert_all_example :
    extract_all (widths two_fields) (insert_all two_fields (sized empty_packet))
    ≡ some (values two_fields, sized empty_packet)
extract_all-insert_all_example =
    extract_all-insert_all two_fields empty_packet (omega arith, (omega arith, tt))

make_buffer-insert_all_example :
    make_buffer (insert_all two_fields (set_head_opcode 0x15 empty_packet))
    ≡ wire 0x15 (payload two_fields)
unfolding payload to_bytes
make_buffer-insert_all_example =
    make_buffer-insert_all 0x15 (record { width = 2; value = 513 })
      (record { width = 1; value = 7 } ∷ []) (omega arith) (omega arith)

abbrev calls : List (Call ℕ)
calls = pushes 1 ∷ wait_pops ∷ try_pops ∷ pushes 2 ∷ pushes 3 ∷ try_pops ∷ []

run_fifo_example :
    (run calls (record { items = 9 ∷ [] })).0 ++ (run calls (record { items = 9 ∷ [] })).1.items
    ≡ (9 ∷ []) ++ pushed calls
run_fifo_example = run_fifo calls (record { items = 9 ∷ [] })
