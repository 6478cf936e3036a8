-- ===== src/Packet.antt =====
-- `NetPacket` of shared/protocol/net_packet.hpp and net_packet.cpp, and `Opcodes` of
-- shared/protocol/opcodes.hpp. A value of a type `T` is a number below `256 ^ sizeof(T)`, its object
-- representation read in host order; a double is its bit pattern.
use endless_peak_server.Shared.{
  ℕ, zero, suc, ◌+◌, ◌-◌, ◌%◌, ◌^◌, Bool, true, false, ◌&&◌, if◌then◌else◌, ltb, leb, ◌==◌, List,
  [], ◌∷◌, ◌++◌, Option, none, some, length, take, drop, replicate,
}
use endless_peak_server.Bytes.{to_bytes, of_bytes, swap_endian}
pub mod RoundTrip
pub mod Wire

pub data Opcodes : Type 0 where
  create_player spawn_players move_left move_right jump move_player add_player remove_player :
      Opcodes

unfoldable pub to_uint16 : Opcodes → ℕ
to_uint16 create_player = 0x0003
to_uint16 spawn_players = 0x0004
to_uint16 move_left = 0x0012
to_uint16 move_right = 0x0013
to_uint16 jump = 0x0014
to_uint16 move_player = 0x0015
to_uint16 add_player = 0x0016
to_uint16 remove_player = 0x0017

-- The enumerator of a value, or `none` for a value of the enumeration that has no name.
unfoldable pub to_opcode : ℕ → Option Opcodes
to_opcode o =
    if o == 0x0003
    then some create_player
    else if o == 0x0004
    then some spawn_players
    else if o == 0x0012
    then some move_left
    else if o == 0x0013
    then some move_right
    else if o == 0x0014
    then some jump
    else if o == 0x0015
    then some move_player
    else if o == 0x0016
    then some add_player
    else if o == 0x0017
    then some remove_player
    else none

abbrev pub max_opcode : ℕ
max_opcode = 0x0FFF

abbrev pub max_payload_size : ℕ
max_payload_size = 128

-- `sizeof(PacketHead)`: the struct is packed.
abbrev pub head_bytes_size : ℕ
head_bytes_size = 6

-- The fields as they stand in memory: in network order.
pub record PacketHead : Type 0 where
  pub opcode : ℕ
  pub size : ℕ

-- A null `body_` is `none`.
pub record NetPacket : Type 0 where
  pub head : PacketHead
  pub body : Option (List ℕ)

abbrev pub empty_packet : NetPacket
empty_packet = record { head = record { opcode = 0; size = 0 }; body = none }

unfoldable pub opcode_packet : Opcodes → NetPacket
opcode_packet opcode = record {
  head = record { opcode = swap_endian 2 (to_uint16 opcode); size = 0 };
  body = none;
}

-- The new packet, and what is left of the one moved from.
unfoldable pub move_packet : NetPacket → NetPacket × NetPacket
move_packet other =
    (other, record { head = record { opcode = other.head.opcode; size = 0 }; body = none })

-- Move assignment: both packets after it. `same` says whether they are one object.
unfoldable pub assign_packet : Bool → NetPacket → NetPacket → NetPacket × NetPacket
assign_packet same this other = if same then (this, other) else move_packet other

unfoldable pub get_head_opcode : NetPacket → ℕ
get_head_opcode p = swap_endian 2 p.head.opcode

unfoldable pub get_head_size : NetPacket → ℕ
get_head_size p = swap_endian 4 p.head.size

-- The parameters are a `uint16_t` and a `uint32_t`.
unfoldable pub set_head_opcode : ℕ → NetPacket → NetPacket
set_head_opcode opcode p = record p {
  head = record { opcode = swap_endian 2 (opcode % 2 ^ 16); size = p.head.size };
}

unfoldable pub set_head_size : ℕ → NetPacket → NetPacket
set_head_size size p = record p {
  head = record { opcode = p.head.opcode; size = swap_endian 4 (size % 2 ^ 32) };
}

-- The bytes at `GetHeadData`, and the packet after a write of all of them.
unfoldable pub head_data : NetPacket → List ℕ
head_data p = to_bytes 2 p.head.opcode ++ to_bytes 4 p.head.size

unfoldable pub write_head : List ℕ → NetPacket → NetPacket
write_head bs p = record p {
  head = record { opcode = of_bytes (take 2 bs); size = of_bytes (drop 2 bs) };
}

abbrev pub body_bytes : Option (List ℕ) → List ℕ
body_bytes none = []
body_bytes (some b) = b

unfoldable pub get_body_size : NetPacket → ℕ
get_body_size p = length (body_bytes p.body)

-- `std::vector::resize`: new elements are zero.
unfoldable pub resize : ℕ → List ℕ → List ℕ
resize n bs = take n bs ++ replicate (n - length bs) 0

resized : ℕ → Option (List ℕ) → List ℕ
resized size none = replicate size 0
resized size (some b) = resize size b

unfoldable pub resize_body : ℕ → NetPacket → NetPacket
unfolding resized
resize_body size p = record p { body = some (resized size p.body) }

unfoldable pub is_valid_header : NetPacket → Bool
is_valid_header p =
    ltb (swap_endian 2 p.head.opcode) max_opcode && ltb (swap_endian 4 p.head.size) max_payload_size

buffer : NetPacket → Option (List ℕ) → List ℕ
unfolding head_data
buffer p none = []
buffer p (some b) = head_data p ++ b

unfoldable pub make_buffer : NetPacket → List ℕ
unfolding buffer
make_buffer p = buffer p p.body

-- `packet << value`: the vector grows by `sizeof(T)` and the swapped value is copied there.
unfoldable pub insert : ℕ → ℕ → NetPacket → NetPacket
insert n value p =
    let body : List ℕ = body_bytes p.body ++ to_bytes n (swap_endian n value) in
    set_head_size (length body) (record p { body = some body })

-- `packet >> value`. `none`: the offset wraps, and the copy reads outside the vector.
unfoldable pub extract : ℕ → NetPacket → Option (ℕ × NetPacket)
extract n p =
    let offset = get_body_size p - n in
    if leb n (get_body_size p)
    then some (
      swap_endian n (of_bytes (take n (drop offset (body_bytes p.body)))),
      set_head_size offset (resize_body offset p),
    )
    else none

-- The packets that the world sends.
unfoldable pub box_packet : Opcodes → ℕ → ℕ → ℕ → ℕ → ℕ → NetPacket
box_packet opcode id x y width height = insert 1 height (
    insert 1 width
      (insert 8 y (insert 8 x (insert 8 id (set_head_opcode (to_uint16 opcode) empty_packet)))))

unfoldable pub create_player_packet : ℕ → ℕ → ℕ → ℕ → ℕ → NetPacket
create_player_packet id x y width height = box_packet create_player id x y width height

unfoldable pub add_player_packet : ℕ → ℕ → ℕ → ℕ → ℕ → NetPacket
add_player_packet id x y width height = box_packet add_player id x y width height

unfoldable pub remove_player_packet : ℕ → NetPacket
remove_player_packet id = insert 8 id (set_head_opcode (to_uint16 remove_player) empty_packet)

unfoldable pub move_player_packet : ℕ → ℕ → ℕ → NetPacket
move_player_packet id x y =
    insert 8 y (insert 8 x (insert 8 id (set_head_opcode (to_uint16 move_player) empty_packet)))
