-- ===== src/Packet/Wire.antt =====
-- What `MakeBuffer` puts on the wire, against a description of the format.
use endless_peak_server.Shared.{
  ℕ, ◌^◌, ◌<◌, ◌≡◌, refl, sym, ap, ◌∙◌, List, [], ◌∷◌, ◌++◌, reverse, some, length, append_assoc,
  append-nil, arith,
}
use endless_peak_server.Bytes.{to_bytes, swap_endian}
use endless_peak_server.Bytes.Laws.{to_bytes-swap_endian}
use endless_peak_server.Packet.{
  NetPacket, empty_packet, set_head_opcode, set_head_size, head_data, make_buffer, buffer,
  body_bytes, insert,
}
use endless_peak_server.Packet.RoundTrip.{Field, insert_all}

-- Most significant byte first.
abbrev pub big_endian : ℕ → ℕ → List ℕ
big_endian n v = reverse (to_bytes n v)

-- The format: the opcode, the size of the payload, the payload.
abbrev pub wire : ℕ → List ℕ → List ℕ
wire opcode payload = big_endian 2 opcode ++ (big_endian 4 (length payload) ++ payload)

-- The payload of the fields, the last written first in the list.
unfoldable pub payload : List Field → List ℕ
payload [] = []
payload (f ∷ fs) = payload fs ++ big_endian f.width f.value

body-insert_all :
    (fs : List Field) (p : NetPacket)
    → body_bytes (insert_all fs p).body ≡ body_bytes p.body ++ payload fs
unfolding insert_all insert set_head_size payload
body-insert_all [] p = sym (append-nil (body_bytes p.body))
body-insert_all (f ∷ fs) p =
    rw (to_bytes-swap_endian f.width f.value, body-insert_all fs p)
      (append_assoc (body_bytes p.body) (payload fs) (big_endian f.width f.value))

opcode-insert_all :
    (fs : List Field) (p : NetPacket) → (insert_all fs p).head.opcode ≡ p.head.opcode
unfolding insert_all insert set_head_size
opcode-insert_all [] p = refl
opcode-insert_all (f ∷ fs) p = opcode-insert_all fs p

opcode-set_head_opcode :
    (o : ℕ) → o < 2 ^ 16 → (set_head_opcode o empty_packet).head.opcode ≡ swap_endian 2 o
unfolding set_head_opcode
opcode-set_head_opcode o h = ap (swap_endian 2) (omega arith)

body_some-insert_all :
    (o : ℕ) (f : Field) (fs : List Field)
    → (insert_all (f ∷ fs) (set_head_opcode o empty_packet)).body ≡ some (payload (f ∷ fs))
unfolding set_head_opcode insert_all insert set_head_size payload
body_some-insert_all o f fs = ap some (body-insert_all (f ∷ fs) (set_head_opcode o empty_packet))

size-insert_all :
    (o : ℕ) (f : Field) (fs : List Field)
    → length (payload (f ∷ fs)) < 2 ^ 32
    → (insert_all (f ∷ fs) (set_head_opcode o empty_packet)).head.size
      ≡ swap_endian 4 (length (payload (f ∷ fs)))
unfolding set_head_opcode insert_all insert set_head_size payload
size-insert_all o f fs h =
    let e = ap length (body-insert_all (f ∷ fs) (set_head_opcode o empty_packet)) in
    ap (swap_endian 4) (omega (arith, e))

pub make_buffer-some :
    (p : NetPacket) (b : List ℕ) → p.body ≡ some b → make_buffer p ≡ head_data p ++ b
unfolding make_buffer
make_buffer-some p b e = rw (e, buffer)

pub make_buffer_lem :
    (p : NetPacket) (o n : ℕ) (b : List ℕ)
    → p.head.opcode ≡ swap_endian 2 o
    → p.head.size ≡ swap_endian 4 n
    → p.body ≡ some b
    → make_buffer p ≡ big_endian 2 o ++ (big_endian 4 n ++ b)
unfolding make_buffer
make_buffer_lem p o n b eo en eb =
    rw (eb, buffer, eo, en, to_bytes-swap_endian 2 o, to_bytes-swap_endian 4 n)
      (append_assoc (big_endian 2 o) (big_endian 4 n) b)

-- A packet with opcode `o` to which at least one field was written goes out as the opcode and the
-- payload size, both big endian, and then the fields, big endian, in the order of writing.
pub make_buffer-insert_all :
    (o : ℕ) (f : Field) (fs : List Field)
    → o < 2 ^ 16
    → length (payload (f ∷ fs)) < 2 ^ 32
    → make_buffer (insert_all (f ∷ fs) (set_head_opcode o empty_packet)) ≡ wire o (payload (f ∷ fs))
make_buffer-insert_all o f fs small fits =
    let p : NetPacket = set_head_opcode o empty_packet in
    make_buffer_lem (insert_all (f ∷ fs) p) o (length (payload (f ∷ fs))) (payload (f ∷ fs))
      (opcode-insert_all (f ∷ fs) p ∙ opcode-set_head_opcode o small) (size-insert_all o f fs fits)
      (body_some-insert_all o f fs)
