-- ===== src/Reader/Framing.antt =====
-- What the reader gives, whatever the sizes of the reads, and the packets in the stream.
use endless_peak_server.Shared.{
  ℕ, ◌≤◌, ◌≡◌, refl, sym, ap, ◌∙◌, subst, List, [], ◌∷◌, ◌++◌, length, flatten, append-nil,
  option_list, arith, All,
}
use endless_peak_server.Bytes.Laws.{IsByte}
use endless_peak_server.Handler.{PacketHandler}
use endless_peak_server.Reader.Frames.{frames, frames_short_head, frames_short_body}
use endless_peak_server.Reader.Pending.{IsPending, Progress}
use endless_peak_server.Reader.HeadStep.{on_read_head-Progress}
use endless_peak_server.Reader.BodyStep.{on_read_body-Progress}
use endless_peak_server.Reader.{
  Reading, packet_head, packet_body, Reader, new_reader, limit, on_read, read_all,
}

-- What `async_read_some` promises along a run: no more bytes than asked for, and each is a byte.
abbrev pub Fits : List (List ℕ) → Reader → Type 0
Fits [] r = Unit
Fits (chunk ∷ chunks) r =
    (length chunk ≤ limit r.reading r.handler)
    × All IsByte chunk
    × Fits chunks (on_read chunk r.reading r.handler).1

on_read-Progress :
    (r : Reading) (h : PacketHandler) (pending chunk : List ℕ)
    → IsPending r h pending
    → length chunk ≤ limit r h
    → All IsByte chunk
    → Progress pending chunk (on_read chunk r h)
unfolding on_read limit
on_read-Progress packet_head h pending chunk inv fits bytes =
    on_read_head-Progress h pending chunk inv fits bytes
on_read-Progress packet_body h pending chunk (hd, bd, e, inv) fits bytes =
    subst (λ p. Progress p chunk (on_read chunk packet_body h)) (sym e)
      (on_read_body-Progress h hd bd chunk inv fits)

-- What is pending holds no packet.
frames-pending :
    (r : Reading) (h : PacketHandler) (pending : List ℕ)
    → IsPending r h pending
    → frames pending ≡ []
frames-pending packet_head h pending inv = frames_short_head pending inv.short
frames-pending packet_body h pending (hd, bd, e, inv) =
    ap frames e ∙ frames_short_body hd inv.six bd inv.valid inv.short

read_all-frames :
    (chunks : List (List ℕ)) (r : Reader) (pending : List ℕ)
    → IsPending r.reading r.handler pending
    → Fits chunks r
    → frames (pending ++ flatten chunks) ≡ (read_all chunks r).0
unfolding read_all
read_all-frames [] r pending inv fits =
    ap frames (append-nil pending) ∙ frames-pending r.reading r.handler pending inv
read_all-frames (chunk ∷ chunks) r pending inv (fits, bytes, later) =
    let (left, kept, split) = on_read-Progress r.reading r.handler pending chunk inv fits bytes in
    let (out, r') = on_read chunk r.reading r.handler in
    split (flatten chunks)
    ∙ ap (λ ps. option_list out ++ ps) (read_all-frames chunks r' left kept later)

new_reader-IsPending : IsPending new_reader.reading new_reader.handler []
new_reader-IsPending = record {
  count = refl;
  short = omega arith;
  body_count = refl;
  no_body = refl;
  start = refl;
  bytes = tt;
}

-- However the bytes of a connection are cut into reads, none longer than asked for and each of bytes below 256, the packets
-- given out from its start are those of the concatenated stream: each frame once and in order, heads
-- that `IsValidHeader` refuses dropped, and nothing of an unfinished frame.
pub read_all_framing :
    (chunks : List (List ℕ))
    → Fits chunks new_reader
    → (read_all chunks new_reader).0 ≡ frames (flatten chunks)
read_all_framing chunks fits = sym (read_all-frames chunks new_reader [] new_reader-IsPending fits)
