-- ===== src/Peak/Polite.antt =====
-- Which events clients that keep to the protocol bring about, and the states of the program that
-- such events lead to.
use endless_peak_server.Shared.{ℕ, ◌≡◌, ◌&&◌, Bool, true, false, not, List, Option, none, some}
use endless_peak_server.Double.{Double}
use endless_peak_server.Packet.{NetPacket, Opcodes, remove_player, to_opcode, get_head_opcode}
use endless_peak_server.Reader.{on_read}
use endless_peak_server.Session.{Session}
use endless_peak_server.Server.{Server}
use endless_peak_server.Server.Kept.{registered}
use endless_peak_server.World.{World}
use endless_peak_server.Peak.{Peak, Event, brings, opened, holds, step}

unfoldable pub is_removal : Option Opcodes → Bool
is_removal (some remove_player) = true
is_removal _ = false

-- A packet, when one is complete, comes from a session in the map and is no `RemovePlayer`.
unfoldable pub fair : Bool → Option NetPacket → Bool
fair registered none = true
fair registered (some packet) = registered && not (is_removal (to_opcode (get_head_opcode packet)))

unfoldable pub brought : List ℕ → Server → Option Session → Bool
brought chunk server none = true
brought chunk server (some session) =
    fair (registered session.id server)
      (on_read chunk session.reader.reading session.reader.handler).0

module _ {D : Type 0} where
  unfoldable pub polite : Event D → Peak D → Bool
  unfolding brought
  polite (brings id chunk) s = brought chunk s.server (holds id s)
  polite _ s = true

module _ {D : Type 0} ⦃d : Double D⦄ where
  -- The states after polite events, from the start of the threads on.
  pub data Reach (w : World D) : Peak D → Type 0 where
    start : Reach w (opened w)
    next :
        {s s' : Peak D} (e : Event D)
        → Reach w s
        → polite e s ≡ true
        → step e s ≡ some s'
        → Reach w s'
