-- ===== src/Server/Race/Locked.antt =====
-- What a thread does to `sessions_mutex_` in one step of net/server/server.cpp.
use mathlib.Core.Option.{some-injective}
use endless_peak_server.Shared.{
  ℕ, ◌≡◌, ◌⊎◌, refl, sym, ◌∙◌, subst, inl, inr, Bool, true, false, Option, none, some, >>=-eq-some,
}
use endless_peak_server.Queue.{TsQueue, wait_and_pop}
use endless_peak_server.Packet.{make_buffer}
use endless_peak_server.Session.{Session}
use endless_peak_server.World.{ServerPacket}
use endless_peak_server.Server.{find, deliver}
use endless_peak_server.Server.Race.{
  Pc, idle, at_lock_add, at_insert, at_created, at_lock_close, at_erase, at_removed, at_read,
  in_loop, Action, adds, closes, sends, runs, Memory, advance, locked, sent, erased,
}

-- Between the lock and the end of its scope.
abbrev pub holding : Pc → Bool
holding (at_insert session) = true
holding (at_erase id) = true
holding (at_removed id) = true
holding _ = false

-- What thread `i` may do to the mutex.
abbrev pub Owned : ℕ → Memory → Pc × Memory → Type 0
Owned i m (pc', m') =
    (holding pc' ≡ true → m'.owner ≡ some i)
    × ((m'.owner ≡ m.owner) ⊎ ((m.owner ≡ none) ⊎ (m.owner ≡ some i)))

locked-Owned :
    (i : ℕ) (before after : Pc) (m : Memory) (o : Option ℕ)
    → m.owner ≡ o
    → holding before ≡ false
    → Owned i m (locked i before after m o)
unfolding locked
locked-Owned i before after m none e free = ((λ h. refl), inr (inl e))
locked-Owned i before after m (some j) e free = ((λ h. absurd (cc (sym free ∙ h))), inl refl)

sent-Owned :
    (i : ℕ) (m : Memory) (o : Option (ServerPacket × TsQueue ServerPacket)) → Owned i m (sent m o)
unfolding sent
sent-Owned i m none = ((λ h. absurd (cc h)), inl refl)
sent-Owned i m (some (packet, queue)) = ((λ h. absurd (cc h)), inl refl)

erased-Owned :
    (i id : ℕ) (m : Memory) (o : Option Session) → m.owner ≡ some i → Owned i m (erased id m o)
unfolding erased
erased-Owned i id m none own = ((λ h. absurd (cc h)), inr (inr own))
erased-Owned i id m (some session) own = ((λ h. own), inl refl)

taken : (i : ℕ) (m : Memory) {x r : Pc × Memory} → some x ≡ some r → Owned i m x → Owned i m r
taken i m e o = subst (Owned i m) (some-injective _ _ e) o

pub advance-Owned :
    (i : ℕ) (a : Action) (pc : Pc) (m : Memory) (r : Pc × Memory)
    → advance i a pc m ≡ some r
    → (holding pc ≡ true → m.owner ≡ some i)
    → Owned i m r
unfolding advance
advance-Owned i (adds session) idle m r e own = taken i m e (own, inl refl)
advance-Owned i (adds session) _ m r e own = taken i m e (own, inl refl)
advance-Owned i (closes id) idle m r e own = taken i m e (own, inl refl)
advance-Owned i (closes id) _ m r e own = taken i m e (own, inl refl)
advance-Owned i sends idle m r e own =
    taken i m e (sent-Owned i m (wait_and_pop m.server.out_queue))
advance-Owned i sends _ m r e own = taken i m e (own, inl refl)
advance-Owned i runs idle m r e own = taken i m e (own, inl refl)
advance-Owned i runs (at_lock_add session) m r e own =
    taken i m e (locked-Owned i (at_lock_add session) (at_insert session) m m.owner refl refl)
advance-Owned i runs (at_lock_close id) m r e own =
    taken i m e (locked-Owned i (at_lock_close id) (at_erase id) m m.owner refl refl)
advance-Owned i runs (at_insert session) m r e own =
    taken i m e ((λ h. absurd (cc h)), inr (inr (own refl)))
advance-Owned i runs (at_removed id) m r e own =
    taken i m e ((λ h. absurd (cc h)), inr (inr (own refl)))
advance-Owned i runs (at_created id) m r e own = taken i m e ((λ h. absurd (cc h)), inl refl)
advance-Owned i runs (at_erase id) m r e own =
    taken i m e (erased-Owned i id m (find id m.server.sessions) (own refl))
advance-Owned i runs (at_read packet) m r e own = taken i m e ((λ h. absurd (cc h)), inl refl)
advance-Owned i runs (in_loop packet) m r e own =
    let (sessions, _, e') =
      >>=-eq-some (deliver packet (make_buffer packet.packet) m.server.sessions) _ e in
    taken i m e' ((λ h. absurd (cc h)), inl refl)
