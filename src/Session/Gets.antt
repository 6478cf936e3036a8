-- ===== src/Session/Gets.antt =====
-- What `Session::PushToSend` of net/session/session.cpp does with the buffer.
use endless_peak_server.Shared.{
  ◌≡◌, refl, sym, ◌⊎◌, inl, inr, true, false, List, [], ◌∷◌, ◌++◌, some, Bool-cases,
}
use endless_peak_server.Queue.{TsQueue, push, empty}
use endless_peak_server.Queue.Fifo.{try_pop_cases}
use endless_peak_server.Session.{
  SendBuffer, Session, is_connected, send, write_front, start_write, push_to_send,
}
use endless_peak_server.Session.Fields.{SameLife, push_to_send-SameLife}

-- The buffer waits at the end of the queue, since a write is under way or the session disconnected.
pub record Waits (buf : SendBuffer) (s t : Session) : Type 0 where
  pub why : (s.sending ≡ true) ⊎ (is_connected s.state ≡ false)
  pub sending : t.sending ≡ s.sending
  pub in_flight : t.in_flight ≡ s.in_flight
  pub queue : t.out_queue.items ≡ s.out_queue.items ++ (buf ∷ [])

-- No write was under way, and the first of the waiting buffers and this one is written.
pub record Starts (buf : SendBuffer) (s t : Session) : Type 0 where
  pub idle : s.sending ≡ false
  pub connected : is_connected s.state ≡ true
  pub sending : t.sending ≡ true
  pub front : SendBuffer
  pub in_flight : t.in_flight ≡ some front
  pub queue : front ∷ t.out_queue.items ≡ s.out_queue.items ++ (buf ∷ [])

-- What `PushToSend` does besides leaving the life of the session alone.
abbrev pub Sent : SendBuffer → Session → Session → Type 0
Sent buf s t = (t.reader ≡ s.reader) × (Waits buf s t ⊎ Starts buf s t)

-- A session gets a buffer.
abbrev pub Gets : SendBuffer → Session → Session → Type 0
Gets buf s t = SameLife s t × Sent buf s t

empty_push :
    (xs : List SendBuffer) (buf : SendBuffer) → empty (record { items = xs ++ (buf ∷ []) }) ≡ false
unfolding empty
empty_push [] buf = refl
empty_push (x ∷ xs) buf = refl

not_nil : (xs : List SendBuffer) (buf : SendBuffer) → xs ++ (buf ∷ []) ≡ [] → ⊥
not_nil [] buf e = absurd cc
not_nil (x ∷ xs) buf e = absurd cc

module _ (buf : SendBuffer) (s : Session) where
  abbrev queued : TsQueue SendBuffer
  queued = record { items = s.out_queue.items ++ (buf ∷ []) }

  disconnected-Sent : is_connected s.state ≡ false → Sent buf s (push_to_send buf s)
  unfolding push_to_send send push
  disconnected-Sent e =
      rw e (refl, inl (record { why = inr e; sending = refl; in_flight = refl; queue = refl }))

  busy-Sent : is_connected s.state ≡ true → s.sending ≡ true → Sent buf s (push_to_send buf s)
  unfolding push_to_send send push start_write
  busy-Sent e b =
      rw (e, empty_push s.out_queue.items buf, b)
        (refl, inl (record { why = inl refl; sending = refl; in_flight = refl; queue = refl }))

  idle-Sent : is_connected s.state ≡ true → s.sending ≡ false → Sent buf s (push_to_send buf s)
  unfolding push_to_send send push start_write write_front
  idle-Sent e b = elim (try_pop_cases queued) [
    | inl (nothing, _) ↦ absurd (not_nil s.out_queue.items buf nothing)
    | inr (front, rest, items, popped) ↦
        rw (e, empty_push s.out_queue.items buf, b, popped, write_front)
          (
            refl,
            inr (record {
              idle = refl;
              connected = e;
              sending = refl;
              front = front;
              in_flight = refl;
              queue = sym items;
            }),
          )
  ]

  pub push_to_send-Gets : Gets buf s (push_to_send buf s)
  push_to_send-Gets = (
    push_to_send-SameLife buf s,
    elim (Bool-cases (is_connected s.state)) [
      | inr off ↦ disconnected-Sent off
      | inl on ↦ elim (Bool-cases s.sending) [
        | inl busy ↦ busy-Sent on busy
        | inr idle ↦ idle-Sent on idle
      ]
    ],
  )
