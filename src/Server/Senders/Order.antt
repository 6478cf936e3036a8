-- ===== src/Server/Senders/Order.antt =====
-- In which order the sessions get the packets from the threads that run `Server::Sender`.
use endless_peak_server.Shared.{
  ℕ, zero, suc, ◌≡◌, refl, sym, ap, ◌∙◌, inl, inr, List, [], ◌∷◌, ◌++◌, Option, none, some,
  get_elem?, set, option_list, replicate, append_assoc, >>=-eq-some, subst, ◌≤◌, arith, ◌⊎◌,
}
use Prim.Native.Nat.{max}
use mathlib.Core.Option.{some-injective}
use endless_peak_server.Queue.{TsQueue, wait_and_pop}
use endless_peak_server.Queue.Fifo.{wait_and_pop_cons}
use endless_peak_server.Packet.{make_buffer}
use endless_peak_server.World.{ServerPacket, broadcast}
use endless_peak_server.Server.{Server, deliver, send_all}
use endless_peak_server.Server.Senders.{
  Senders, popped, turn, step, run, start_senders, net_threads,
}

-- What one thread has done, holds, and still finds.
abbrev pub in_order : Option ServerPacket → Senders → List ServerPacket
in_order held s = s.delivered ++ (option_list held ++ s.server.out_queue.items)

abbrev Kept : Option ServerPacket → Senders → Senders → Type 0
Kept held s s' =
    (held' : Option ServerPacket) × (s'.threads ≡ held' ∷ [])
    × (in_order held' s' ≡ in_order held s)

List-cases {ℓ} :
    {A : Type ℓ} (xs : List A) → (xs ≡ []) ⊎ ((x : A) × (rest : List A) × (xs ≡ x ∷ rest))
List-cases [] = inl refl
List-cases (x ∷ rest) = inr (x, rest, refl)

wait_and_pop_nil {ℓ} : {A : Type ℓ} (q : TsQueue A) → q.items ≡ [] → wait_and_pop q ≡ none
unfolding wait_and_pop
wait_and_pop_nil q e = rw e

turn-Kept :
    (held : Option ServerPacket) (s s' : Senders)
    → s.threads ≡ held ∷ []
    → turn 0 s held ≡ some s'
    → Kept held s s'
unfolding turn
turn-Kept none s s' one e = elim (List-cases s.server.out_queue.items) [
  | inl nothing ↦
      let same =
        some-injective _ _ (rw (wait_and_pop_nil s.server.out_queue nothing, popped) at e) in
      subst (Kept none s) same (none, one, refl)
  | inr (x, rest, items) ↦
      let same =
        some-injective _ _ (rw (wait_and_pop_cons s.server.out_queue x rest items, popped) at e) in
      subst (Kept none s) same
        (some x, ap (λ ts. set ts 0 (some x)) one, ap (λ xs. s.delivered ++ xs) (sym items))
]
turn-Kept (some packet) s s' one e =
    let (sessions, _, e') =
      >>=-eq-some (deliver packet (make_buffer packet.packet) s.server.sessions) _ e in
    subst (Kept (some packet) s) (some-injective _ _ e') (
      none,
      ap (λ ts. set ts 0 none) one,
      append_assoc s.delivered (packet ∷ []) s.server.out_queue.items,
    )

step-Kept :
    (i : ℕ) (held : Option ServerPacket) (s s' : Senders)
    → s.threads ≡ held ∷ []
    → step i s ≡ some s'
    → Kept held s s'
unfolding step
step-Kept zero held s s' one e =
    turn-Kept held s s' one (rw (ap (λ ts. get_elem? ts 0) one, step) at e)
step-Kept (suc i) held s s' one e =
    subst (Kept held s) (some-injective _ _ (rw (ap (λ ts. get_elem? ts (suc i)) one, step) at e))
      (held, one, refl)

run-Kept :
    (is : List ℕ) (held : Option ServerPacket) (s s' : Senders)
    → s.threads ≡ held ∷ []
    → run is s ≡ some s'
    → Kept held s s'
unfolding run
run-Kept [] held s s' one e = subst (Kept held s) (some-injective _ _ e) (held, one, refl)
run-Kept (i ∷ is) held s s' one e =
    let (t, e1, e2) = >>=-eq-some (step i s) (run is) e in
    let (held1, one1, same1) = step-Kept i held s t one e1 in
    let (held2, one2, same2) = run-Kept is held1 t s' one1 e2 in (held2, one2, same2 ∙ same1)

-- With one thread configured, or none, after any turns that return: what was handed to the sessions,
-- then what the thread holds, then what is queued, is the queue's content at the start, in order.
pub single_sender_in_order :
    (configured : ℕ) (is : List ℕ) (server : Server) (s : Senders)
    → configured ≤ 1
    → run is (start_senders configured server) ≡ some s
    → (held : Option ServerPacket) × (s.threads ≡ held ∷ [])
      × (s.delivered ++ (option_list held ++ s.server.out_queue.items) ≡ server.out_queue.items)
unfolding start_senders net_threads
single_sender_in_order zero is server s h e = run-Kept is none _ s refl e
single_sender_in_order (suc zero) is server s h e = run-Kept is none _ s refl e
single_sender_in_order (suc (suc n)) is server s h e = absurd (omega arith)

abbrev with_queue : Senders → List ServerPacket → Server
with_queue s rest = record (s.server) { out_queue = record { items = rest } }

step_pops :
    (i : ℕ) (s : Senders) (x : ServerPacket) (rest : List ServerPacket)
    → get_elem? s.threads i ≡ some none
    → s.server.out_queue.items ≡ x ∷ rest
    → step i s ≡ some (record s { server = with_queue s rest; threads = set s.threads i (some x) })
unfolding step turn
step_pops i s x rest idle e = rw (idle, step, wait_and_pop_cons s.server.out_queue x rest e, popped)

abbrev handed : Senders → ServerPacket → Server
handed s p = record (s.server) { sessions = send_all (make_buffer p.packet) s.server.sessions }

step_hands :
    (i : ℕ) (s : Senders) (p : ServerPacket)
    → get_elem? s.threads i ≡ some (some p)
    → p.type ≡ broadcast
    → step i s
      ≡ some (record s {
        server = handed s p;
        threads = set s.threads i none;
        delivered = s.delivered ++ (p ∷ []);
      })
unfolding step turn deliver
step_hands i s p busy t = rw (busy, step, t, deliver)

-- With two threads or more, two broadcast packets at the front of the queue can be handed to every
-- session in the reverse order.
pub senders_swap :
    (configured : ℕ) (server : Server) (a b : ServerPacket) (rest : List ServerPacket)
    → 2 ≤ configured
    → server.out_queue.items ≡ a ∷ b ∷ rest
    → a.type ≡ broadcast
    → b.type ≡ broadcast
    → (s : Senders) × (run (0 ∷ 1 ∷ 1 ∷ 0 ∷ []) (start_senders configured server) ≡ some s)
      × (s.server.sessions
          ≡ send_all (make_buffer a.packet) (send_all (make_buffer b.packet) server.sessions))
      × (s.server.out_queue.items ≡ rest)
unfolding start_senders net_threads run
senders_swap zero server a b rest h e ta tb = absurd (omega arith)
senders_swap (suc zero) server a b rest h e ta tb = absurd (omega arith)
senders_swap (suc (suc n)) server a b rest h e ta tb =
    let threads : List (Option ServerPacket) = none ∷ none ∷ replicate n none in
    let s0 : Senders = record { server = server; threads = threads; delivered = [] } in
    let s1 : Senders = record s0 {
      server = with_queue s0 (b ∷ rest);
      threads = set threads 0 (some a);
    } in
    let s2 : Senders = record s1 {
      server = with_queue s1 rest;
      threads = set s1.threads 1 (some b);
    } in
    let s3 : Senders = record s2 {
      server = handed s2 b;
      threads = set s2.threads 1 none;
      delivered = b ∷ [];
    } in
    let s4 : Senders = record s3 {
      server = handed s3 a;
      threads = set s3.threads 0 none;
      delivered = b ∷ a ∷ [];
    } in
    let count : max 1 (suc (suc n)) ≡ suc (suc n) = omega arith in
    (
      s4,
      rw (
        count,
        step_pops 0 s0 a (b ∷ rest) refl e,
        step_pops 1 s1 b rest refl refl,
        step_hands 1 s2 b refl tb,
        step_hands 0 s3 a refl ta,
      ),
      refl,
      refl,
    )
