-- ===== src/Peak/Places.antt =====
-- Where the sessions of the running program are: in `sessions_` or held by their handlers, with
-- their states of net/session/session.hpp.
use endless_peak_server.Shared.{
  ℕ, ◌+◌, ◌≡◌, refl, sym, ◌∙◌, ◌⊎◌, subst, inl, inr, Bool, true, false, ltb, ◌==◌, Bool-cases,
  Option-cases, Option, none, some, arith,
}
use endless_peak_server.Session.{connecting, connected, disconnected, Session}
use endless_peak_server.Server.{Server, find, assign}
use endless_peak_server.Server.Sessions.{find-assign, find-erase, find-erase_ne}
use endless_peak_server.Server.Kept.{is_registered, registered}
use endless_peak_server.Peak.{Peak, holds, registered_or, settle, settled}

-- A session in the map is connected and its socket open.
abbrev pub Listed : ℕ → Option Session → Type 0
Listed j none = Unit
Listed j (some t) = (t.id ≡ j) × (t.state ≡ connected) × (t.closed ≡ false)

-- A session that is not has yet to connect, or is disconnected and its socket closed.
abbrev pub Apart : ℕ → Option Session → Type 0
Apart j none = Unit
Apart j (some t) =
    (t.id ≡ j)
    × (((t.state ≡ connecting) × (t.closed ≡ false))
        ⊎ ((t.state ≡ disconnected) × (t.closed ≡ true)))

abbrev pub number : Bool → ℕ
number true = 1
number false = 0

-- Where a handler leaves its session: in the map and connected, or out of it and not.
abbrev pub Left : Session → Server → Type 0
Left t server =
    ((find t.id server.sessions ≡ some t) × Listed t.id (some t))
    ⊎ ((find t.id server.sessions ≡ none) × Apart t.id (some t))

module _ {D : Type 0} where
  abbrev pub places : ℕ → Peak D → ℕ
  places j s = number (registered j s.server) + number (is_registered (find j s.detached))

  -- Of the identifiers, the first `n` have one session, in one place, and the others none.
  abbrev pub InPlace : ℕ → Peak D → ℕ → Type 0
  InPlace n s j =
      Listed j (find j s.server.sessions)
      × Apart j (find j s.detached)
      × (places j s ≡ number (ltb j n))

  pub record IsPlaced (n : ℕ) (s : Peak D) : Type 0 where
    pub counted : s.server.new_session_id ≡ n
    pub in_place : (j : ℕ) → InPlace n s j

  -- The session that a handler holds is in the map, or is detached and has no entry there.
  pub holds_cases :
      (n i : ℕ) (s : Peak D) (t : Session)
      → IsPlaced n s
      → holds i s ≡ some t
      → (ltb t.id n ≡ true) × Left t s.server
  unfolding holds is_registered
  holds_cases n i s t p e = elim (Option-cases (find i s.server.sessions)) [
    | inl missing ↦
        let detached : find i s.detached ≡ some t = rw (missing, registered_or) at e in
        let apart : Apart i (some t) = subst (Apart i) detached ((p.in_place i).1) in
        let own : places i s ≡ number (ltb i n) = (p.in_place i).2 in
        let one = rw (missing, detached) at own in
        (rw (apart.0) (known (ltb i n) one), inr (rw (apart.0) missing, (refl, apart.1)))
    | inr (u, found) ↦
        let same : some u ≡ some t = rw (found, registered_or) at e in
        let listed : Listed i (some t) = subst (Listed i) (found ∙ same) ((p.in_place i).0) in
        let own : places i s ≡ number (ltb i n) = (p.in_place i).2 in
        let one = rw found at own in
        let known = known_at_least (ltb i n) (number (is_registered (find i s.detached))) one in
        (
          subst (λ k. ltb k n ≡ true) (sym listed.0) known,
          inl (
            subst (λ k. find k s.server.sessions ≡ some t) (sym listed.0) (found ∙ same),
            (refl, listed.1, listed.2),
          ),
        )
  ]
    where
      known : (b : Bool) → 0 + 1 ≡ number b → b ≡ true
      known true e = refl
      known false e = absurd (omega arith)

      known_at_least : (b : Bool) (k : ℕ) → 1 + k ≡ number b → b ≡ true
      known_at_least true k e = refl
      known_at_least false k e = absurd (omega arith)

  moved :
      (n n' i : ℕ) (s s' : Peak D)
      → InPlace n' s' i
      → ((j : ℕ)
          → (i == j) ≡ false
          → (ltb j n' ≡ ltb j n)
            × (find j s'.server.sessions ≡ find j s.server.sessions)
            × (find j s'.detached ≡ find j s.detached))
      → ((j : ℕ) → InPlace n s j)
      → (j : ℕ) → InPlace n' s' j
  moved n n' i s s' own others before j = elim (Bool-cases (i == j)) [
    | inl same ↦ let equal : i ≡ j = ground (arith, same) in subst (InPlace n' s') equal own
    | inr other ↦
        let (count, sessions, detached) = others j other in
        rw (count, sessions, detached) (before j)
  ]

  -- A handler that touches only its own session keeps every session in its one place.
  pub settle-IsPlaced :
      (n n' : ℕ) (s : Peak D) (t : Session) (server : Server)
      → ((j : ℕ) → InPlace n s j)
      → server.new_session_id ≡ n'
      → ltb t.id n' ≡ true
      → ((j : ℕ)
          → (t.id == j) ≡ false
          → (ltb j n' ≡ ltb j n) × (find j server.sessions ≡ find j s.server.sessions))
      → Left t server
      → IsPlaced n' (settle (t, server) s)
  unfolding settle is_registered
  settle-IsPlaced n n' s t server before count below others (inl (found, listed)) = record {
    counted = count;
    in_place =
        moved n n' t.id s (settle (t, server) s)
          (rw (found, settled, find-erase t.id s.detached, below) (listed, tt, refl))
          (λ j other.
            let (more, same) = others j other in
            (more, same, rw (found, settled) (find-erase_ne t.id j s.detached other)))
          before;
  }
  settle-IsPlaced n n' s t server before count below others (inr (missing, apart)) =
      let own : find t.id (assign t.id t s.detached) ≡ some t =
        find-assign t.id t.id t s.detached ∙ ground arith in
      record {
        counted = count;
        in_place =
            moved n n' t.id s (settle (t, server) s)
              (rw (missing, settled, own, below) (tt, apart, refl))
              (λ j other.
                let (more, same) = others j other in
                (more, same, rw (missing, settled, find-assign t.id j t s.detached, other) refl))
              before;
      }
