-- ===== src/Sfu/Producers/Muting.antt =====
-- Pausing, resuming and closing a producer of one's own.
use a_meet.Prelude.{
  String, ◌==◌, eq_refl, ◌≡◌, refl, Bool, true, false, ◌&&◌, Option, none, some, [], ◌∷◌, arith,
  ◌∙◌,
}
use a_meet.Prelude.Maps.{get, delete, get-set_self, get-delete}
use a_meet.Types.{others, valid, invalid, Validated}
use a_meet.Sfu.{Sfu, Room, Peer, Producer, get_peer}
use a_meet.Sfu.Join.{Socket}
use a_meet.Sfu.Handles.{locate, error, closed}
use a_meet.Sfu.Handles.Objects.{get_peer-on_peer}
use a_meet.Sfu.Producers.{
  set_paused, set_paused_at, at_producer, pausing, put_producer, close_producer, close_at,
  drop_producer,
}

module _ (socket : Socket) (id r : String) (room : Room) (peer : Peer) (p : Producer) (s : Sfu)
    (located : locate socket s ≡ some (r, room, peer)) (held : get id peer.producers ≡ some p) where
  at_producer-some : at_producer socket id s ≡ some (r, room, peer, p)
  at_producer-some = rw (located, at_producer) (rw (held, at_producer))

  -- A peer's request on a producer of its own, which mediasoup carries out, sets the producer's
  -- `paused`, changes no other peer, and tells the room's other sockets.
  pub set_paused_own :
      (pause : Bool)
      → let t = set_paused pause socket (valid id) none s in
        (after : Peer) × (get_peer r socket.id t.0 ≡ some after)
        × (get id after.producers ≡ some (record p { paused = pause }))
        × ((q j : String)
            → ((r == q) && (socket.id == j)) ≡ false
            → get_peer q j t.0 ≡ get_peer q j s)
        × (t.1 ≡ (others r, pausing pause id socket.id) ∷ [])
  unfolding set_paused set_paused_at
  set_paused_own pause = rw at_producer-some (
    put_producer id (record p { paused = pause }) peer,
    get_peer-on_peer socket r r socket.id room peer _ s located ∙ simp eq_refl,
    get-set_self id _ peer.producers,
    (λ q j other. get_peer-on_peer socket r q j room peer _ s located ∙ simp other),
    refl,
  )

  -- A closed producer is no longer its peer's; no other peer changes.
  pub close_producer_own :
      let t = close_producer socket (valid id) s in
      (after : Peer) × (get_peer r socket.id t.0 ≡ some after)
      × (get id after.producers ≡ none)
      × ((q j : String)
          → ((r == q) && (socket.id == j)) ≡ false
          → get_peer q j t.0 ≡ get_peer q j s)
      × (t.1 ≡ closed)
  unfolding close_producer close_at drop_producer
  close_producer_own = rw at_producer-some (
    record peer { producers = delete id peer.producers },
    get_peer-on_peer socket r r socket.id room peer _ s located ∙ simp eq_refl,
    get-delete id id peer.producers ∙ simp eq_refl,
    (λ q j other. get_peer-on_peer socket r q j room peer _ s located ∙ simp other),
    refl,
  )

set_paused_at-error :
    (pause : Bool) (socket : Socket) (id : String) (failure : Option String)
    (at : Option (String × Room × Peer × Producer)) (s : Sfu) (message : String)
    → (set_paused_at pause socket id failure at s).2 ≡ error message
    → ((set_paused_at pause socket id failure at s).0 ≡ s)
      × ((set_paused_at pause socket id failure at s).1 ≡ [])
unfolding set_paused_at
set_paused_at-error pause socket id failure none s message e = (refl, refl)
set_paused_at-error pause socket id (some m) (some at) s message e = (refl, refl)
set_paused_at-error true socket id none (some (r, room, peer, p)) s message e =
    absurd (ground arith)
set_paused_at-error false socket id none (some (r, room, peer, p)) s message e =
    absurd (ground arith)

-- A request to pause or resume that is answered with an error has changed nothing and told nobody.
pub set_paused-error :
    (pause : Bool) (socket : Socket) (payload : Validated String) (failure : Option String)
    (s : Sfu) (message : String)
    → (set_paused pause socket payload failure s).2 ≡ error message
    → ((set_paused pause socket payload failure s).0 ≡ s)
      × ((set_paused pause socket payload failure s).1 ≡ [])
unfolding set_paused
set_paused-error pause socket (invalid m) failure s message e = (refl, refl)
set_paused-error pause socket (valid id) failure s message e =
    set_paused_at-error pause socket id failure (at_producer socket id s) s message e
