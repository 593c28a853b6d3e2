-- ===== src/Client/Remote/Departure.antt =====
-- A participant who leaves, in client/src/hooks/useMediasoup.ts: what is kept and rendered of them
-- goes, and what a consumer that was still awaited brings back.
use a_meet.Client.Remote.{
  Map, ConsumerEntry, Remote, drop_pending_producers_for_socket, drop_peer, is_screen, add_consumer,
  fail_consume, without_peer, remove_peer, arrives, fails, leaves, step, run,
}
use a_meet.Prelude.{
  String, ◌==◌, eq_iff, ◌≡◌, ◌≢◌, refl, false, none, some, [], ◌∷◌, All, arith, inl, inr,
  Bool-cases,
}
use a_meet.Prelude.Maps.{get, delete, add, contains, get-set_self, get-delete}
use a_meet.Sfu.{Descriptor, Kind}

abbrev pub IsNotOf : String → String × ConsumerEntry → Type 0
IsNotOf s (id, e) = e.info.socket_id == s ≡ false

abbrev pub IsNotFrom : String → String × Descriptor → Type 0
IsNotFrom s (id, d) = d.socket_id == s ≡ false

-- Nothing is kept, queued or rendered of the peer.
pub record HasGone (s : String) (r : Remote) : Type 0 where
  pub consumed : All (IsNotOf s) r.consumers
  pub queued : All (IsNotFrom s) r.pending
  pub camera : get s r.peer_streams ≡ none
  pub screen : get s r.screen_streams ≡ none
  pub tile : get s r.remote_streams ≡ none
  pub shared : get s r.remote_screens ≡ none
  pub state : get s r.peer_states ≡ none
  pub connection : get s r.connection_states ≡ none

-- Another peer is rendered as before.
pub record IsSame (j : String) (r next : Remote) : Type 0 where
  pub tile : get j next.remote_streams ≡ get j r.remote_streams
  pub shared : get j next.remote_screens ≡ get j r.remote_screens
  pub state : get j next.peer_states ≡ get j r.peer_states
  pub connection : get j next.connection_states ≡ get j r.connection_states

without_peer-All : (s : String) (m : Map ConsumerEntry) → All (IsNotOf s) (without_peer s m)
unfolding without_peer
without_peer-All s [] = tt
without_peer-All s ((k, e) ∷ m) = elim (Bool-cases (e.info.socket_id == s)) [
  | inl eq ↦ rw eq (without_peer-All s m)
  | inr ne ↦ rw ne (ne, without_peer-All s m)
]

dropped-All :
    (s : String) (m : Map Descriptor) → All (IsNotFrom s) (drop_pending_producers_for_socket s m)
unfolding drop_pending_producers_for_socket
dropped-All s [] = tt
dropped-All s ((k, d) ∷ m) = elim (Bool-cases (d.socket_id == s)) [
  | inl eq ↦ rw eq (dropped-All s m)
  | inr ne ↦ rw ne (ne, dropped-All s m)
]

get-delete_self : {V : Type 0} (s : String) (m : Map V) → get s (delete s m) ≡ none
get-delete_self s m = ground (arith, eq_iff s s, get-delete s s m)

get-delete_ne : {V : Type 0} (s j : String) (m : Map V) → s ≢ j → get j (delete s m) ≡ get j m
get-delete_ne s j m ne = ground (arith, eq_iff s j, get-delete s j m)

-- When a peer leaves, nothing of it is kept, queued or rendered any more, and every other peer is
-- rendered as before.
pub remove_peer-HasGone :
    (s : String) (r : Remote)
    → HasGone s (remove_peer s r) × ((j : String) → s ≢ j → IsSame j r (remove_peer s r))
unfolding remove_peer drop_peer
remove_peer-HasGone s r = (
  record {
    consumed = without_peer-All s r.consumers;
    queued = dropped-All s r.pending;
    camera = get-delete_self s r.peer_streams;
    screen = get-delete_self s r.screen_streams;
    tile = get-delete_self s r.remote_streams;
    shared = get-delete_self s r.remote_screens;
    state = get-delete_self s r.peer_states;
    connection = get-delete_self s r.connection_states;
  },
  (λ j ne. record {
    tile = get-delete_ne s j r.remote_streams ne;
    shared = get-delete_ne s j r.remote_screens ne;
    state = get-delete_ne s j r.peer_states ne;
    connection = get-delete_ne s j r.connection_states ne;
  }),
)

-- The peer is rendered with this track alone, whose consumer is open.
pub record IsGhost (s id : String) (r : Remote) : Type 0 where
  pub rendered : get s r.remote_streams ≡ some (id ∷ [])
  pub entry : ConsumerEntry
  pub opened : get id r.consumers ≡ some entry
  pub whose : entry.info.socket_id ≡ s

add_consumer-IsGhost :
    (d : Descriptor) (id : String) (kind : Kind) (r : Remote)
    → is_screen d.source ≡ false
    → get d.socket_id r.peer_streams ≡ none
    → IsGhost d.socket_id id (fail_consume d (add_consumer d id kind r))
unfolding add_consumer fail_consume add contains
add_consumer-IsGhost d id kind r e n =
    rw (e, n)
      (record {
        rendered = get-set_self d.socket_id (id ∷ []) r.remote_streams;
        entry = record {
          producer_id = d.producer_id;
          info = record { socket_id = d.socket_id; kind = kind; is_screen = false };
        };
        opened =
            get-set_self id
              (record {
                producer_id = d.producer_id;
                info = record { socket_id = d.socket_id; kind = kind; is_screen = false };
              })
              r.consumers;
        whose = refl;
      })

-- A peer leaves while its consumer is awaited. The consumer arrives, and the request to resume it
-- fails since the server has closed it: the peer that has left is rendered again, by a consumer that
-- stays open.
pub leaves-IsGhost :
    (d : Descriptor) (id : String) (kind : Kind) (r : Remote)
    → is_screen d.source ≡ false
    → IsGhost d.socket_id id (run (leaves d.socket_id ∷ arrives d id kind ∷ fails d ∷ []) r)
unfolding step
leaves-IsGhost d id kind r e =
    add_consumer-IsGhost d id kind (remove_peer d.socket_id r) e
      (remove_peer-HasGone d.socket_id r).0.camera
