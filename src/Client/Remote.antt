-- ===== src/Client/Remote.antt =====
-- client/src/hooks/useMediasoup.ts: the producers of the others, as one participant consumes them,
-- with the queue of client/src/utils/pending-producers.ts. `consumeProducer` is cut at its waits.
-- A consumer's track is known by the consumer's id, and a media stream is the list of its tracks;
-- what is published is the state that the page renders.
pub mod Streams
pub mod Screens
pub mod Shown
pub mod Departure
pub mod Hidden
mod Tests
use a_meet.Prelude.{
  String, ◌==◌, Bool, true, false, Option, none, some, List, [], ◌∷◌, ◌||◌, map, not, or_else,
  is_some, if◌then◌else◌,
}
use a_meet.Prelude.Maps.{get, set, delete, values, add, remove}
use a_meet.Sfu.{Descriptor, Kind, audio, video}

abbrev pub Map : Type 0 → Type 0
Map V = List (String × V)

pub record ProducerInfo : Type 0 where
  pub socket_id : String
  pub kind : Kind
  pub is_screen : Bool

pub record ConsumerEntry : Type 0 where
  pub producer_id : String
  pub info : ProducerInfo

pub record PeerState : Type 0 where
  pub video_on : Bool
  pub audio_on : Bool
  pub name : Option String
  pub avatar : Option String
  pub hand_raised : Bool

-- `RTCPeerConnectionState`
pub data Connection : Type 0 where
  fresh : Connection
  connecting : Connection
  connected : Connection
  disconnected : Connection
  failed : Connection
  closed : Connection

pub record Remote : Type 0 where
  pub cancelled : Bool
  -- the id of the receiving transport, and its state; a device is loaded
  pub recv_transport : Option (String × Connection)
  pub has_device : Bool
  pub consumers : Map ConsumerEntry
  pub peer_streams : Map (List String)
  pub screen_streams : Map (List String)
  pub producer_info : Map ProducerInfo
  pub pending : Map Descriptor
  -- published
  pub remote_streams : Map (List String)
  pub remote_screens : Map (List String)
  pub peer_states : Map PeerState
  pub connection_states : Map (Option Connection)

abbrev pub new_remote : Remote
new_remote = record {
  cancelled = false;
  recv_transport = none;
  has_device = false;
  consumers = [];
  peer_streams = [];
  screen_streams = [];
  producer_info = [];
  pending = [];
  remote_streams = [];
  remote_screens = [];
  peer_states = [];
  connection_states = [];
}

-- `queuePendingProducer`, for a producer with an id
unfoldable pub queue_pending_producer : Descriptor → Map Descriptor → Map Descriptor
queue_pending_producer d queue = set d.producer_id d queue

-- `drainPendingProducers`: what was queued, and the empty queue
unfoldable pub drain_pending_producers : Map Descriptor → List Descriptor × Map Descriptor
drain_pending_producers queue = (values queue, [])

unfoldable pub drop_pending_producers_for_socket : String → Map Descriptor → Map Descriptor
drop_pending_producers_for_socket socket_id [] = []
drop_pending_producers_for_socket socket_id ((id, d) ∷ queue) =
    let rest = drop_pending_producers_for_socket socket_id queue in
    if d.socket_id == socket_id then rest else (id, d) ∷ rest

-- `dropPeer`: nothing of the peer is rendered any more.
unfoldable pub drop_peer : String → Remote → Remote
drop_peer socket_id r = record r {
  remote_streams = delete socket_id r.remote_streams;
  remote_screens = delete socket_id r.remote_screens;
  peer_states = delete socket_id r.peer_states;
  connection_states = delete socket_id r.connection_states;
}

abbrev pub is_screen : Option String → Bool
is_screen none = false
is_screen (some source) = source == "screen"

abbrev pub info_of : Descriptor → ProducerInfo
info_of d = record { socket_id = d.socket_id; kind = d.kind; is_screen = is_screen d.source }

pub data Consume : Type 0 where
  -- nothing is asked for
  skipped : Consume
  -- `sfu-consume`, on this transport for this producer
  asks : String → String → Consume

unfoldable pub begin_consume_on :
    Option (String × Connection) → Descriptor → Remote → Remote × Consume
unfolding queue_pending_producer
begin_consume_on none d r = (record r { pending = queue_pending_producer d r.pending }, skipped)
begin_consume_on (some (id, state)) d r =
    if not r.has_device
    then (record r { pending = queue_pending_producer d r.pending }, skipped)
    else if is_some (get d.producer_id r.producer_info)
    then (r, skipped)
    else (
      record r { producer_info = set d.producer_id (info_of d) r.producer_info },
      asks id d.producer_id,
    )

-- `consumeProducer`, up to its request
unfoldable pub begin_consume : Descriptor → Remote → Remote × Consume
unfolding begin_consume_on
begin_consume d r = begin_consume_on r.recv_transport d r

abbrev pub tracks_of : String → Map (List String) → List String
tracks_of socket_id streams = or_else (get socket_id streams) []

-- The consumer is there: its track joins the stream of its peer, which is published.
unfoldable pub add_consumer : Descriptor → String → Kind → Remote → Remote
add_consumer d id kind r =
    let info : ProducerInfo = record {
      socket_id = d.socket_id;
      kind = kind;
      is_screen = is_screen d.source;
    } in
    let stored = record r {
      consumers = set id (record { producer_id = d.producer_id; info = info }) r.consumers;
    } in
    let screen = add id (tracks_of d.socket_id r.screen_streams) in
    let camera = add id (tracks_of d.socket_id r.peer_streams) in
    if is_screen d.source
    then record stored {
      screen_streams = set d.socket_id screen r.screen_streams;
      remote_screens = set d.socket_id screen r.remote_screens;
    }
    else record stored {
      peer_streams = set d.socket_id camera r.peer_streams;
      remote_streams = set d.socket_id camera r.remote_streams;
    }

abbrev pub unknown_peer : PeerState
unknown_peer = record {
  video_on = false;
  audio_on = false;
  name = none;
  avatar = none;
  hand_raised = false;
}

unfoldable pub set_kind : Kind → Bool → PeerState → PeerState
set_kind video on p = record p { video_on = on }
set_kind audio on p = record p { audio_on = on }

abbrev pub named : Descriptor → PeerState → PeerState
named d p = record p { name = some d.user.name; avatar = some d.user.avatar }

abbrev pub has_name : Option PeerState → Bool
has_name none = false
has_name (some p) = is_some p.name

-- `sfu-resume-consumer` was answered: what the peer sends is known.
unfoldable pub finish_consume : Descriptor → Kind → Bool → Remote → Remote
unfolding set_kind
finish_consume d kind producer_paused r =
    let cur = or_else (get d.socket_id r.peer_states) unknown_peer in
    let on = not (d.paused || producer_paused) in
    let stated =
      if is_screen d.source
      then if has_name (get d.socket_id r.peer_states)
        then r.peer_states
        else set d.socket_id (named d cur) r.peer_states
      else set d.socket_id (set_kind kind on (named d cur)) r.peer_states in
    record r {
      peer_states = stated;
      connection_states =
          set d.socket_id (elim r.recv_transport [ none ↦ none | some t ↦ some t.1 ])
            r.connection_states;
    }

-- One of the waits of `consumeProducer` failed.
unfoldable pub fail_consume : Descriptor → Remote → Remote
fail_consume d r = record r { producer_info = delete d.producer_id r.producer_info }

-- The screen's stream is left with these tracks.
unfoldable pub leave_screen : String → List String → Remote → Remote
leave_screen socket_id [] r = record r {
  screen_streams = delete socket_id r.screen_streams;
  remote_screens = delete socket_id r.remote_screens;
}
leave_screen socket_id ts r = record r {
  screen_streams = set socket_id ts r.screen_streams;
  remote_screens = set socket_id ts r.remote_screens;
}

unfoldable pub close_screen : String → String → Remote → Remote
unfolding leave_screen
close_screen id socket_id r = elim (get socket_id r.screen_streams) [
  | none ↦ r
  | some ts ↦ leave_screen socket_id (remove id ts) r
]

-- A state that is there changes.
unfoldable pub change_state : String → (PeerState → PeerState) → Map PeerState → Map PeerState
change_state socket_id f states = elim (get socket_id states) [
  | none ↦ states
  | some p ↦ set socket_id (f p) states
]

-- The camera's and the microphone's stream is left with these tracks.
unfoldable pub leave_camera : String → Kind → List String → Remote → Remote
unfolding drop_peer change_state set_kind
leave_camera socket_id kind [] r =
    drop_peer socket_id (record r { peer_streams = delete socket_id r.peer_streams })
leave_camera socket_id kind ts r = record r {
  peer_streams = set socket_id ts r.peer_streams;
  remote_streams = set socket_id ts r.remote_streams;
  peer_states = change_state socket_id (set_kind kind false) r.peer_states;
}

unfoldable pub close_camera : String → String → Kind → Remote → Remote
unfolding leave_camera
close_camera id socket_id kind r = elim (get socket_id r.peer_streams) [
  | none ↦ r
  | some ts ↦ leave_camera socket_id kind (remove id ts) r
]

unfoldable pub close_entry : String → Option ConsumerEntry → Remote → Remote
unfolding close_screen close_camera
close_entry id none r = r
close_entry id (some e) r =
    let closed = record r {
      consumers = delete id r.consumers;
      producer_info = delete e.producer_id r.producer_info;
    } in
    if e.info.is_screen
    then close_screen id e.info.socket_id closed
    else close_camera id e.info.socket_id e.info.kind closed

-- `closeConsumerById`
unfoldable pub close_consumer_by_id : String → Remote → Remote
unfolding close_entry
close_consumer_by_id id r = close_entry id (get id r.consumers) r

-- The entries of a peer, and the infos of their producers, are gone.
unfoldable pub without_peer : String → Map ConsumerEntry → Map ConsumerEntry
without_peer socket_id [] = []
without_peer socket_id ((id, e) ∷ m) =
    let rest = without_peer socket_id m in
    if e.info.socket_id == socket_id then rest else (id, e) ∷ rest

unfoldable pub forget_producers : String → Map ConsumerEntry → Map ProducerInfo → Map ProducerInfo
forget_producers socket_id [] infos = infos
forget_producers socket_id ((id, e) ∷ m) infos =
    let gone = delete e.producer_id infos in
    forget_producers socket_id m (if e.info.socket_id == socket_id then gone else infos)

-- `removePeer`
unfoldable pub remove_peer : String → Remote → Remote
unfolding drop_pending_producers_for_socket drop_peer without_peer forget_producers
remove_peer socket_id r = drop_peer socket_id (record r {
  consumers = without_peer socket_id r.consumers;
  producer_info = forget_producers socket_id r.consumers r.producer_info;
  pending = drop_pending_producers_for_socket socket_id r.pending;
  peer_streams = delete socket_id r.peer_streams;
  screen_streams = delete socket_id r.screen_streams;
})

-- `setPeerKind`, for a producer that was paused or resumed
unfoldable pub set_peer_kind : String → Bool → Remote → Remote
unfolding change_state set_kind
set_peer_kind producer_id on r = elim (get producer_id r.producer_info) [
  | none ↦ r
  | some info ↦ if info.is_screen then r else record r {
    peer_states = change_state info.socket_id (set_kind info.kind on) r.peer_states;
  }
]

-- `onHandRaiseUpdate`
unfoldable pub on_hand_raise_update : String → Bool → Remote → Remote
unfolding change_state
on_hand_raise_update socket_id raised r = record r {
  peer_states = change_state socket_id (λ p. record p { hand_raised = raised }) r.peer_states;
}

-- The receiving transport reports its state, which is every peer's.
unfoldable pub on_connection_state : Connection → Remote → Remote
on_connection_state state r = record r {
  recv_transport = elim r.recv_transport [ none ↦ none | some t ↦ some (t.0, state) ];
  connection_states = map (λ e. (e.0, some state)) r.connection_states;
}

-- `clearRemoteState`
unfoldable pub clear_remote_state : Remote → Remote
clear_remote_state r = record new_remote {
  cancelled = r.cancelled;
  recv_transport = r.recv_transport;
  has_device = r.has_device;
}

pub data Event : Type 0 where
  -- a producer is announced or listed, or taken from the queue
  consumes : Descriptor → Event
  -- its consumer is there, with its id and kind
  arrives : Descriptor → String → Kind → Event
  -- it was resumed; whether the producer is paused
  resumes : Descriptor → Kind → Bool → Event
  fails : Descriptor → Event
  closes : String → Event
  leaves : String → Event
  switches : String → Bool → Event
  raises : String → Bool → Event
  clears : Event
  changes : Connection → Event

unfoldable pub step : Event → Remote → Remote
unfolding begin_consume add_consumer finish_consume fail_consume close_consumer_by_id remove_peer
    set_peer_kind on_hand_raise_update clear_remote_state on_connection_state
step (consumes d) r = (begin_consume d r).0
step (arrives d id kind) r = add_consumer d id kind r
step (resumes d kind paused) r = finish_consume d kind paused r
step (fails d) r = fail_consume d r
step (closes id) r = close_consumer_by_id id r
step (leaves socket_id) r = remove_peer socket_id r
step (switches producer_id on) r = set_peer_kind producer_id on r
step (raises socket_id raised) r = on_hand_raise_update socket_id raised r
step clears r = clear_remote_state r
step (changes state) r = on_connection_state state r

abbrev pub run : List Event → Remote → Remote
run [] r = r
run (e ∷ es) r = run es (step e r)
