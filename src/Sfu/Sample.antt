-- ===== src/Sfu/Sample.antt =====
-- Test data for the SFU: a room with two peers, whose administrator is the first.
use a_meet.Prelude.{String, false, true, none, some, [], ◌∷◌}
use a_meet.Types.{AuthUser, RoomDoc}
use a_meet.Sfu.{Sfu, Room, Peer, Producer, audio, send, recv}

abbrev pub ann : AuthUser
ann = record { id = "u1"; name = "Ann"; email = "ann@a.org"; avatar = "" }

abbrev pub bob : AuthUser
bob = record { id = "u2"; name = "Bob"; email = "bob@a.org"; avatar = "" }

abbrev pub code : String
code = "abc-defg-hij"

abbrev pub doc : RoomDoc
doc = record { room_id = code; host = some "u1"; admin = none; active = true }

abbrev pub screen_audio : Producer
screen_audio = record { id = "p1"; kind = audio; paused = false; source = some "screen" }

abbrev pub mic : Producer
mic = record { id = "p2"; kind = audio; paused = false; source = some "mic" }

abbrev pub ann_peer : Peer
ann_peer = record {
  ref = 0;
  socket_id = "s1";
  user = ann;
  hand_raised = false;
  transports = ("t1", send) ∷ ("t2", recv) ∷ [];
  producers = [];
  consumers = [];
}

abbrev pub bob_peer : Peer
bob_peer = record {
  ref = 1;
  socket_id = "s2";
  user = bob;
  hand_raised = false;
  transports = ("t3", send) ∷ [];
  producers = ("p1", screen_audio) ∷ ("p2", mic) ∷ [];
  consumers = [];
}

abbrev pub room : Room
room = record {
  router = "r1";
  peers = ("s1", ann_peer) ∷ ("s2", bob_peer) ∷ [];
  has_observer = true;
  audio_sockets = ("p2", "s2") ∷ [];
}

abbrev pub sfu : Sfu
sfu = record {
  rooms = (code, room) ∷ [];
  socket_room = ("s1", code) ∷ ("s2", code) ∷ [];
  next_ref = 2;
  workers = record { workers = 101 ∷ 102 ∷ []; next_worker_idx = 0; a_worker_died = false };
  opened = "r1" ∷ [];
  closed = [];
}

abbrev pub empty_sfu : Sfu
empty_sfu = record sfu { rooms = []; socket_room = []; next_ref = 0; opened = [] }
