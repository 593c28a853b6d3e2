-- ===== src/Webrtc/Tests.antt =====
-- The theorems on the relay at concrete inputs.
use a_meet.Prelude.{◌≡◌, refl, false, some, [], ◌∷◌}
use a_meet.Prelude.Maps.{get, contains}
use a_meet.Prelude.Text.{is_empty}
use a_meet.Sfu.Sample.{ann, bob}
use a_meet.Webrtc.{Socket, Ready, ready_of, ready_room}

abbrev a : Socket
a = record { id = "s1"; user = ann }

abbrev b : Socket
b = record { id = "s2"; user = bob }

abbrev nobody : Ready
nobody = record { ready_rooms = []; socket_ready_room = [] }

abbrev both : Ready
both = record {
  ready_rooms = ("r", "s1" ∷ "s2" ∷ []) ∷ [];
  socket_ready_room = ("s1", "r") ∷ ("s2", "r") ∷ [];
}

named : is_empty "r" ≡ false
unfolding is_empty
named = refl

absent_from : contains "s2" (ready_of "r" nobody) ≡ false
unfolding contains get
absent_from = refl

listed : ready_room "s1" both ≡ some "r"
unfolding ready_room get is_empty
listed = refl
