-- ===== src/Sfu/Join/Tests.antt =====
-- Tests of joining and leaving the SFU, and the theorems at concrete inputs.
use a_meet.Prelude.{String, ◌≡◌, ◌≢◌, refl, eq_iff, false, none, some, [], ◌∷◌, arith}
use a_meet.Prelude.Maps.{get, set, delete}
use a_meet.Types.{RoomDoc, found, valid, invalid, everyone, others}
use a_meet.Workers.{get_worker}
use a_meet.Sfu.{
  Room, get_room, get_peer, set_new_room, add_peer, add_peer_to, put_peers, remove_peer,
  close_room_if_empty,
}
use a_meet.Sfu.Sample.{ann, bob, code, doc, room, sfu, empty_sfu}
use a_meet.Sfu.Join.{
  Socket, await_query, await_router, await_observer, accepted, refused, begin_join, after_query,
  enter, get_or_create_room, after_router, after_observer, observe, disconnect, on_volumes,
  on_silence, active_speaker, peer_left,
}
use a_meet.Sfu.Join.Alone.{join_alone}
use a_meet.Sfu.Join.Leave.{HasLeft, disconnect-HasLeft}
use a_meet.Sfu.Join.Races.{join_lost, leave_all, join_after_disconnect}

joining : Unit {0}
unfolding join_alone after_query get_or_create_room get_worker enter after_router after_observer
    observe disconnect get_room get_peer set_new_room add_peer add_peer_to put_peers remove_peer
    close_room_if_empty get set delete on_volumes on_silence begin_join
joining = tt

abbrev a : Socket
a = record { id = "s8"; user = ann }

abbrev b : Socket
b = record { id = "s9"; user = bob }

abbrev ann_socket : Socket
ann_socket = record { id = "s1"; user = ann }

first_join : (join_alone a code (found doc) "r1" empty_sfu).1 ≡ accepted "r1"
unfolding joining
first_join = refl

speakers :
    (on_volumes code room "p2" ≡ (everyone code, active_speaker (some "s2")) ∷ [])
    × (on_volumes code room "p1" ≡ [])
    × (on_silence code ≡ (everyone code, active_speaker none) ∷ [])
    × (begin_join (invalid "Invalid room code") ≡ refused "Invalid room code")
    × (begin_join (valid code) ≡ await_query code)
unfolding joining
speakers = (refl, refl, refl, refl, refl)

-- The last peer's departure closes the router.
last_leaves : (disconnect a (join_alone a code (found doc) "r1" empty_sfu).0).0.closed ≡ "r1" ∷ []
unfolding joining
last_leaves = refl

ended : RoomDoc
ended = record doc { active = false }

ended-inactive : (d : RoomDoc) → found ended ≡ found d → d.active ≡ false
unfolding ended
ended-inactive d e = ground arith

disconnect-HasLeft_example :
    HasLeft ann_socket code sfu (disconnect ann_socket sfu).0
    × ((disconnect ann_socket sfu).1 ≡ (others code, peer_left "s1") ∷ [])
unfolding joining
disconnect-HasLeft_example = disconnect-HasLeft ann_socket code sfu refl

differ : ◌≢◌ {A = String} "s8" "s9"
differ = ground (arith, eq_iff "s8" "s9")

differ_1 : ◌≢◌ {A = String} "s1" "s8"
differ_1 = ground (arith, eq_iff "s1" "s8")

differ_b : ◌≢◌ {A = String} "s9" "s8"
differ_b = ground (arith, eq_iff "s9" "s8")

join_lost_example :
    let t = after_query a code (found doc) empty_sfu in
    let u = after_query b code (found doc) t.0 in
    let v = after_router a code "r1" u.0 in
    let w = after_router b code "r2" v.0 in
    let x = after_observer code "r1" w.0 in
    ((t.1 ≡ await_router code)
      × (u.1 ≡ await_router code)
      × (v.1 ≡ await_observer code "r1")
      × (x.1 ≡ accepted "r1"))
    × (get a.id x.0.socket_room ≡ some code)
    × (get_peer code a.id x.0 ≡ none)
unfolding joining
join_lost_example = join_lost a b code "r1" "r2" doc empty_sfu differ refl refl (omega arith)

join_after_disconnect_example :
    let t = (disconnect a sfu).0 in
    let u = (after_query a code (found doc) t).0 in
    (t ≡ sfu)
    × ((r : Room)
        → get_room code sfu ≡ some r
        → get_peer code a.id (leave_all (ann_socket ∷ b ∷ []) u) ≢ none)
    × (get_room code sfu ≡ none
        → (after_query a code (found doc) t).1 ≡ await_router code
          × (get_peer code a.id (leave_all (ann_socket ∷ b ∷ []) (after_router a code "r9" u).0)
              ≢ none))
unfolding joining
join_after_disconnect_example =
    join_after_disconnect a (ann_socket ∷ b ∷ []) code "r9" doc sfu refl refl (omega arith)
      (differ_1, (differ_b, tt))
