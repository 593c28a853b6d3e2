-- ===== src/Meeting/Indexed.antt =====
-- Presence's reverse index is right after whatever happens to a meeting.
use a_meet.Prelude.{
  String, ◌≡◌, sym, subst, true, false, some, List, [], ◌∷◌, arith, Bool-cases, Option-cases, inl,
  inr,
}
use a_meet.Prelude.Maps.{get, has}
use a_meet.Prelude.Text.{is_empty}
use a_meet.Types.{AuthUser}
use a_meet.Presence.{users_of, remove_user}
use a_meet.Presence.Indexed.{IsIndexed, add_user-IsIndexed, remove_user-IsIndexed, remove_user-none}
use a_meet.Meeting.{Socket, Meeting, leave_room, grace_over}
use a_meet.Meeting.Grace.{disconnect-presence, join_room-presence, remove_user-same}
use a_meet.Meeting.Away.{Step, joins, leaves, drops, times_out, apply, run, join_room-unnamed}

leave_room-presence :
    (socket : Socket) (m : Meeting)
    → (leave_room socket m).0.presence ≡ (remove_user socket.id m.presence).0
unfolding leave_room
leave_room-presence socket m = ground (arith, remove_user-same socket.id m.presence)

grace_over-presence : (key : String) (m : Meeting) → (grace_over key m).0.presence ≡ m.presence
unfolding grace_over
grace_over-presence key m = ground arith

apply-IsIndexed :
    (step : Step) (m : Meeting) → IsIndexed m.presence → IsIndexed (apply step m).presence
apply-IsIndexed (joins configured socket room_id) m h = elim (Bool-cases (is_empty room_id)) [
  | inl e ↦
      subst (λ n. IsIndexed n.presence) (sym (join_room-unnamed configured socket room_id m e)) h
  | inr e ↦
      subst IsIndexed (sym (join_room-presence configured socket room_id m e))
        (add_user-IsIndexed room_id socket.id socket.user m.presence e h)
]
apply-IsIndexed (leaves socket) m h =
    subst IsIndexed (sym (leave_room-presence socket m))
      (remove_user-IsIndexed socket.id m.presence h)
apply-IsIndexed (drops socket) m h =
    subst IsIndexed (sym (disconnect-presence socket m))
      (remove_user-IsIndexed socket.id m.presence h)
apply-IsIndexed (times_out key) m h = subst IsIndexed (sym (grace_over-presence key m)) h

run-IsIndexed_from :
    (steps : List Step) (m : Meeting) → IsIndexed m.presence → IsIndexed (run steps m).presence
run-IsIndexed_from [] m h = h
run-IsIndexed_from (step ∷ steps) m h =
    run-IsIndexed_from steps (apply step m) (apply-IsIndexed step m h)

-- After any joins, leaves, dropped connections and timers, from a server that nobody has joined: a
-- socket that the index puts in a room stands in that room, which has a name, and the removal of
-- the socket answers a room and a user.
pub run-IsIndexed :
    (steps : List Step) (m : Meeting) (socket_id room_id : String)
    → m.presence.socket_room ≡ []
    → get socket_id (run steps m).presence.socket_room ≡ some room_id
    → (is_empty room_id ≡ false)
      × (has socket_id (users_of room_id (run steps m).presence) ≡ true)
      × ((left : String × AuthUser) × ((remove_user socket_id (run steps m).presence).1
            ≡ some left))
unfolding get
run-IsIndexed steps m socket_id room_id start e =
    let h =
      run-IsIndexed_from steps m
        (λ s r k. absurd (ground (arith, subst (λ l. get s l ≡ some r) start k))) in
    (
      (h socket_id room_id e).0,
      (h socket_id room_id e).1,
      elim (Option-cases (remove_user socket_id (run steps m).presence).1) [
        | inl f ↦ absurd (ground (arith, e, remove_user-none socket_id (run steps m).presence h f))
        | inr left ↦ left
      ],
    )
