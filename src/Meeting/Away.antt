-- ===== src/Meeting/Away.antt =====
-- A pending leave is only ever of a user who is away.
use a_meet.Prelude.{
  String, eq_iff, ◌≡◌, refl, sym, subst, Bool, true, false, some, List, [], ◌∷◌, arith, All,
  Bool-cases, Option-cases, ◌⊎◌, inl, inr,
}
use a_meet.Prelude.Maps.{get, set, delete, has, All-set, All-delete, All-get}
use a_meet.Prelude.Text.{is_empty}
use a_meet.Types.{AuthUser, everyone}
use a_meet.Presence.{Presence, add_user, remove_user, is_user_in_room}
use a_meet.Presence.Roster.{is_user_in_room-add_user, is_user_in_room-remove_user}
use a_meet.Meeting.{
  Socket, Leave, Meeting, emit, user_left, leave_key, join_room, leave_room, disconnect, grace_over,
  announce_leave,
}

abbrev pub IsAwayIn : Presence → String × Leave → Type 0
IsAwayIn p (key, l) =
    (key ≡ leave_key l.room_id l.user.id) × (is_user_in_room l.room_id l.user.id p ≡ false)

abbrev pub IsAway : Meeting → Type 0
IsAway m = All (IsAwayIn m.presence) m.pending_leaves

delete-absent : (k : String) (m : List (String × Leave)) → has k m ≡ false → delete k m ≡ m
unfolding get delete
delete-absent k [] h = refl
delete-absent k ((j, w) ∷ m) h = ground (arith, delete-absent k m)

-- Nobody comes in who was not in, but perhaps the user with this key.
module _ (key : String) (p q : Presence)
    (grows : (l : Leave)
      → is_user_in_room l.room_id l.user.id q ≡ true
      → (is_user_in_room l.room_id l.user.id p ≡ true)
        ⊎ (key ≡ leave_key l.room_id l.user.id)) where
  delete-IsAwayIn :
      (m : List (String × Leave)) → All (IsAwayIn p) m → All (IsAwayIn q) (delete key m)
  unfolding delete
  delete-IsAwayIn [] h = tt
  delete-IsAwayIn ((k, l) ∷ m) h = ground (arith, eq_iff k key, grows l, delete-IsAwayIn m h.1)

module _ (p q : Presence)
    (shrinks : (l : Leave)
      → is_user_in_room l.room_id l.user.id q ≡ true
      → is_user_in_room l.room_id l.user.id p ≡ true) where
  All-IsAwayIn : (m : List (String × Leave)) → All (IsAwayIn p) m → All (IsAwayIn q) m
  All-IsAwayIn [] h = tt
  All-IsAwayIn ((k, l) ∷ m) h = ground (arith, shrinks l, All-IsAwayIn m h.1)

-- What happens to a meeting: joins, leaves, dropped connections, and timers that fire.
pub data Step : Type 0 where
  joins : Bool → Socket → String → Step
  leaves : Socket → Step
  drops : Socket → Step
  times_out : String → Step

abbrev pub apply : Step → Meeting → Meeting
apply (joins configured socket room_id) m = (join_room configured socket room_id m).0
apply (leaves socket) m = (leave_room socket m).0
apply (drops socket) m = (disconnect socket m).0
apply (times_out key) m = (grace_over key m).0

abbrev pub run : List Step → Meeting → Meeting
run [] m = m
run (step ∷ steps) m = run steps (apply step m)

joined-pending :
    (configured : Bool) (socket : Socket) (room_id : String) (m : Meeting)
    → is_empty room_id ≡ false
    → ((join_room configured socket room_id m).0.presence
        ≡ add_user room_id socket.id socket.user m.presence)
      × ((join_room configured socket room_id m).0.pending_leaves
          ≡ delete (leave_key room_id socket.user.id) m.pending_leaves)
unfolding join_room
joined-pending configured socket room_id m named = (
  ground (arith, named),
  ground (arith, named, delete-absent (leave_key room_id socket.user.id) m.pending_leaves),
)

joined_grows :
    (room_id : String) (socket : Socket) (p : Presence) (l : Leave)
    → is_user_in_room l.room_id l.user.id (add_user room_id socket.id socket.user p) ≡ true
    → (is_user_in_room l.room_id l.user.id p ≡ true)
      ⊎ (leave_key room_id socket.user.id ≡ leave_key l.room_id l.user.id)
joined_grows room_id socket p l h = ground (
  arith,
  eq_iff room_id l.room_id,
  eq_iff socket.user.id l.user.id,
  is_user_in_room-add_user room_id socket.id socket.user p l.room_id l.user.id h,
)

pub join_room-unnamed :
    (configured : Bool) (socket : Socket) (room_id : String) (m : Meeting)
    → is_empty room_id ≡ true
    → (join_room configured socket room_id m).0 ≡ m
unfolding join_room
join_room-unnamed configured socket room_id m e = ground (arith, e)

abbrev leave_of : String → AuthUser → Leave
leave_of room_id user = record { room_id = room_id; user = user }

IsAway-eq :
    (m : Meeting) (p : Presence) (pending : List (String × Leave))
    → m.presence ≡ p
    → m.pending_leaves ≡ pending
    → All (IsAwayIn p) pending
    → IsAway m
IsAway-eq m p pending e f h =
    subst (λ q. All (IsAwayIn q) m.pending_leaves) (sym e) (subst (All (IsAwayIn p)) (sym f) h)

join_room-IsAway :
    (configured : Bool) (socket : Socket) (room_id : String) (m : Meeting)
    → IsAway m
    → IsAway (join_room configured socket room_id m).0
join_room-IsAway configured socket room_id m h = elim (Bool-cases (is_empty room_id)) [
  | inl e ↦ subst IsAway (sym (join_room-unnamed configured socket room_id m e)) h
  | inr e ↦
      let (presence, pending) = joined-pending configured socket room_id m e in
      let key = leave_key room_id socket.user.id in
      let p = add_user room_id socket.id socket.user m.presence in
      IsAway-eq (join_room configured socket room_id m).0 p (delete key m.pending_leaves) presence
        pending
        (delete-IsAwayIn key m.presence p (joined_grows room_id socket m.presence) m.pending_leaves
          h)
]

removed_shrinks :
    (socket : Socket) (p : Presence) (l : Leave)
    → is_user_in_room l.room_id l.user.id (remove_user socket.id p).0 ≡ true
    → is_user_in_room l.room_id l.user.id p ≡ true
removed_shrinks socket p l h = is_user_in_room-remove_user socket.id p l.room_id l.user.id h

leave_room-IsAway : (socket : Socket) (m : Meeting) → IsAway m → IsAway (leave_room socket m).0
unfolding leave_room
leave_room-IsAway socket m h = elim (Option-cases (remove_user socket.id m.presence).1) [
  | inl e ↦
      IsAway-eq (leave_room socket m).0 m.presence m.pending_leaves (ground (arith, e))
        (ground (arith, e)) h
  | inr ((room_id, user), e) ↦
      IsAway-eq (leave_room socket m).0 (remove_user socket.id m.presence).0
        (delete (leave_key room_id user.id) m.pending_leaves) (ground (arith, e))
        (ground (arith, e))
        (All-delete (IsAwayIn (remove_user socket.id m.presence).0) (leave_key room_id user.id)
          m.pending_leaves
          (All-IsAwayIn m.presence (remove_user socket.id m.presence).0
            (removed_shrinks socket m.presence) m.pending_leaves h))
]

disconnect-IsAway : (socket : Socket) (m : Meeting) → IsAway m → IsAway (disconnect socket m).0
unfolding disconnect
disconnect-IsAway socket m h =
    let q = (remove_user socket.id m.presence).0 in
    let kept = All-IsAwayIn m.presence q (removed_shrinks socket m.presence) m.pending_leaves h in
    elim (Option-cases (remove_user socket.id m.presence).1) [
      | inl e ↦
          IsAway-eq (disconnect socket m).0 m.presence m.pending_leaves (ground (arith, e))
            (ground (arith, e)) h
      | inr ((room_id, user), e) ↦ elim (Bool-cases (is_user_in_room room_id user.id q)) [
        | inl still ↦
            IsAway-eq (disconnect socket m).0 q m.pending_leaves (ground (arith, e, still))
              (ground (arith, e, still)) kept
        | inr gone ↦
            IsAway-eq (disconnect socket m).0 q
              (set (leave_key room_id user.id) (leave_of room_id user) m.pending_leaves)
              (ground (arith, e, gone)) (ground (arith, e, gone))
              (All-set (IsAwayIn q) (leave_key room_id user.id) (leave_of room_id user)
                m.pending_leaves (refl, gone) kept)
      ]
    ]

grace_over-IsAway : (key : String) (m : Meeting) → IsAway m → IsAway (grace_over key m).0
unfolding grace_over
grace_over-IsAway key m h = elim (Option-cases (get key m.pending_leaves)) [
  | inl e ↦
      IsAway-eq (grace_over key m).0 m.presence m.pending_leaves (ground (arith, e))
        (ground (arith, e)) h
  | inr (l, e) ↦
      IsAway-eq (grace_over key m).0 m.presence (delete key m.pending_leaves) (ground (arith, e))
        (ground (arith, e)) (All-delete (IsAwayIn m.presence) key m.pending_leaves h)
]

apply-IsAway : (step : Step) (m : Meeting) → IsAway m → IsAway (apply step m)
apply-IsAway (joins configured socket room_id) m h = join_room-IsAway configured socket room_id m h
apply-IsAway (leaves socket) m h = leave_room-IsAway socket m h
apply-IsAway (drops socket) m h = disconnect-IsAway socket m h
apply-IsAway (times_out key) m h = grace_over-IsAway key m h

run-IsAway : (steps : List Step) (m : Meeting) → IsAway m → IsAway (run steps m)
run-IsAway [] m h = h
run-IsAway (step ∷ steps) m h = run-IsAway steps (apply step m) (apply-IsAway step m h)

-- After any joins, leaves, dropped connections and timers, from a server where no leave is pending:
-- a timer that is still set stands under its room's and user's key, and when it fires everyone in
-- the room is told that the user has left, for the user is not there.
pub run-grace_over :
    (steps : List Step) (m : Meeting) (key : String) (l : Leave)
    → m.pending_leaves ≡ []
    → get key (run steps m).pending_leaves ≡ some l
    → (key ≡ leave_key l.room_id l.user.id)
      × (is_user_in_room l.room_id l.user.id (run steps m).presence ≡ false)
      × ((grace_over key (run steps m)).1 ≡ emit (everyone l.room_id) (user_left l.user) ∷ [])
unfolding grace_over announce_leave
run-grace_over steps m key l start set_now =
    let away =
      All-get (IsAwayIn (run steps m).presence) key l (run steps m).pending_leaves
        (run-IsAway steps m (subst (All (IsAwayIn m.presence)) (sym start) tt)) set_now in
    (away.0, away.1, ground (arith, set_now, away.1))
