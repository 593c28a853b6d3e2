-- ===== src/Meeting/Grace.antt =====
-- What the others are told of joins, leaves and dropped connections.
use a_meet.Prelude.{
  String, eq_refl, ◌≡◌, ◌≢◌, refl, sym, ap, subst, ◌∙◌, Bool, true, false, ◌||◌, not, none, some,
  List, [], ◌∷◌, arith, In, Option-cases, inl, inr,
}
use a_meet.Prelude.Maps.{get, set, delete, has, get-delete, get-set_self}
use a_meet.Prelude.Text.{is_empty}
use a_meet.Types.{AuthUser, others, everyone}
use a_meet.Presence.{Presence, users_of, add_user, remove_user, get_room_users, is_user_in_room}
use a_meet.Presence.Roster.{get_room_users-added, is_user_in_room-added}
use a_meet.Presence.Indexed.{
  both, both-removed, socket_room-remove_user, remove_user-second_room, remove_user-eq_none,
}
use a_meet.Meeting.{
  Socket, Leave, Meeting, Output, emit, stop_contributor, room_users, user_joined, user_left,
  leave_key, row_of, announce_join, join_room, announce_leave, leave_room, disconnect, grace_over,
}

-- The others still count the user as in the room.
abbrev pub is_counted : String → String → Meeting → Bool
is_counted room_id user_id m =
    is_user_in_room room_id user_id m.presence || has (leave_key room_id user_id) m.pending_leaves

abbrev pub is_join : Output → Bool
is_join (emit audience (user_joined row)) = true
is_join o = false

abbrev pub is_leave : Output → Bool
is_leave (emit audience (user_left user)) = true
is_leave o = false

abbrev pub any : (Output → Bool) → List Output → Bool
any p [] = false
any p (o ∷ outs) = p o || any p outs

-- A join of a room with a name is announced just if the others did not count the user as in the
-- room; afterwards they do, and no leave of the user is pending.
pub join_room-announces :
    (configured : Bool) (socket : Socket) (room_id : String) (m : Meeting)
    → is_empty room_id ≡ false
    → (any is_join (join_room configured socket room_id m).1
        ≡ not (is_counted room_id socket.user.id m))
      × (is_counted room_id socket.user.id (join_room configured socket room_id m).0 ≡ true)
      × (has
            (leave_key room_id socket.user.id)
            (join_room configured socket room_id m).0.pending_leaves
          ≡ false)
unfolding join_room announce_join
join_room-announces configured socket room_id m named = (
  ground (arith, named),
  ground (arith, named, is_user_in_room-added room_id socket.id socket.user m.presence),
  ground (
    arith,
    named,
    get-delete (leave_key room_id socket.user.id) (leave_key room_id socket.user.id)
        m.pending_leaves,
    eq_refl (leave_key room_id socket.user.id),
  ),
)

pub remove_user-same :
    (socket_id : String) (p : Presence)
    → (remove_user socket_id p).1 ≡ none
    → (remove_user socket_id p).0 ≡ p
unfolding remove_user
remove_user-same socket_id p h = elim (Option-cases (get socket_id p.socket_room)) [
  | inl e ↦ ground (arith, e)
  | inr (r, e) ↦ elim (Option-cases (get socket_id (users_of r p))) [
    | inl f ↦ ground (arith, e, f)
    | inr (w, f) ↦ ground (arith, e, f)
  ]
]

pub disconnect-presence :
    (socket : Socket) (m : Meeting)
    → (disconnect socket m).0.presence ≡ (remove_user socket.id m.presence).0
unfolding disconnect
disconnect-presence socket m = ground (arith, remove_user-same socket.id m.presence)

pub join_room-presence :
    (configured : Bool) (socket : Socket) (room_id : String) (m : Meeting)
    → is_empty room_id ≡ false
    → (join_room configured socket room_id m).0.presence
      ≡ add_user room_id socket.id socket.user m.presence
unfolding join_room
join_room-presence configured socket room_id m named = ground (arith, named)

-- The socket's removal, with the last of the user's sockets in the room.
abbrev pub IsLast : Socket → String → AuthUser → Meeting → Type 0
IsLast socket room_id user m =
    ((remove_user socket.id m.presence).1 ≡ some (room_id, user))
    × (is_user_in_room room_id user.id (remove_user socket.id m.presence).0 ≡ false)

disconnect-last :
    (socket : Socket) (room_id : String) (user : AuthUser) (m : Meeting)
    → IsLast socket room_id user m
    → disconnect socket m ≡ (
      record m {
        presence = (remove_user socket.id m.presence).0;
        pending_leaves =
            set
              (leave_key room_id user.id)
              (record { room_id = room_id; user = user })
              m.pending_leaves;
      },
      stop_contributor ∷ [],
    )
unfolding disconnect
disconnect-last socket room_id user m (removed, gone) = ground (arith, removed, gone)

-- What a join tells while the user's leave is pending.
abbrev pub IsQuietJoin : Bool → Socket → String → Meeting → Type 0
IsQuietJoin configured socket room_id m =
    let j = join_room configured socket room_id m in
    let roster = get_room_users room_id j.0.presence in
    (any is_join j.1 ≡ false)
    × (any is_leave j.1 ≡ false)
    × In (emit (others room_id) (room_users roster)) j.1
    × (get socket.user.id roster ≡ some (row_of socket))
    × (grace_over (leave_key room_id socket.user.id) j.0 ≡ (j.0, []))

grace_over-unset :
    (key : String) (m : Meeting) → get key m.pending_leaves ≡ none → grace_over key m ≡ (m, [])
unfolding grace_over
grace_over-unset key m h = ground (arith, h)

join_room-IsQuietJoin :
    (configured : Bool) (socket : Socket) (room_id : String) (m : Meeting)
    → is_empty room_id ≡ false
    → is_user_in_room room_id socket.user.id m.presence ≡ false
    → has (leave_key room_id socket.user.id) m.pending_leaves ≡ true
    → IsQuietJoin configured socket room_id m
unfolding join_room announce_join
join_room-IsQuietJoin configured socket room_id m named away pending = (
  ground (arith, named, pending),
  ground (arith, named, pending),
  ground (arith, named, away, pending),
  ground (arith, named, get_room_users-added room_id socket.id socket.user m.presence away),
  grace_over-unset (leave_key room_id socket.user.id) (join_room configured socket room_id m).0 (
      ground (
        arith,
        named,
        pending,
        eq_refl (leave_key room_id socket.user.id),
        get-delete (leave_key room_id socket.user.id) (leave_key room_id socket.user.id)
            m.pending_leaves,
      )),
)

-- The user's last connection to a room drops and, before its grace is over, the user joins the room
-- again: nobody is told of a leave or a join, the others get a roster in which the user's row
-- carries the new socket, and the timer of the grace does nothing any more.
pub join_room-reconnected :
    (configured : Bool) (old fresh : Socket) (room_id : String) (m : Meeting)
    → is_empty room_id ≡ false
    → IsLast old room_id fresh.user m
    → (any is_leave (disconnect old m).1 ≡ false)
      × IsQuietJoin configured fresh room_id (disconnect old m).0
join_room-reconnected configured old fresh room_id m named last =
    let d = disconnect-last old room_id fresh.user m last in
    (
      ap (λ x. any is_leave x.1) d,
      subst (λ x. IsQuietJoin configured fresh room_id x.0) (sym d)
          (join_room-IsQuietJoin configured fresh room_id _ named last.1 (
            ground (
              arith,
              get-set_self (leave_key room_id fresh.user.id)
                  (record { room_id = room_id; user = fresh.user }) m.pending_leaves,
            ))),
    )

-- The user's last connection to a room drops and nothing else happens before its grace is over: all
-- in the room are told that the user has left, once, and only then.
pub grace_over-dropped :
    (socket : Socket) (room_id : String) (user : AuthUser) (m : Meeting)
    → IsLast socket room_id user m
    → ((disconnect socket m).1 ≡ stop_contributor ∷ [])
      × ((grace_over (leave_key room_id user.id) (disconnect socket m).0).1
          ≡ emit (everyone room_id) (user_left user) ∷ [])
      × (is_counted room_id user.id
            (grace_over (leave_key room_id user.id) (disconnect socket m).0).0
          ≡ false)
unfolding grace_over announce_leave
grace_over-dropped socket room_id user m last =
    let key = leave_key room_id user.id in
    let l : Leave = record { room_id = room_id; user = user } in
    rw (disconnect-last socket room_id user m last) (
      refl,
      ground (arith, last.1, get-set_self key l m.pending_leaves),
      ground (
        arith,
        last.1,
        get-set_self key l m.pending_leaves,
        get-delete key key (set key l m.pending_leaves),
        eq_refl key,
      ),
    )

disconnect-absent :
    (socket : Socket) (m : Meeting)
    → get socket.id m.presence.socket_room ≡ none
    → disconnect socket m ≡ (m, stop_contributor ∷ [])
unfolding disconnect
disconnect-absent socket m h = ground (arith, remove_user-eq_none socket.id m.presence h)

leave_room-absent :
    (socket : Socket) (m : Meeting)
    → get socket.id m.presence.socket_room ≡ none
    → leave_room socket m ≡ (m, [])
unfolding leave_room
leave_room-absent socket m h = ground (arith, remove_user-eq_none socket.id m.presence h)

removed-absent :
    (socket_id room_id : String) (user : AuthUser) (p : Presence)
    → (remove_user socket_id p).1 ≡ some (room_id, user)
    → get socket_id (remove_user socket_id p).0.socket_room ≡ none
removed-absent socket_id room_id user p h =
    ground (arith, h, socket_room-remove_user socket_id socket_id p, eq_refl socket_id)

leave_room-left :
    (socket : Socket) (room_id : String) (user : AuthUser) (m : Meeting)
    → (remove_user socket.id m.presence).1 ≡ some (room_id, user)
    → ((leave_room socket m).0.presence ≡ (remove_user socket.id m.presence).0)
      × ((leave_room socket m).0.pending_leaves
          ≡ delete (leave_key room_id user.id) m.pending_leaves)
      × (any is_leave (leave_room socket m).1
          ≡ not (is_user_in_room room_id user.id (remove_user socket.id m.presence).0))
unfolding leave_room announce_leave
leave_room-left socket room_id user m h = (ground (arith, h), ground (arith, h), ground (arith, h))

-- A socket that is in a room leaves it: the others are told that its user has left just if no other
-- socket of the user is in the room, no leave of the user is pending, and the disconnection that
-- follows only stops the transcription.
pub leave_room-announces :
    (socket : Socket) (room_id : String) (user : AuthUser) (m : Meeting)
    → (remove_user socket.id m.presence).1 ≡ some (room_id, user)
    → (any is_leave (leave_room socket m).1
        ≡ not (is_user_in_room room_id user.id (leave_room socket m).0.presence))
      × (has (leave_key room_id user.id) (leave_room socket m).0.pending_leaves ≡ false)
      × (disconnect socket (leave_room socket m).0
          ≡ ((leave_room socket m).0, stop_contributor ∷ []))
leave_room-announces socket room_id user m removed =
    let (presence, pending, told) = leave_room-left socket room_id user m removed in
    let key = leave_key room_id user.id in
    (
      ground (arith, presence, told),
      ground (arith, pending, get-delete key key m.pending_leaves, eq_refl key),
      disconnect-absent socket (leave_room socket m).0
          (ground (arith, presence, removed-absent socket.id room_id user m.presence removed)),
    )

-- A socket that joins a second room stays in the first for good: after its disconnection the first
-- room still has the user, and disconnecting or leaving again changes nothing.
pub join_room-second_room :
    (configured : Bool) (socket : Socket) (first second : String) (m : Meeting)
    → is_empty first ≡ false
    → is_empty second ≡ false
    → first ≢ second
    → let j = join_room configured socket second (join_room configured socket first m).0 in
      let d = (disconnect socket j.0).0 in
      (is_user_in_room first socket.user.id d.presence ≡ true)
      × (disconnect socket d ≡ (d, stop_contributor ∷ []))
      × (leave_room socket d ≡ (d, []))
join_room-second_room configured socket first second m a b other =
    let j = (join_room configured socket first m).0 in
    let k = (join_room configured socket second j).0 in
    let ghost = remove_user-second_room first second socket.id socket.user m.presence other b in
    let p = both first second socket.id socket.user m.presence in
    let e : k.presence ≡ p =
      join_room-presence configured socket second j b
      ∙ ap (add_user second socket.id socket.user)
          (join_room-presence configured socket first m a) in
    let f : (disconnect socket k).0.presence ≡ (remove_user socket.id p).0 =
      disconnect-presence socket k ∙ ap (λ q. (remove_user socket.id q).0) e in
    let gone : get socket.id (disconnect socket k).0.presence.socket_room ≡ none =
      ap (λ q. get socket.id q.socket_room) f
      ∙ removed-absent socket.id second socket.user p
          (both-removed first second socket.id socket.user m.presence b) in
    (
      ap (is_user_in_room first socket.user.id) f ∙ ghost.0,
      disconnect-absent socket (disconnect socket k).0 gone,
      leave_room-absent socket (disconnect socket k).0 gone,
    )
