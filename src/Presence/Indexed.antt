-- ===== src/Presence/Indexed.antt =====
-- The reverse index against the rooms.
use a_meet.Prelude.{
  String, ◌==◌, eq_iff, ◌≡◌, ◌≢◌, refl, true, false, none, some, List, [], ◌∷◌, arith,
  if◌then◌else◌, Option-cases, inl, inr, eq_refl,
}
use a_meet.Prelude.Maps.{get, delete, has, get-set, get-set_self, get-delete}
use a_meet.Prelude.Text.{is_empty}
use a_meet.Types.{AuthUser}
use a_meet.Presence.{Presence, users_of, add_user, put_users, remove_user, is_user_in_room}
use a_meet.Presence.Roster.{users_of-add_user, users_of-remove_user, has_user-set_self}

-- Each socket of the index stands in the room that the index names, under a name that is not empty.
abbrev pub IsIndexed : Presence → Type 0
IsIndexed p =
    (socket_id room_id : String)
    → get socket_id p.socket_room ≡ some room_id
    → (is_empty room_id ≡ false) × (has socket_id (users_of room_id p) ≡ true)

socket_room-add_user :
    (room_id socket_id : String) (user : AuthUser) (p : Presence) (s : String)
    → get s (add_user room_id socket_id user p).socket_room
      ≡ (if socket_id == s then some room_id else get s p.socket_room)
unfolding add_user
socket_room-add_user room_id socket_id user p s = get-set socket_id s room_id p.socket_room

get-put_users :
    (room_id s : String) (users : List (String × AuthUser)) (p : Presence)
    → get s (put_users room_id users p).socket_room ≡ get s p.socket_room
get-put_users room_id s [] p = refl
get-put_users room_id s (e ∷ users) p = refl

pub socket_room-remove_user :
    (socket_id s : String) (p : Presence)
    → get s (remove_user socket_id p).0.socket_room ≡ elim (remove_user socket_id p).1 [
      | none ↦ get s p.socket_room
      | some left ↦ if socket_id == s then none else get s p.socket_room
    ]
unfolding remove_user
socket_room-remove_user socket_id s p = elim (Option-cases (get socket_id p.socket_room)) [
  | inl e ↦ ground (arith, e)
  | inr (room_id, e) ↦ rw e (elim (Option-cases (get socket_id (users_of room_id p))) [
    | inl f ↦ ground (arith, f)
    | inr (user, f) ↦ ground (
      arith,
      f,
      eq_iff socket_id s,
      get-delete socket_id s
          (put_users room_id (delete socket_id (users_of room_id p)) p).socket_room,
      get-put_users room_id s (delete socket_id (users_of room_id p)) p,
    )
  ])
]

-- What a removal answers is the socket's room by the index, and its user there.
pub remove_user-some :
    (socket_id room_id : String) (user : AuthUser) (p : Presence)
    → (remove_user socket_id p).1 ≡ some (room_id, user)
    → (get socket_id p.socket_room ≡ some room_id)
      × (get socket_id (users_of room_id p) ≡ some user)
unfolding remove_user
remove_user-some socket_id room_id user p h = elim (Option-cases (get socket_id p.socket_room)) [
  | inl e ↦ ground (arith, e)
  | inr (r, e) ↦ elim (Option-cases (get socket_id (users_of r p))) [
    | inl f ↦ ground (arith, e, f)
    | inr (w, f) ↦ ground (arith, e, f)
  ]
]

-- A removal that answers nothing finds no room in the index, if the index is right.
pub remove_user-none :
    (socket_id : String) (p : Presence)
    → IsIndexed p
    → (remove_user socket_id p).1 ≡ none
    → get socket_id p.socket_room ≡ none
unfolding remove_user
remove_user-none socket_id p h e = elim (Option-cases (get socket_id p.socket_room)) [
  | inl f ↦ f
  | inr (r, f) ↦ elim (Option-cases (get socket_id (users_of r p))) [
    | inl g ↦ ground (arith, f, g, h socket_id r f)
    | inr (w, g) ↦ ground (arith, f, g, h socket_id r f)
  ]
]

-- The index is kept by adding a user to a room with a name, and by every removal.
pub add_user-IsIndexed :
    (room_id socket_id : String) (user : AuthUser) (p : Presence)
    → is_empty room_id ≡ false
    → IsIndexed p
    → IsIndexed (add_user room_id socket_id user p)
add_user-IsIndexed room_id socket_id user p named h s r e = ground (
  arith,
  e,
  socket_room-add_user room_id socket_id user p s,
  users_of-add_user room_id r socket_id user p,
  get-set socket_id s user (users_of room_id p),
  eq_iff socket_id s,
  eq_iff room_id r,
  h s r,
)

pub remove_user-IsIndexed :
    (socket_id : String) (p : Presence) → IsIndexed p → IsIndexed (remove_user socket_id p).0
remove_user-IsIndexed socket_id p h s r e = elim (Option-cases (remove_user socket_id p).1) [
  | inl f ↦ ground (
    arith,
    e,
    f,
    socket_room-remove_user socket_id s p,
    users_of-remove_user socket_id r p,
    h s r,
  )
  | inr (left, f) ↦ ground (
    arith,
    e,
    f,
    socket_room-remove_user socket_id s p,
    users_of-remove_user socket_id r p,
    get-delete socket_id s (users_of r p),
    eq_iff socket_id s,
    h s r,
  )
]

pub remove_user-eq_some :
    (socket_id room_id : String) (user : AuthUser) (p : Presence)
    → get socket_id p.socket_room ≡ some room_id
    → is_empty room_id ≡ false
    → get socket_id (users_of room_id p) ≡ some user
    → (remove_user socket_id p).1 ≡ some (room_id, user)
unfolding remove_user
remove_user-eq_some socket_id room_id user p e named f = ground (arith, e, f)

pub remove_user-eq_none :
    (socket_id : String) (p : Presence)
    → get socket_id p.socket_room ≡ none
    → remove_user socket_id p ≡ (p, none)
unfolding remove_user
remove_user-eq_none socket_id p e = rw (remove_user, e) refl

-- The room that a socket was in before it joined another one.
abbrev pub both : String → String → String → AuthUser → Presence → Presence
both first second socket_id user p =
    add_user second socket_id user (add_user first socket_id user p)

pub both-removed :
    (first second socket_id : String) (user : AuthUser) (p : Presence)
    → is_empty second ≡ false
    → (remove_user socket_id (both first second socket_id user p)).1 ≡ some (second, user)
both-removed first second socket_id user p named =
    remove_user-eq_some socket_id second user (both first second socket_id user p)
      (ground (
        arith,
        eq_refl socket_id,
        socket_room-add_user second socket_id user (add_user first socket_id user p) socket_id,
      ))
      named
      (ground (
        arith,
        eq_refl second,
        users_of-add_user second second socket_id user (add_user first socket_id user p),
        get-set_self socket_id user (users_of second (add_user first socket_id user p)),
      ))

-- A socket that joins a second room stays in the first: when it is removed, the first room still
-- has the user, and a second removal finds nothing to remove.
pub remove_user-second_room :
    (first second socket_id : String) (user : AuthUser) (p : Presence)
    → first ≢ second
    → is_empty second ≡ false
    → let q = (remove_user socket_id (both first second socket_id user p)).0 in
      (is_user_in_room first user.id q ≡ true) × (remove_user socket_id q ≡ (q, none))
unfolding is_user_in_room
remove_user-second_room first second socket_id user p other named = (
  ground (
    arith,
    both-removed first second socket_id user p named,
    users_of-remove_user socket_id first (both first second socket_id user p),
    users_of-add_user second first socket_id user (add_user first socket_id user p),
    users_of-add_user first first socket_id user p,
    eq_iff second first,
    eq_refl first,
    has_user-set_self socket_id user (users_of first p),
  ),
  remove_user-eq_none socket_id (remove_user socket_id (both first second socket_id user p)).0 (
      ground (
        arith,
        eq_refl socket_id,
        both-removed first second socket_id user p named,
        socket_room-remove_user socket_id socket_id (both first second socket_id user p),
      )),
)
