-- ===== src/Presence/Roster.antt =====
-- The roster against an independent description of it, and how it changes.
use a_meet.Prelude.{
  String, ◌==◌, eq_iff, eq_refl, ◌≡◌, refl, true, false, ◌||◌, Option, none, some, List, [], ◌∷◌,
  arith, if◌then◌else◌, is_some, ◌&&◌, Option-cases, inl, inr, ◌∙◌, ap,
}
use a_meet.Prelude.Maps.{get, set, delete, has, Unique, get-set, get-delete, set-Unique}
use a_meet.Types.{AuthUser}
use a_meet.Presence.{
  Presence, Row, users_of, add_user, put_users, remove_user, by_user, get_room_users, has_user,
  is_user_in_room,
}

-- The user's last entry, if there is one.
abbrev pub latest : String → List (String × AuthUser) → Option Row
latest user_id [] = none
latest user_id ((socket_id, user) ∷ entries) = elim (latest user_id entries) [
  | some row ↦ some row
  | none ↦ if user.id == user_id then some (record { user = user; socket_id = socket_id }) else none
]

get-by_user :
    (user_id : String) (entries : List (String × AuthUser)) (rows : List (String × Row))
    → get user_id (by_user entries rows)
      ≡ elim (latest user_id entries) [ some row ↦ some row | none ↦ get user_id rows ]
unfolding by_user
get-by_user user_id [] rows = refl
get-by_user user_id ((socket_id, user) ∷ entries) rows = ground (
  arith,
  get-by_user user_id entries (set user.id (record { user = user; socket_id = socket_id }) rows),
  get-set user.id user_id (record { user = user; socket_id = socket_id }) rows,
)

get-roster :
    (user_id : String) (entries : List (String × AuthUser))
    → get user_id (by_user entries []) ≡ latest user_id entries
unfolding get
get-roster user_id entries = elim (Option-cases (latest user_id entries)) [
  | inl e ↦ get-by_user user_id entries [] ∙ rw e refl
  | inr (row, e) ↦ get-by_user user_id entries [] ∙ rw e refl
]

by_user-Unique :
    (entries : List (String × AuthUser)) (rows : List (String × Row))
    → Unique rows
    → Unique (by_user entries rows)
unfolding by_user
by_user-Unique [] rows h = h
by_user-Unique ((socket_id, user) ∷ entries) rows h =
    by_user-Unique entries _ (set-Unique user.id _ rows h)

is_some-latest :
    (user_id : String) (entries : List (String × AuthUser))
    → is_some (latest user_id entries) ≡ has_user user_id entries
unfolding has_user
is_some-latest user_id [] = refl
is_some-latest user_id ((socket_id, user) ∷ entries) =
    ground (arith, is_some-latest user_id entries)

-- The roster has at most one row for each user, which carries the socket of the user's last entry
-- in the room, and it has a row for exactly the users that are in the room.
pub get_room_users-latest :
    (room_id user_id : String) (p : Presence)
    → Unique (get_room_users room_id p)
      × (get user_id (get_room_users room_id p) ≡ latest user_id (users_of room_id p))
      × (has user_id (get_room_users room_id p) ≡ is_user_in_room room_id user_id p)
unfolding get_room_users is_user_in_room
get_room_users-latest room_id user_id p = (
  by_user-Unique (users_of room_id p) [] tt,
  get-roster user_id (users_of room_id p),
  ap (λ o. is_some o) (get-roster user_id (users_of room_id p))
      ∙ is_some-latest user_id (users_of room_id p),
)

pub has_user-set :
    (user_id socket_id : String) (user : AuthUser) (entries : List (String × AuthUser))
    → has_user user_id (set socket_id user entries) ≡ true
    → (has_user user_id entries || user.id == user_id) ≡ true
unfolding has_user set
has_user-set user_id socket_id user [] h = ground arith
has_user-set user_id socket_id user ((k, w) ∷ entries) h =
    ground (arith, has_user-set user_id socket_id user entries)

pub has_user-set_self :
    (socket_id : String) (user : AuthUser) (entries : List (String × AuthUser))
    → has_user user.id (set socket_id user entries) ≡ true
unfolding has_user set
has_user-set_self socket_id user [] = ground (arith, eq_iff user.id user.id)
has_user-set_self socket_id user ((k, w) ∷ entries) =
    ground (arith, eq_iff user.id user.id, has_user-set_self socket_id user entries)

pub has_user-delete :
    (user_id socket_id : String) (entries : List (String × AuthUser))
    → has_user user_id (delete socket_id entries) ≡ true
    → has_user user_id entries ≡ true
unfolding has_user delete
has_user-delete user_id socket_id [] h = h
has_user-delete user_id socket_id ((k, w) ∷ entries) h =
    ground (arith, has_user-delete user_id socket_id entries)

pub users_of-put_users :
    (room_id r : String) (users : List (String × AuthUser)) (p : Presence)
    → users_of r (put_users room_id users p) ≡ (if room_id == r then users else users_of r p)
users_of-put_users room_id r [] p = ground (arith, get-delete room_id r p.rooms)
users_of-put_users room_id r (e ∷ users) p = ground (arith, get-set room_id r (e ∷ users) p.rooms)

pub users_of-add_user :
    (room_id r socket_id : String) (user : AuthUser) (p : Presence)
    → users_of r (add_user room_id socket_id user p)
      ≡ (if room_id == r then set socket_id user (users_of room_id p) else users_of r p)
unfolding add_user
users_of-add_user room_id r socket_id user p =
    ground (arith, get-set room_id r (set socket_id user (users_of room_id p)) p.rooms)

-- Nobody else comes in with a user, and nobody comes in with a removal.
pub is_user_in_room-add_user :
    (room_id socket_id : String) (user : AuthUser) (p : Presence) (r user_id : String)
    → is_user_in_room r user_id (add_user room_id socket_id user p) ≡ true
    → (is_user_in_room r user_id p || (room_id == r && user.id == user_id)) ≡ true
unfolding is_user_in_room
is_user_in_room-add_user room_id socket_id user p r user_id h = ground (
  arith,
  eq_iff room_id r,
  users_of-add_user room_id r socket_id user p,
  has_user-set user_id socket_id user (users_of room_id p),
)

pub is_user_in_room-added :
    (room_id socket_id : String) (user : AuthUser) (p : Presence)
    → is_user_in_room room_id user.id (add_user room_id socket_id user p) ≡ true
unfolding is_user_in_room
is_user_in_room-added room_id socket_id user p = ground (
  arith,
  eq_iff room_id room_id,
  users_of-add_user room_id room_id socket_id user p,
  has_user-set_self socket_id user (users_of room_id p),
)

pub users_of-remove_user :
    (socket_id r : String) (p : Presence)
    → users_of r (remove_user socket_id p).0 ≡ elim (remove_user socket_id p).1 [
      | none ↦ users_of r p
      | some (room_id, user) ↦
          if room_id == r then delete socket_id (users_of r p) else users_of r p
    ]
unfolding remove_user
users_of-remove_user socket_id r p = elim (Option-cases (get socket_id p.socket_room)) [
  | inl e ↦ ground (arith, e)
  | inr (room_id, e) ↦ rw e (elim (Option-cases (get socket_id (users_of room_id p))) [
    | inl f ↦ ground (arith, f)
    | inr (user, f) ↦ ground (
      arith,
      f,
      eq_iff room_id r,
      users_of-put_users room_id r (delete socket_id (users_of room_id p)) p,
    )
  ])
]

pub is_user_in_room-remove_user :
    (socket_id : String) (p : Presence) (r user_id : String)
    → is_user_in_room r user_id (remove_user socket_id p).0 ≡ true
    → is_user_in_room r user_id p ≡ true
unfolding is_user_in_room
is_user_in_room-remove_user socket_id p r user_id h =
    elim (Option-cases (remove_user socket_id p).1) [
      | inl e ↦ ground (arith, users_of-remove_user socket_id r p)
      | inr (left, e) ↦ ground (
        arith,
        users_of-remove_user socket_id r p,
        has_user-delete user_id socket_id (users_of r p),
      )
    ]

-- A user who was not in the room gets the socket just added.
latest-set :
    (socket_id : String) (user : AuthUser) (entries : List (String × AuthUser))
    → has_user user.id entries ≡ false
    → latest user.id (set socket_id user entries)
      ≡ some (record { user = user; socket_id = socket_id })
unfolding set has_user
latest-set socket_id user [] h = ground (arith, eq_refl user.id)
latest-set socket_id user ((k, w) ∷ entries) h =
    ground
      (arith, eq_refl user.id, latest-set socket_id user entries, is_some-latest user.id entries)

pub get_room_users-added :
    (room_id socket_id : String) (user : AuthUser) (p : Presence)
    → is_user_in_room room_id user.id p ≡ false
    → get user.id (get_room_users room_id (add_user room_id socket_id user p))
      ≡ some (record { user = user; socket_id = socket_id })
unfolding is_user_in_room
get_room_users-added room_id socket_id user p h = ground (
  arith,
  eq_refl room_id,
  (get_room_users-latest room_id user.id (add_user room_id socket_id user p)).1,
  users_of-add_user room_id room_id socket_id user p,
  latest-set socket_id user (users_of room_id p) h,
)
