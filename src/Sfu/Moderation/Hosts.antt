-- ===== src/Sfu/Moderation/Hosts.antt =====
-- Who may moderate, and whom.
use a_meet.Prelude.{
  String, ◌==◌, eq_iff, ◌≡◌, refl, Bool, true, false, Option, none, some, List, [], ◌∷◌, arith,
  Option-cases, inl, inr,
}
use a_meet.Types.{invalid, valid, Query}
use a_meet.RoomAdmin.{is_admin_of}
use a_meet.Sfu.{Sfu, get_room}
use a_meet.Sfu.Join.{Socket}
use a_meet.Sfu.Moderation.{
  says, room_of, named, asked_room, end_meeting, caller_is_host, Command, host_mute, request_unmute,
  host_remove, mute_all, request_unmute_all, set_spotlight, command, moderate, mute_room, mute_each,
  is_room,
}

caller_is_host-none :
    (socket : Socket) (query : Query) (asked : Option String)
    → is_admin_of query socket.user.id ≡ false
    → caller_is_host socket query asked ≡ none
unfolding caller_is_host
caller_is_host-none socket query none h = refl
caller_is_host-none socket query (some room) h = ground arith

end_meeting-none :
    (socket : Socket) (query : Query) (asked : Option String) (s : Sfu)
    → is_admin_of query socket.user.id ≡ false
    → end_meeting socket query asked s ≡ says s []
unfolding end_meeting
end_meeting-none socket query none s h = refl
end_meeting-none socket query (some room) s h = ground arith

command-none :
    (pauses : String → Bool) (socket : Socket) (user_room : String → Option String) (c : Command)
    (s : Sfu)
    → command pauses socket user_room none c s ≡ says s []
unfolding command
command-none pauses socket user_room (host_mute (invalid m)) s = refl
command-none pauses socket user_room (host_mute (valid t)) s = refl
command-none pauses socket user_room mute_all s = refl
command-none pauses socket user_room (request_unmute (invalid m)) s = refl
command-none pauses socket user_room (request_unmute (valid t)) s = refl
command-none pauses socket user_room request_unmute_all s = refl
command-none pauses socket user_room (host_remove (invalid m)) s = refl
command-none pauses socket user_room (host_remove (valid t)) s = refl
command-none pauses socket user_room (set_spotlight (invalid m)) s = refl
command-none pauses socket user_room (set_spotlight (valid t)) s = refl

-- Without the administrator's id, by the answer of the database, no command of the host and no end
-- of the meeting has any effect, whichever room was asked for and whatever has happened since: the
-- store stays, nobody is told anything, disconnected or marked.
pub moderate-unauthorised :
    (pauses : String → Bool) (socket : Socket) (user_room : String → Option String) (query : Query)
    (c : Command) (asked : Option String) (s : Sfu)
    → is_admin_of query socket.user.id ≡ false
    → (moderate pauses socket user_room query c asked s ≡ says s [])
      × (end_meeting socket query asked s ≡ says s [])
unfolding moderate
moderate-unauthorised pauses socket user_room query c asked s h = (
  rw (caller_is_host-none socket query asked h) (command-none pauses socket user_room c s),
  end_meeting-none socket query asked s h,
)

-- Who is disconnected by a command: never the caller itself, only a socket that presence knows, after
-- the wait, in the room where the caller was when the command came in, and only at the word of that
-- room's administrator.
pub record IsKicked (socket : Socket) (user_room later : String → Option String) (query : Query)
    (s : Sfu) (target : String) : Type 0 where
  pub admin : is_admin_of query socket.user.id ≡ true
  pub another : (target == socket.id) ≡ false
  pub room : String
  pub caller_room : room_of socket user_room s ≡ some room
  pub target_room : later target ≡ some room

named-some : (o : Option String) (room : String) → named o ≡ some room → o ≡ some room
named-some none room h = h
named-some (some r) room h = ground arith

caller_is_host-some :
    (socket : Socket) (query : Query) (asked : Option String) (room : String)
    → caller_is_host socket query asked ≡ some room
    → (is_admin_of query socket.user.id ≡ true) × (asked ≡ some room)
unfolding caller_is_host
caller_is_host-some socket query none room h = absurd (ground arith)
caller_is_host-some socket query (some r) room h = (ground arith, ground arith)

is_room-eq : (o : Option String) (room : String) → is_room o room ≡ true → o ≡ some room
is_room-eq none room h = absurd (ground arith)
is_room-eq (some r) room h = ground (arith, eq_iff r room)

mute_each-kicked :
    (pauses : String → Bool) (socket : Socket) (room : String) (targets : List String) (s : Sfu)
    → (mute_each pauses socket room targets s).kicked ≡ none
unfolding mute_each
mute_each-kicked pauses socket room [] s = refl
mute_each-kicked pauses socket room (t ∷ ts) s = refl

mute_room-kicked :
    (pauses : String → Bool) (socket : Socket) (room : String) (s : Sfu)
    → (mute_room pauses socket (some room) s).kicked ≡ none
mute_room-kicked pauses socket room s = elim (Option-cases (get_room room s)) [
  | inl e ↦ rw (e, mute_room)
  | inr (r, e) ↦ rw (e, mute_room) (mute_each-kicked pauses socket room _ s)
]

command-kicked :
    (pauses : String → Bool) (socket : Socket) (user_room : String → Option String)
    (host : Option String) (c : Command) (s : Sfu) (target : String)
    → (command pauses socket user_room host c s).kicked ≡ some target
    → (room : String) × (host ≡ some room)
      × ((target == socket.id) ≡ false)
      × (user_room target ≡ some room)
unfolding command
command-kicked pauses socket user_room none c s target h =
    absurd (kicks_none (command-none pauses socket user_room c s))
  where
    kicks_none : command pauses socket user_room none c s ≡ says s [] → ⊥
    kicks_none e = ground arith
command-kicked pauses socket user_room (some room) (host_remove (valid t)) s target h =
    (room, refl, ground arith, is_room-eq (user_room target) room (ground arith))
command-kicked pauses socket user_room (some room) (host_mute (invalid m)) s target h =
    absurd (ground arith)
command-kicked pauses socket user_room (some room) (host_mute (valid t)) s target h =
    absurd (ground arith)
command-kicked pauses socket user_room (some room) mute_all s target h =
    absurd (ground (arith, mute_room-kicked pauses socket room s))
command-kicked pauses socket user_room (some room) _ s target h = absurd (ground arith)

-- A socket that a host's command disconnects is another one than the caller's, is known by
-- presence, after the wait for the database, in the room where the caller was before it, and the
-- caller administers that room.
pub moderate-kicked :
    (pauses : String → Bool) (socket : Socket) (user_room later : String → Option String)
    (query : Query) (c : Command) (s t : Sfu) (target : String)
    → (moderate pauses socket later query c (asked_room socket user_room s) t).kicked ≡ some target
    → IsKicked socket user_room later query s target
unfolding moderate asked_room
moderate-kicked pauses socket user_room later query c s t target h =
    let asked = asked_room socket user_room s in
    let (room, host, another, there) =
      command-kicked pauses socket later (caller_is_host socket query asked) c t target h in
    let (admin, here) = caller_is_host-some socket query asked room host in
    record {
      admin = admin;
      another = another;
      room = room;
      caller_room = named-some (room_of socket user_room s) room here;
      target_room = there;
    }
