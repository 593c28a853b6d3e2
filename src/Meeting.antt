-- ===== src/Meeting.antt =====
-- server/src/socket/handlers.ts: presence with its grace window, chat, and the control of the shared
-- transcript. Handlers that wait are cut at the waits. A pending leave stands under its key until its
-- timer fires or is cleared; when a timer fires is not part of the model. Calls of Socket.IO and of
-- the transcription module are outputs.
pub mod Grace
pub mod Away
pub mod Chat
pub mod Indexed
mod Tests
use Prim.Native.String.{◌++◌ as str_append}
use a_meet.Prelude.{
  ℕ, String, ◌==◌, Bool, true, false, ◌&&◌, ◌||◌, not, Option, none, some, List, [], ◌∷◌, ◌++◌,
  if◌then◌else◌, length, ltb, nat_beq,
}
use a_meet.Prelude.Maps.{get, set, delete, has}
use a_meet.Prelude.Text.{is_empty, trim, utf16_length}
use a_meet.Types.{AuthUser, Audience, self, others, everyone, Query, found, missing, failed}
use a_meet.RoomAdmin.{is_admin_of}
use a_meet.Presence.{
  Presence, Row, add_user, remove_user, get_room_users, is_user_in_room, get_user_room,
}
use a_meet.Transcript.{
  Transcripts, Entry, PublicState, get_transcript_snapshot, start_transcript, stop_transcript,
  cancel_transcript_expiry, schedule_transcript_expiry,
}

abbrev max_chat_message_length : ℕ
max_chat_message_length = 16000

abbrev max_chat_message_bytes : ℕ
max_chat_message_bytes = 65536

pub record Socket : Type 0 where
  pub id : String
  pub user : AuthUser

-- What a pending leave's timer is about.
pub record Leave : Type 0 where
  pub room_id : String
  pub user : AuthUser

pub record Meeting : Type 0 where
  pub presence : Presence
  pub pending_leaves : List (String × Leave)
  pub transcripts : Transcripts

pub data Event : Type 0 where
  room_users : List (String × Row) → Event
  -- with whether the transcription is configured
  transcript_snapshot : PublicState × List Entry → Bool → Event
  user_joined : Row → Event
  user_left : AuthUser → Event
  -- its id, sender, text and time
  chat_posted : String → AuthUser → String → ℕ → Event
  transcript_state : PublicState → Event

pub data Output : Type 0 where
  emit : Audience → Event → Output
  enter_channel : String → Output
  leave_channel : String → Output
  start_contributor : String → Output
  stop_contributor : Output
  stop_room_contributors : String → Output

unfoldable pub leave_key : String → String → String
leave_key room_id user_id = str_append room_id (str_append "::" user_id)

abbrev pub row_of : Socket → Row
row_of socket = record { user = socket.user; socket_id = socket.id }

-- What the others are told of a join.
unfoldable pub announce_join : Socket → String → Bool → Bool → List (String × Row) → List Output
announce_join socket room_id already_present rejoined roster =
    if not already_present && not rejoined
    then emit (others room_id) (user_joined (row_of socket)) ∷ []
    else if rejoined
    then emit (others room_id) (room_users roster) ∷ []
    else []

unfoldable pub join_room : Bool → Socket → String → Meeting → Meeting × List Output
unfolding leave_key announce_join
join_room configured socket room_id m =
    let key = leave_key room_id socket.user.id in
    let rejoined = has key m.pending_leaves in
    let already_present = is_user_in_room room_id socket.user.id m.presence in
    let p = add_user room_id socket.id socket.user m.presence in
    let (t, state, entries) =
      get_transcript_snapshot room_id (cancel_transcript_expiry room_id m.transcripts) in
    let roster = get_room_users room_id p in
    if is_empty room_id then (m, []) else (
      record {
        presence = p;
        pending_leaves = if rejoined then delete key m.pending_leaves else m.pending_leaves;
        transcripts = t;
      },
      enter_channel room_id
          ∷ emit self (room_users roster)
          ∷ emit self (transcript_snapshot (state, entries) configured)
          ∷ announce_join socket room_id already_present rejoined roster,
    )

-- The room's transcript expires some time after the last one has left.
unfoldable pub schedule_if_empty : String → Presence → Transcripts → Transcripts
schedule_if_empty room_id p t =
    if nat_beq (length (get_room_users room_id p)) 0
    then schedule_transcript_expiry room_id t
    else t

-- `user-left` to this audience, unless the user is still in the room.
unfoldable pub announce_leave : Audience → Leave → Presence → List Output
announce_leave audience l p =
    if is_user_in_room l.room_id l.user.id p then [] else emit audience (user_left l.user) ∷ []

unfoldable pub leave_room : Socket → Meeting → Meeting × List Output
unfolding leave_key schedule_if_empty announce_leave
leave_room socket m =
    let (p, removed) = remove_user socket.id m.presence in
    elim removed [
      | none ↦ (m, [])
      | some (room_id, user) ↦ (
        record {
          presence = p;
          pending_leaves = delete (leave_key room_id user.id) m.pending_leaves;
          transcripts = schedule_if_empty room_id p m.transcripts;
        },
        leave_channel room_id
              ∷ announce_leave (others room_id) (record { room_id = room_id; user = user }) p
            ++ stop_contributor ∷ [],
      )
    ]

unfoldable pub disconnect : Socket → Meeting → Meeting × List Output
unfolding leave_key
disconnect socket m =
    let (p, removed) = remove_user socket.id m.presence in
    elim removed [
      | none ↦ (m, stop_contributor ∷ [])
      | some (room_id, user) ↦
          if is_user_in_room room_id user.id p
          then (record m { presence = p }, stop_contributor ∷ [])
          else (
            record m {
              presence = p;
              pending_leaves =
                  set (leave_key room_id user.id) (record { room_id = room_id; user = user })
                    m.pending_leaves;
            },
            stop_contributor ∷ [],
          )
    ]

-- The timer under this key fires, if it is set.
unfoldable pub grace_over : String → Meeting → Meeting × List Output
unfolding schedule_if_empty announce_leave
grace_over key m = elim (get key m.pending_leaves) [
  | none ↦ (m, [])
  | some l ↦ (
    record m {
      pending_leaves = delete key m.pending_leaves;
      transcripts = schedule_if_empty l.room_id m.presence m.transcripts;
    },
    announce_leave (everyone l.room_id) l m.presence,
  )
]

pub data ChatAck : Type 0 where
  not_in_room : ChatAck
  empty_message : ChatAck
  message_too_long : ChatAck
  chat_ok : String → ChatAck

-- The payload's text, where it has one, and the bytes of its JSON, where it can be written.
unfoldable pub is_too_long : String → Option ℕ → Bool
is_too_long text none = true
is_too_long text (some bytes) =
    ltb max_chat_message_length (utf16_length text) || ltb max_chat_message_bytes bytes

-- A text that is missing or blank is not sent.
unfoldable pub text_of : Option String → Option String
text_of none = none
text_of (some text) = if is_empty (trim text) then none else some text

-- With the message's new id and the time. The room's name is not empty in the index.
unfoldable pub chat_message :
    Socket → Option String → Option ℕ → String → ℕ → Meeting → List Output × ChatAck
unfolding is_too_long text_of
chat_message socket text bytes message_id now m = elim (get_user_room socket.id m.presence) [
  | none ↦ ([], not_in_room)
  | some room_id ↦ if is_empty room_id then ([], not_in_room) else elim (text_of text) [
    | none ↦ ([], empty_message)
    | some t ↦ if is_too_long t bytes then ([], message_too_long) else (
      emit (everyone room_id) (chat_posted message_id socket.user t now) ∷ [],
      chat_ok message_id,
    )
  ]
]

-- Where a handler of the transcript stands.
pub data Control : Type 0 where
  await_room : String → Control
  await_contributors : String → Control
  await_contributor : String → Control
  refused : String → Control
  accepted : Option PublicState → Control

-- The caller's room, if the index has one with a name.
unfoldable pub room_of : Socket → Meeting → Option String
room_of socket m = elim (get_user_room socket.id m.presence) [
  | none ↦ none
  | some room_id ↦ if is_empty room_id then none else some room_id
]

unfoldable pub begin_start : Bool → Socket → Meeting → Control
unfolding room_of
begin_start configured socket m = elim (room_of socket m) [
  | none ↦ refused "Not in a room"
  | some room_id ↦
      if configured
      then await_room room_id
      else refused "Transcription providers are not configured"
]

unfoldable pub after_start_query :
    Socket → String → Query → ℕ → Meeting → Meeting × List Output × Control
after_start_query socket room_id (failed message) now m = (m, [], refused message)
after_start_query socket room_id query now m =
    let (t, state) = start_transcript room_id socket.user now m.transcripts in
    if is_admin_of query socket.user.id
    then (
      record m { transcripts = t },
      emit (everyone room_id) (transcript_state state) ∷ [],
      accepted (some state),
    )
    else (m, [], refused "Only the meeting admin can start the transcript")

unfoldable pub begin_stop : Socket → Meeting → Control
unfolding room_of
begin_stop socket m = elim (room_of socket m) [
  | none ↦ refused "Not in a room"
  | some room_id ↦ await_room room_id
]

unfoldable pub after_stop_query : Socket → String → Query → List Output × Control
after_stop_query socket room_id (failed message) = ([], refused message)
after_stop_query socket room_id query =
    if is_admin_of query socket.user.id
    then (stop_room_contributors room_id ∷ [], await_contributors room_id)
    else ([], refused "Only the meeting admin can stop the transcript")

-- The room's contributors have stopped.
unfoldable pub finish_stop : String → ℕ → Meeting → Meeting × List Output × Control
finish_stop room_id now m =
    let (t, state) = stop_transcript room_id now m.transcripts in
    (
      record m { transcripts = t },
      emit (everyone room_id) (transcript_state state) ∷ [],
      accepted (some state),
    )

-- The snapshot that is read makes a session where there is none.
unfoldable pub begin_contributor : Socket → Meeting → Meeting × List Output × Control
unfolding room_of
begin_contributor socket m = elim (room_of socket m) [
  | none ↦ (m, [], refused "Not in a room")
  | some room_id ↦
      let (t, state, entries) = get_transcript_snapshot room_id m.transcripts in
      let n = record m { transcripts = t } in
      if state.0
      then (n, start_contributor room_id ∷ [], await_contributor room_id)
      else (n, [], refused "Transcript is not active")
]

-- The provider has connected, or not.
unfoldable pub finish_contributor : Bool → Control
finish_contributor true = accepted none
finish_contributor false = refused "Could not connect to the transcription provider"

abbrev pub stop_contributing : List Output
stop_contributing = stop_contributor ∷ []
