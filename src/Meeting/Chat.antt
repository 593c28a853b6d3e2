-- ===== src/Meeting/Chat.antt =====
-- What chat messages are posted, and who controls the transcript.
use a_meet.Prelude.{
  ℕ, ◌≤◌, String, ◌≡◌, refl, ap, ◌∙◌, false, Option, none, some, [], ◌∷◌, arith, Bool-cases,
  Option-cases, inl, inr,
}
use a_meet.Prelude.Text.{is_empty, trim, utf16_length}
use a_meet.Types.{everyone, Query, found, missing, failed}
use a_meet.RoomAdmin.{is_admin_of}
use a_meet.Presence.{get_user_room}
use a_meet.Meeting.{
  Socket, Meeting, Output, emit, chat_posted, chat_ok, chat_message, text_of, is_too_long,
  after_start_query, after_stop_query,
}

-- A message that may be posted: its sender is in the room, its text is not blank and has at most
-- 16000 units, and its payload's JSON at most 65536 bytes.
pub record IsPostable (socket : Socket) (text : Option String) (bytes : Option ℕ) (m : Meeting)
    (room_id body : String) : Type 0 where
  pub in_room : get_user_room socket.id m.presence ≡ some room_id
  pub named : is_empty room_id ≡ false
  pub given : text ≡ some body
  pub written : is_empty (trim body) ≡ false
  pub short : utf16_length body ≤ 16000
  pub size : ℕ
  pub sized : bytes ≡ some size
  pub light : size ≤ 65536

text_of-some :
    (text : Option String) (body : String)
    → text_of text ≡ some body
    → (text ≡ some body) × (is_empty (trim body) ≡ false)
unfolding text_of
text_of-some none body h = absurd (ground arith)
text_of-some (some t) body h = ground arith

is_too_long-short :
    (body : String) (bytes : Option ℕ)
    → is_too_long body bytes ≡ false
    → (n : ℕ) × (bytes ≡ some n) × (utf16_length body ≤ 16000) × (n ≤ 65536)
unfolding is_too_long
is_too_long-short body none h = absurd (ground arith)
is_too_long-short body (some n) h = (n, refl, ground arith, ground arith)

-- Whatever is posted is the sender's message that may be posted, to everyone in the sender's room.
pub chat_message-IsPostable :
    (socket : Socket) (text : Option String) (bytes : Option ℕ) (id : String) (now : ℕ)
    (m : Meeting) (o : Output)
    → (chat_message socket text bytes id now m).0 ≡ o ∷ []
    → (room_id : String) × (body : String) × IsPostable socket text bytes m room_id body
      × (o ≡ emit (everyone room_id) (chat_posted id socket.user body now))
unfolding chat_message
chat_message-IsPostable socket text bytes id now m o h =
    elim (Option-cases (get_user_room socket.id m.presence)) [
      | inl e ↦ absurd (ground (arith, e))
      | inr (room_id, e) ↦ elim (Bool-cases (is_empty room_id)) [
        | inl f ↦ absurd (ground (arith, e, f))
        | inr named ↦ elim (Option-cases (text_of text)) [
          | inl g ↦ absurd (ground (arith, e, named, g))
          | inr (body, g) ↦ elim (Bool-cases (is_too_long body bytes)) [
            | inl long ↦ absurd (ground (arith, e, named, g, long))
            | inr fits ↦
                let (given, written) = text_of-some text body g in
                let (n, sized, short, light) = is_too_long-short body bytes fits in
                (
                  room_id,
                  body,
                  record {
                    in_room = e;
                    named = named;
                    given = given;
                    written = written;
                    short = short;
                    size = n;
                    sized = sized;
                    light = light;
                  },
                  ground (arith, e, named, g, fits),
                )
          ]
        ]
      ]
    ]

text_of-given : (body : String) → is_empty (trim body) ≡ false → text_of (some body) ≡ some body
unfolding text_of
text_of-given body h = ground (arith, h)

is_too_long-fits :
    (body : String) (n : ℕ)
    → utf16_length body ≤ 16000
    → n ≤ 65536
    → is_too_long body (some n) ≡ false
unfolding is_too_long
is_too_long-fits body n h k = ground (arith, h, k)

-- A message that may be posted is posted once, to everyone in the sender's room, as the sender's and
-- with its text unchanged, and its id is acknowledged.
pub chat_message-posts :
    (socket : Socket) (text : Option String) (bytes : Option ℕ) (id : String) (now : ℕ)
    (m : Meeting) (room_id body : String)
    → IsPostable socket text bytes m room_id body
    → chat_message socket text bytes id now m
      ≡ (emit (everyone room_id) (chat_posted id socket.user body now) ∷ [], chat_ok id)
unfolding chat_message
chat_message-posts socket text bytes id now m room_id body h = ground (
  arith,
  h.in_room,
  h.named,
  ap text_of h.given ∙ text_of-given body h.written,
  ap (is_too_long body) h.sized ∙ is_too_long-fits body h.size h.short h.light,
)

-- A transcript is started, and its contributors are stopped, only for a user who administers the
-- room that the database has found; nothing else changes the meeting or tells anyone.
pub after_query-guarded :
    (socket : Socket) (room_id : String) (query : Query) (now : ℕ) (m : Meeting)
    → is_admin_of query socket.user.id ≡ false
    → ((after_start_query socket room_id query now m).0 ≡ m)
      × ((after_start_query socket room_id query now m).1 ≡ [])
      × ((after_stop_query socket room_id query).0 ≡ [])
unfolding after_start_query after_stop_query
after_query-guarded socket room_id (failed e) now m h = (refl, refl, refl)
after_query-guarded socket room_id missing now m h =
    (ground (arith, h), ground (arith, h), ground (arith, h))
after_query-guarded socket room_id (found doc) now m h =
    (ground (arith, h), ground (arith, h), ground (arith, h))
