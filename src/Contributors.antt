-- ===== src/Contributors.antt =====
-- server/src/transcription/meeting-transcription.ts: who contributes audio to a meeting's transcript.
-- The calls of a contributor's session at the speech provider are outputs, and the refiner's answer
-- is an argument; a chunk of audio is its number of bytes. `startContributor` is cut where it waits
-- for the provider.
pub mod Window
mod Tests
use a_meet.Prelude.{
  ℕ, ◌+◌, String, ◌==◌, Bool, true, false, not, Option, none, some, List, [], ◌∷◌, ◌++◌,
  if◌then◌else◌, ltb, leb,
}
use a_meet.Prelude.Maps.{get, set, delete, has}
use a_meet.Types.{AuthUser}
use a_meet.Transcript.{
  Transcripts, Entry, AppendResult, inactive, invalid_segment, duplicate, appended,
  append_transcript_segment, revise_transcript_segment,
}

pub record Active : Type 0 where
  pub room_id : String
  pub window_started_at : ℕ
  pub window_bytes : ℕ

abbrev pub Sessions : Type 0
Sessions = List (String × Active)

-- Where `startContributor` stands.
pub data Starting : Type 0 where
  not_configured : Starting
  running_already : Starting
  connecting : Starting
  connected : Starting
  not_connected : String → Starting

unfoldable pub start_contributor : Bool → String → String → ℕ → Sessions → Sessions × Starting
start_contributor configured socket_id room_id now sessions =
    let fresh : Active = record { room_id = room_id; window_started_at = now; window_bytes = 0 } in
    if not configured
    then (sessions, not_configured)
    else if has socket_id sessions
    then (sessions, running_already)
    else (set socket_id fresh sessions, connecting)

-- The provider has answered, with an error or without.
unfoldable pub finish_start : String → Option String → Sessions → Sessions × Starting
finish_start socket_id none sessions = (sessions, connected)
finish_start socket_id (some error) sessions = (delete socket_id sessions, not_connected error)

-- A new window begins a second after the last one did.
abbrev pub window_at : ℕ → Active → Active
window_at now a =
    if leb (a.window_started_at + 1000) now
    then record a { window_started_at = now; window_bytes = 0 }
    else a

abbrev pub count_bytes : ℕ → Active → Active
count_bytes bytes a = record a { window_bytes = a.window_bytes + bytes }

-- Whether the chunk is sent on. A chunk that is too large is not counted.
unfoldable pub send_at : ℕ → ℕ → Active → Active × Bool
send_at now bytes a =
    let counted = count_bytes bytes (window_at now a) in
    if ltb 65536 bytes then (a, false) else (counted, leb counted.window_bytes 98304)

unfoldable pub send_contributor_audio : String → ℕ → ℕ → Sessions → Sessions × Bool
unfolding send_at
send_contributor_audio socket_id now bytes sessions = elim (get socket_id sessions) [
  | none ↦ (sessions, false)
  | some a ↦ let (b, sent) = send_at now bytes a in (set socket_id b sessions, sent)
]

-- The contributors whose sessions are stopped.
unfoldable pub stop_contributor : String → Sessions → Sessions × List String
stop_contributor socket_id sessions =
    if has socket_id sessions then (delete socket_id sessions, socket_id ∷ []) else (sessions, [])

unfoldable pub contributors_of : String → Sessions → List String
contributors_of room_id [] = []
contributors_of room_id ((socket_id, a) ∷ sessions) =
    let rest = contributors_of room_id sessions in
    if a.room_id == room_id then socket_id ∷ rest else rest

unfoldable pub stop_all : List String → Sessions → Sessions × List String
unfolding stop_contributor
stop_all [] sessions = (sessions, [])
stop_all (socket_id ∷ more) sessions =
    let (rest, stopped) = stop_contributor socket_id sessions in
    let (last, others) = stop_all more rest in (last, stopped ++ others)

unfoldable pub stop_room_contributors : String → Sessions → Sessions × List String
unfolding contributors_of stop_all
stop_room_contributors room_id sessions = stop_all (contributors_of room_id sessions) sessions

-- What the room is sent of a final text, and whether the entry goes to the refiner. The segment's
-- provider is `deepgram` and it is provisional if there is a refiner; its id is the caller's.
unfoldable pub on_final :
    Bool → String → AuthUser → String → String → ℕ → Transcripts → Transcripts × List Entry × Bool
on_final refining room_id user segment_id text now t =
    let (u, result) =
      append_transcript_segment room_id user
        (record {
          text = some text;
          client_segment_id = some segment_id;
          provider = "deepgram";
          provisional = refining;
        })
        now t in
    elim result [
      | inactive ↦ (u, [], false)
      | invalid_segment ↦ (u, [], false)
      | duplicate ↦ (u, [], false)
      | appended e ↦ (u, e ∷ [], refining)
    ]

-- The refiner has answered with a text and the name of its provider.
unfoldable pub on_refined :
    String → Entry → String → String → ℕ → Transcripts → Transcripts × List Entry
on_refined room_id e text provider now t =
    let (u, revised) =
      revise_transcript_segment room_id e.room e.sequence (some text) provider now t in
    elim revised [ none ↦ (u, []) | some r ↦ (u, r ∷ []) ]
