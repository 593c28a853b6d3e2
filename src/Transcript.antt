-- ===== src/Transcript.antt =====
-- server/src/socket/transcript-manager.ts: the shared transcript of each meeting. An entry's id,
-- `${roomId}:${sequence}`, is the pair of the two. The expiry timer of a room is its name in
-- `expiry`; when it fires is not part of the model. Texts are cut by UTF-16 units; a surrogate pair
-- that the cut would split is left out.
pub mod Entries
pub mod Retries
mod Tests
use Prim.Native.Char.{char, code}
use a_meet.Prelude.{
  ℕ, suc, ◌+◌, ◌-◌, ◌*◌, String, ◌==◌, Bool, true, false, ◌&&◌, ◌||◌, not, Option, none, some, List,
  [], ◌∷◌, ◌++◌, if◌then◌else◌, or_else, length, drop, ltb, leb, nat_beq,
}
use a_meet.Prelude.Maps.{get, set, delete, contains, add, remove}
use a_meet.Prelude.Text.{is_empty, is_space, trim, units}
use a_meet.Types.{AuthUser}

abbrev max_transcript_entries : ℕ
max_transcript_entries = 5000

pub record Speaker : Type 0 where
  pub id : String
  pub name : String
  pub avatar : String

pub record Entry : Type 0 where
  pub room : String
  pub sequence : ℕ
  pub speaker : Speaker
  pub text : String
  pub ts : ℕ
  pub provider : String
  pub provisional : Bool
  pub revised_at : Option ℕ

pub record Session : Type 0 where
  pub active : Bool
  pub started_at : Option ℕ
  -- the id and the name
  pub started_by : Option (String × String)
  pub stopped_at : Option ℕ
  pub next_sequence : ℕ
  pub entries : List Entry
  pub seen_segment_ids : List String

pub record Transcripts : Type 0 where
  pub sessions : List (String × Session)
  pub expiry : List String

-- What a segment's payload holds: `none` for a field that is not a text, and the empty provider for
-- one that is missing.
pub record Segment : Type 0 where
  pub text : Option String
  pub client_segment_id : Option String
  pub provider : String
  pub provisional : Bool

pub data AppendResult : Type 0 where
  inactive : AppendResult
  invalid_segment : AppendResult
  duplicate : AppendResult
  appended : Entry → AppendResult

abbrev pub PublicState : Type 0
PublicState = Bool × Option ℕ × Option (String × String) × Option ℕ

abbrev pub create_session : Session
create_session = record {
  active = false;
  started_at = none;
  started_by = none;
  stopped_at = none;
  next_sequence = 1;
  entries = [];
  seen_segment_ids = [];
}

-- `getOrCreate`; who calls it also puts the session back.
abbrev pub session_of : String → Transcripts → Session
session_of room_id t = or_else (get room_id t.sessions) create_session

abbrev pub put_session : String → Session → Transcripts → Transcripts
put_session room_id session t = record t { sessions = set room_id session t.sessions }

abbrev pub public_state : Session → PublicState
public_state s = (s.active, s.started_at, s.started_by, s.stopped_at)

unfoldable pub get_transcript_snapshot :
    String → Transcripts → Transcripts × PublicState × List Entry
get_transcript_snapshot room_id t =
    let s = session_of room_id t in (put_session room_id s t, public_state s, s.entries)

-- `x ??= v`
abbrev set_default : {A : Type 0} → Option A → A → Option A
set_default none v = some v
set_default (some a) v = some a

abbrev pub start_session : AuthUser → ℕ → Session → Session
start_session user now s = record s {
  active = true;
  started_at = set_default s.started_at now;
  started_by = set_default s.started_by (user.id, user.name);
  stopped_at = none;
}

unfoldable pub start_transcript : String → AuthUser → ℕ → Transcripts → Transcripts × PublicState
start_transcript room_id user now t =
    let s = start_session user now (session_of room_id t) in
    (put_session room_id s t, public_state s)

abbrev pub stop_session : ℕ → Session → Session
stop_session now s = record s { active = false; stopped_at = some now }

unfoldable pub stop_transcript : String → ℕ → Transcripts → Transcripts × PublicState
stop_transcript room_id now t =
    let s = stop_session now (session_of room_id t) in (put_session room_id s t, public_state s)

-- `replace(/\s+/g, ' ')`; the flag tells whether the character before was a space.
unfoldable pub collapse : Bool → String → String
unfolding is_space
collapse after String.[] = String.[]
collapse after (String.◌∷◌ c s) =
    let spaced = collapse true s in
    let plain = collapse false s in
    if is_space (code c)
    then if after then spaced else String.◌∷◌ (char 32 tt) spaced
    else String.◌∷◌ c plain

-- `slice(0, n)`
unfoldable pub slice : ℕ → String → String
unfolding units
slice n String.[] = String.[]
slice n (String.◌∷◌ c s) =
    let rest = slice (n - units (code c)) s in
    if leb (units (code c)) n then String.◌∷◌ c rest else String.[]

unfoldable pub normalize : Option String → String
unfolding collapse slice trim
normalize none = ""
normalize (some text) = slice 1000 (collapse false (trim text))

abbrev pub segment_id : Segment → String
unfolding slice
segment_id p = elim p.client_segment_id [ none ↦ "" | some i ↦ slice 100 i ]

-- `entries.shift()` where there are too many, and the last half of the ids.
unfoldable pub cap_entries : List Entry → List Entry
cap_entries entries =
    if ltb max_transcript_entries (length entries) then drop 1 entries else entries

unfoldable pub cap_ids : List String → List String
cap_ids ids =
    if ltb (max_transcript_entries * 2) (length ids)
    then drop (length ids - max_transcript_entries) ids
    else ids

unfoldable pub new_entry : String → AuthUser → Segment → ℕ → Session → Entry
unfolding normalize
new_entry room_id user p now s = record {
  room = room_id;
  sequence = s.next_sequence;
  speaker = record { id = user.id; name = user.name; avatar = user.avatar };
  text = normalize p.text;
  ts = now;
  provider = if is_empty p.provider then "browser" else p.provider;
  provisional = p.provisional;
  revised_at = none;
}

unfoldable pub append_session : String → AuthUser → Segment → ℕ → Session → Session × AppendResult
unfolding normalize new_entry cap_entries cap_ids
append_session room_id user p now s =
    if not s.active
    then (s, inactive)
    else if is_empty (normalize p.text) || is_empty (segment_id p)
    then (s, invalid_segment)
    else if contains (segment_id p) s.seen_segment_ids
    then (s, duplicate)
    else (
      record s {
        next_sequence = suc s.next_sequence;
        entries = cap_entries (s.entries ++ new_entry room_id user p now s ∷ []);
        seen_segment_ids = cap_ids (add (segment_id p) s.seen_segment_ids);
      },
      appended (new_entry room_id user p now s),
    )

unfoldable pub append_transcript_segment :
    String → AuthUser → Segment → ℕ → Transcripts → Transcripts × AppendResult
unfolding append_session
append_transcript_segment room_id user p now t =
    let r = append_session room_id user p now (session_of room_id t) in
    (put_session room_id r.0 t, r.1)

abbrev pub revise : String → String → ℕ → Entry → Entry
revise text provider now e = record e {
  text = text;
  provider = if is_empty provider then e.provider else provider;
  provisional = false;
  revised_at = some now;
}

-- The first entry with the id, revised in its place.
unfoldable pub revise_entries :
    String → ℕ → (Entry → Entry) → List Entry → List Entry × Option Entry
revise_entries room_id sequence f [] = ([], none)
revise_entries room_id sequence f (e ∷ entries) =
    let rest = revise_entries room_id sequence f entries in
    if e.room == room_id && nat_beq e.sequence sequence
    then (f e ∷ entries, some (f e))
    else (e ∷ rest.0, rest.1)

-- The entry's id is a room and a number.
unfoldable pub revise_transcript_segment :
    String → String → ℕ → Option String → String → ℕ → Transcripts → Transcripts × Option Entry
unfolding revise_entries normalize
revise_transcript_segment room_id id_room sequence text provider now t =
    let s = session_of room_id t in
    let r = revise_entries id_room sequence (revise (normalize text) provider now) s.entries in
    if is_empty (normalize text)
    then (put_session room_id s t, none)
    else (put_session room_id (record s { entries = r.0 }) t, r.1)

unfoldable pub cancel_transcript_expiry : String → Transcripts → Transcripts
cancel_transcript_expiry room_id t = record t { expiry = remove room_id t.expiry }

unfoldable pub schedule_transcript_expiry : String → Transcripts → Transcripts
schedule_transcript_expiry room_id t = record t { expiry = add room_id t.expiry }

-- A room's timer fires, if it is set.
unfoldable pub expire : String → Transcripts → Transcripts
expire room_id t =
    if contains room_id t.expiry
    then record { sessions = delete room_id t.sessions; expiry = remove room_id t.expiry }
    else t

unfoldable pub clear_transcript : String → Transcripts → Transcripts
clear_transcript room_id t = record {
  sessions = delete room_id t.sessions;
  expiry = remove room_id t.expiry;
}
