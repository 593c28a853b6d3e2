-- ===== src/Deepgram.antt =====
-- server/src/transcription/deepgram-session.ts: one contributor's stream to the speech provider. A
-- chunk of audio is the list of its bytes, and an utterance's id is its number, the part of the id
-- that changes in a session. The provider's connection and its events are parameters: its calls are
-- outputs, and its events are functions of their own. `start` and `stop` are cut where they wait.
pub mod Buffers
pub mod Order
pub mod Utterances
mod Tests
use Prim.Native.String.{◌++◌ as str_append}
use a_meet.Prelude.{
  ℕ, suc, ◌+◌, ◌-◌, ◌*◌, String, ◌==◌, Bool, true, false, ◌&&◌, ◌||◌, not, Option, none, some, List,
  [], ◌∷◌, ◌++◌, map, if◌then◌else◌, length, drop, ltb, nat_beq, select,
}
use a_meet.Prelude.Text.{is_empty, trim}
use a_meet.Transcript.{collapse}

abbrev pub max_connect_buffer_chunks : ℕ
max_connect_buffer_chunks = 100

-- 16000 * 2 * 45
abbrev pub max_utterance_bytes : ℕ
max_utterance_bytes = 1440000

abbrev pub pre_roll_chunks : ℕ
pre_roll_chunks = 6

abbrev pub Chunk : Type 0
Chunk = List ℕ

pub record Session : Type 0 where
  pub connection : Bool
  pub connected : Bool
  pub stopping : Bool
  pub connect_buffer : List Chunk
  pub pre_roll : List Chunk
  pub utterance_chunks : List Chunk
  pub utterance_byte_length : ℕ
  pub final_parts : List String
  pub speech_active : Bool
  pub utterance_number : ℕ

pub data Output : Type 0 where
  -- `onStatus`
  connecting : Output
  listening : Output
  failing : String → Output
  -- `onInterim` and `onFinal`, with the utterance's number
  interim : ℕ → String → Output
  final : ℕ → String → Chunk → Output
  -- calls of the connection
  connect : Output
  send_media : Chunk → Output
  send_finalize : Output
  send_close_stream : Output
  close : Output

abbrev pub new_session : Session
new_session = record {
  connection = false;
  connected = false;
  stopping = false;
  connect_buffer = [];
  pre_roll = [];
  utterance_chunks = [];
  utterance_byte_length = 0;
  final_parts = [];
  speech_active = false;
  utterance_number = 1;
}

-- The provider's library has made a connection.
unfoldable pub start : Session → Session × List Output
start s =
    if s.stopping
    then (s, close ∷ [])
    else (record s { connection = true }, connecting ∷ connect ∷ [])

unfoldable pub on_open : Session → Session × List Output
on_open s = if not s.connection || s.stopping then (s, []) else (
  record s { connected = true; connect_buffer = [] },
  listening ∷ map send_media s.connect_buffer,
)

unfoldable pub on_error : Session → Session × List Output
on_error s = (s, failing "Live transcription provider disconnected." ∷ [])

unfoldable pub on_close : Session → Session × List Output
on_close s = (
  record s { connected = false },
  if s.stopping then [] else failing "Live transcription provider closed unexpectedly." ∷ [],
)

abbrev pub total : List Chunk → ℕ
total [] = 0
total (c ∷ chunks) = length c + total chunks

unfoldable pub begin_speech : Session → Session
begin_speech s = if s.speech_active then s else record s {
  speech_active = true;
  utterance_chunks = s.pre_roll;
  utterance_byte_length = total s.pre_roll;
  final_parts = [];
}

-- `parts.filter(Boolean).join(' ')`
abbrev pub join_space : List String → String
join_space [] = ""
join_space (x ∷ []) = x
join_space (x ∷ y ∷ xs) = str_append x (str_append " " (join_space (y ∷ xs)))

abbrev pub last_is : String → List String → Bool
last_is text [] = false
last_is text (x ∷ []) = x == text
last_is text (x ∷ y ∷ xs) = last_is text (y ∷ xs)

-- A text that repeats the last part is not added.
unfoldable pub add_part : String → List String → List String
add_part text parts = if last_is text parts then parts else parts ++ text ∷ []

abbrev is_written : String → Bool
is_written text = not (is_empty text)

unfoldable pub live_text : List String → String → String
live_text parts text = trim (join_space (select is_written (parts ++ text ∷ [])))

abbrev pub concat : List Chunk → Chunk
concat [] = []
concat (c ∷ chunks) = c ++ concat chunks

-- The end of an utterance, which has at least one part.
unfoldable pub finish_utterance : Session → Session × List Output
finish_utterance s = (
  record s {
    utterance_number = suc s.utterance_number;
    speech_active = false;
    utterance_chunks = [];
    utterance_byte_length = 0;
    final_parts = [];
    pre_roll = [];
  },
  interim s.utterance_number ""
      ∷ final s.utterance_number (trim (collapse false (join_space s.final_parts)))
          (concat s.utterance_chunks)
      ∷ [],
)

pub record Results : Type 0 where
  -- the transcript of the first alternative, if there is one
  pub transcript : Option String
  pub is_final : Bool
  pub speech_final : Bool

abbrev pub text_of : Results → String
text_of r = elim r.transcript [ none ↦ "" | some t ↦ trim t ]

-- The session once the text is known: speech begins with it, and a final text is a part.
unfoldable pub hear : String → Bool → Session → Session
unfolding begin_speech add_part
hear text is_final s =
    let b = if is_empty text then s else begin_speech s in
    if not (is_empty text) && is_final
    then record b { final_parts = add_part text b.final_parts }
    else b

unfoldable pub handle_transcript : Results → Session → Session × List Output
unfolding hear live_text finish_utterance
handle_transcript r s =
    let heard = hear (text_of r) r.is_final s in
    let live = live_text heard.final_parts (if r.is_final then "" else text_of r) in
    let shown = if is_empty live then [] else interim heard.utterance_number live ∷ [] in
    if r.speech_final && not (nat_beq (length heard.final_parts) 0)
    then ((finish_utterance heard).0, shown ++ (finish_utterance heard).1)
    else (heard, shown)

pub data Message : Type 0 where
  speech_started : Message
  results : Results → Message
  other : Message

unfoldable pub on_message : Message → Session → Session × List Output
unfolding handle_transcript
on_message speech_started s = (begin_speech s, [])
on_message (results r) s = handle_transcript r s
on_message other s = (s, [])

-- The `while` loop that drops the oldest chunks of a long utterance, but not the last one.
unfoldable pub trim_chunks : ℕ → List Chunk → List Chunk × ℕ
trim_chunks bytes [] = ([], bytes)
trim_chunks bytes (c ∷ []) = (c ∷ [], bytes)
trim_chunks bytes (c ∷ d ∷ chunks) =
    let rest = trim_chunks (bytes - length c) (d ∷ chunks) in
    if ltb max_utterance_bytes bytes then rest else (c ∷ d ∷ chunks, bytes)

unfoldable pub roll : Chunk → List Chunk → List Chunk
roll chunk pre =
    if ltb pre_roll_chunks (length (pre ++ chunk ∷ []))
    then drop 1 (pre ++ chunk ∷ [])
    else pre ++ chunk ∷ []

-- A chunk joins the utterance, if there is one.
unfoldable pub record_chunk : Chunk → Session → Session
unfolding trim_chunks
record_chunk chunk s =
    let kept =
      trim_chunks (s.utterance_byte_length + length chunk) (s.utterance_chunks ++ chunk ∷ []) in
    if s.speech_active
    then record s { utterance_chunks = kept.0; utterance_byte_length = kept.1 }
    else s

-- A chunk goes to the provider, or waits for the connection to open.
unfoldable pub pass_on : Chunk → Session → Session × List Output
pass_on chunk s =
    if s.connected
    then (s, if s.connection then send_media chunk ∷ [] else [])
    else if ltb (length s.connect_buffer) max_connect_buffer_chunks
    then (record s { connect_buffer = s.connect_buffer ++ chunk ∷ [] }, [])
    else (s, [])

unfoldable pub send : Chunk → Session → Session × List Output
unfolding record_chunk roll pass_on
send chunk s =
    if s.stopping || nat_beq (length chunk) 0
    then (s, [])
    else pass_on chunk (record_chunk chunk (record s { pre_roll = roll chunk s.pre_roll }))

abbrev pub closed : Session → Session
closed s = record s {
  connection = false;
  connected = false;
  connect_buffer = [];
  pre_roll = [];
  utterance_chunks = [];
  utterance_byte_length = 0;
}

-- With whether the provider is given time for its last results.
unfoldable pub begin_stop : Session → Session × List Output × Bool
begin_stop s =
    if s.stopping
    then (s, [], false)
    else if not s.connection
    then (record s { stopping = true }, [], false)
    else if s.connected
    then (record s { stopping = true }, send_finalize ∷ [], true)
    else (closed (record s { stopping = true }), close ∷ [], false)

-- The time is over.
unfoldable pub finish_stop : Session → Session × List Output
finish_stop s = (closed s, send_close_stream ∷ close ∷ [])
