-- ===== src/Deepgram/Buffers.antt =====
-- What every event keeps of a session's buffers.
use a_meet.Prelude.{
  ℕ, ◌+◌, ◌-◌, ◌*◌, ◌≤◌, ◌≡◌, refl, Bool, true, false, not, ◌&&◌, List, [], ◌∷◌, ◌++◌, map, arith,
  if◌then◌else◌, length, ltb, nat_beq, All, All-append, All-drop, length-append, length-drop,
  Bool-cases, inl, inr, String,
}
use a_meet.Prelude.Text.{is_empty}
use a_meet.Deepgram.{
  Chunk, Session, Output, Message, Results, speech_started, results, other, new_session, start,
  on_open, on_error, on_close, total, begin_speech, hear, text_of, finish_utterance,
  handle_transcript, on_message, trim_chunks, roll, record_chunk, pass_on, send, begin_stop,
  finish_stop, live_text, concat, interim, final, send_media,
}

-- What `sendContributorAudio` lets pass.
abbrev pub IsSmall : Chunk → Type 0
IsSmall c = length c ≤ 65536

-- At most 6 chunks of pre-roll and 100 that wait; the utterance's bytes are counted, and at most 45
-- seconds of audio are kept.
pub record IsValid (s : Session) : Type 0 where
  pub rolled : length s.pre_roll ≤ 6
  pub small_roll : All IsSmall s.pre_roll
  pub waiting : length s.connect_buffer ≤ 100
  pub counted : s.utterance_byte_length ≡ total s.utterance_chunks
  pub bounded : s.utterance_byte_length ≤ 1440000
  pub small : All IsSmall s.utterance_chunks

total-le : (chunks : List Chunk) → All IsSmall chunks → total chunks ≤ 65536 * length chunks
total-le [] h = omega arith
total-le (c ∷ chunks) h = omega (arith, h.0, total-le chunks h.1)

total-append : (xs ys : List Chunk) → total (xs ++ ys) ≡ total xs + total ys
total-append [] ys = omega arith
total-append (x ∷ xs) ys = omega (arith, total-append xs ys)

length-concat : (chunks : List Chunk) → length (concat chunks) ≡ total chunks
length-concat [] = refl
length-concat (c ∷ chunks) = ground (arith, length-append c (concat chunks), length-concat chunks)

trim_chunks-bounded :
    (bytes : ℕ) (chunks : List Chunk)
    → bytes ≡ total chunks
    → All IsSmall chunks
    → ((trim_chunks bytes chunks).1 ≡ total (trim_chunks bytes chunks).0)
      × ((trim_chunks bytes chunks).1 ≤ 1440000)
      × All IsSmall (trim_chunks bytes chunks).0
unfolding trim_chunks
trim_chunks-bounded bytes [] e h = (e, ground arith, tt)
trim_chunks-bounded bytes (c ∷ []) e h = (e, ground arith, h)
trim_chunks-bounded bytes (c ∷ d ∷ chunks) e h =
    let rest = trim_chunks-bounded (bytes - length c) (d ∷ chunks) (omega (arith, e)) h.1 in
    elim (Bool-cases (ltb 1440000 bytes)) [
      | inl long ↦ rw long rest
      | inr short ↦ rw short (e, ground (arith, short), h)
    ]

roll-bounded :
    (chunk : Chunk) (pre : List Chunk)
    → IsSmall chunk
    → length pre ≤ 6
    → All IsSmall pre
    → (length (roll chunk pre) ≤ 6) × All IsSmall (roll chunk pre)
unfolding roll
roll-bounded chunk pre small few h =
    let all = All-append IsSmall pre (chunk ∷ []) h (small, tt) in
    let grown = length-append pre (chunk ∷ []) in
    elim (Bool-cases (ltb 6 (length (pre ++ chunk ∷ [])))) [
      | inl long ↦ rw long (
        ground (arith, few, grown, length-drop 1 (pre ++ chunk ∷ [])),
        All-drop IsSmall 1 (pre ++ chunk ∷ []) all,
      )
      | inr short ↦ rw short (ground (arith, short), all)
    ]

begin_speech-IsValid : (s : Session) → IsValid s → IsValid (begin_speech s)
unfolding begin_speech
begin_speech-IsValid s v = ground (arith, total-le s.pre_roll)

hear-IsValid :
    (text : String) (is_final : Bool) (s : Session) → IsValid s → IsValid (hear text is_final s)
unfolding hear
hear-IsValid text is_final s v = ground (arith, begin_speech-IsValid s)

finish_utterance-IsValid : (s : Session) → IsValid s → IsValid (finish_utterance s).0
unfolding finish_utterance
finish_utterance-IsValid s v = ground arith

handle_transcript-IsValid :
    (r : Results) (s : Session) → IsValid s → IsValid (handle_transcript r s).0
unfolding handle_transcript
handle_transcript-IsValid r s v = ground (
  arith,
  hear-IsValid (text_of r) r.is_final s,
  finish_utterance-IsValid (hear (text_of r) r.is_final s),
)

record_chunk-IsValid :
    (chunk : Chunk) (s : Session) → IsSmall chunk → IsValid s → IsValid (record_chunk chunk s)
unfolding record_chunk
record_chunk-IsValid chunk s small v =
    let grown = total-append s.utterance_chunks (chunk ∷ []) in
    let all = All-append IsSmall s.utterance_chunks (chunk ∷ []) v.small (small, tt) in
    let kept =
      trim_chunks-bounded (s.utterance_byte_length + length chunk)
        (s.utterance_chunks ++ chunk ∷ []) (omega (arith, grown, v.counted)) all in
    ground (arith, kept)

pass_on-IsValid : (chunk : Chunk) (s : Session) → IsValid s → IsValid (pass_on chunk s).0
unfolding pass_on
pass_on-IsValid chunk s v = ground (arith, length-append s.connect_buffer (chunk ∷ []))

send-IsValid : (chunk : Chunk) (s : Session) → IsSmall chunk → IsValid s → IsValid (send chunk s).0
unfolding send
send-IsValid chunk s small v =
    let rolled = roll-bounded chunk s.pre_roll small v.rolled v.small_roll in
    let t : Session = record s { pre_roll = roll chunk s.pre_roll } in
    let w : IsValid t = record {
      rolled = rolled.0;
      small_roll = rolled.1;
      waiting = v.waiting;
      counted = v.counted;
      bounded = v.bounded;
      small = v.small;
    } in
    ground
      (arith, pass_on-IsValid chunk (record_chunk chunk t) (record_chunk-IsValid chunk t small w))

-- What happens to a session.
pub data Step : Type 0 where
  starts : Step
  opens : Step
  errs : Step
  closes : Step
  hears : Message → Step
  sends : (c : Chunk) → IsSmall c → Step
  begins_stop : Step
  finishes_stop : Step

abbrev pub apply : Step → Session → Session × List Output
apply starts s = start s
apply opens s = on_open s
apply errs s = on_error s
apply closes s = on_close s
apply (hears m) s = on_message m s
apply (sends c small) s = send c s
apply begins_stop s = ((begin_stop s).0, (begin_stop s).1)
apply finishes_stop s = finish_stop s

abbrev pub run : List Step → Session → Session × List Output
run [] s = (s, [])
run (step ∷ steps) s =
    ((run steps (apply step s).0).0, (apply step s).1 ++ (run steps (apply step s).0).1)

apply-IsValid : (step : Step) (s : Session) → IsValid s → IsValid (apply step s).0
unfolding start on_open on_error on_close on_message begin_stop finish_stop
apply-IsValid starts s v = ground arith
apply-IsValid opens s v = ground arith
apply-IsValid errs s v = v
apply-IsValid closes s v = ground arith
apply-IsValid (hears speech_started) s v = begin_speech-IsValid s v
apply-IsValid (hears (results r)) s v = handle_transcript-IsValid r s v
apply-IsValid (hears other) s v = v
apply-IsValid (sends c small) s v = send-IsValid c s small v
apply-IsValid begins_stop s v = ground arith
apply-IsValid finishes_stop s v = ground arith

-- An utterance's audio is at most 45 seconds.
abbrev pub IsBounded : Output → Type 0
IsBounded (final number text audio) = length audio ≤ 1440000
IsBounded o = Unit

shown-IsBounded :
    (shown : Bool) (number : ℕ) (text : String)
    → All IsBounded (if shown then [] else interim number text ∷ [])
shown-IsBounded true number text = tt
shown-IsBounded false number text = (tt, tt)

send_media-IsBounded : (chunks : List Chunk) → All IsBounded (map send_media chunks)
send_media-IsBounded [] = tt
send_media-IsBounded (c ∷ chunks) = (tt, send_media-IsBounded chunks)

finish_utterance-IsBounded : (s : Session) → IsValid s → All IsBounded (finish_utterance s).1
unfolding finish_utterance
finish_utterance-IsBounded s v =
    (tt, (omega (arith, v.counted, v.bounded, length-concat s.utterance_chunks), tt))

handle_transcript-IsBounded :
    (r : Results) (s : Session) → IsValid s → All IsBounded (handle_transcript r s).1
unfolding handle_transcript
handle_transcript-IsBounded r s v =
    let heard = hear (text_of r) r.is_final s in
    let live = live_text heard.final_parts (if r.is_final then "" else text_of r) in
    let shown = shown-IsBounded (is_empty live) heard.utterance_number live in
    let ended = finish_utterance-IsBounded heard (hear-IsValid (text_of r) r.is_final s v) in
    elim (Bool-cases (r.speech_final && not (nat_beq (length heard.final_parts) 0))) [
      | inl over ↦ rw over (All-append IsBounded _ _ shown ended)
      | inr more ↦ rw more shown
    ]

apply-IsBounded : (step : Step) (s : Session) → IsValid s → All IsBounded (apply step s).1
unfolding start on_open on_error on_close on_message begin_stop finish_stop send pass_on
apply-IsBounded starts s v = ground arith
apply-IsBounded opens s v = ground (arith, send_media-IsBounded s.connect_buffer)
apply-IsBounded errs s v = (tt, tt)
apply-IsBounded closes s v = ground arith
apply-IsBounded (hears speech_started) s v = tt
apply-IsBounded (hears (results r)) s v = handle_transcript-IsBounded r s v
apply-IsBounded (hears other) s v = tt
apply-IsBounded (sends c small) s v = ground arith
apply-IsBounded begins_stop s v = ground arith
apply-IsBounded finishes_stop s v = (tt, (tt, tt))

run-IsValid :
    (steps : List Step) (s : Session)
    → IsValid s
    → IsValid (run steps s).0 × All IsBounded (run steps s).1
run-IsValid [] s v = (v, tt)
run-IsValid (step ∷ steps) s v =
    let (w, rest) = run-IsValid steps (apply step s).0 (apply-IsValid step s v) in
    (w, All-append IsBounded (apply step s).1 _ (apply-IsBounded step s v) rest)

-- Whatever happens to a new session, whose chunks are of at most 64 KiB as `sendContributorAudio`
-- makes sure: at most 6 chunks of pre-roll and 100 that wait are kept, the utterance's bytes are
-- counted right, and neither what is kept of an utterance nor the audio that any utterance ends with
-- is longer than 45 seconds.
pub run-IsBounded :
    (steps : List Step)
    → IsValid (run steps new_session).0 × All IsBounded (run steps new_session).1
run-IsBounded steps = run-IsValid steps new_session (ground arith)
