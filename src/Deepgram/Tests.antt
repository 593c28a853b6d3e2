-- ===== src/Deepgram/Tests.antt =====
-- Tests of the provider's session, and the theorems at concrete inputs.
use a_meet.Prelude.{◌≡◌, refl, true, some, List, [], ◌∷◌, arith, All}
use a_meet.Prelude.Text.{is_empty, is_space, trim, trim_start, trim_end}
use a_meet.Transcript.{collapse}
use a_meet.Deepgram.{
  Chunk, Session, Results, results, speech_started, new_session, start, on_open, on_close,
  begin_speech, add_part, hear, live_text, finish_utterance, handle_transcript, on_message,
  trim_chunks, roll, record_chunk, pass_on, send, begin_stop, finish_stop, interim, final,
}
use a_meet.Deepgram.Buffers.{
  Step, starts, opens, hears, sends, run, IsValid, IsBounded, run-IsBounded,
}
use a_meet.Deepgram.Utterances.{finals}

streaming : Unit {0}
unfolding start on_open on_close begin_speech add_part hear live_text finish_utterance
    handle_transcript on_message trim_chunks roll record_chunk pass_on send begin_stop finish_stop
    is_empty is_space trim trim_start trim_end collapse
streaming = tt

abbrev chunk_1 : Chunk
chunk_1 = 1 ∷ 2 ∷ []

abbrev chunk_2 : Chunk
chunk_2 = 3 ∷ []

abbrev said : Results
said = record { transcript = some " hello  all "; is_final = true; speech_final = true }

abbrev turn : List Step
turn =
    starts
    ∷ sends chunk_1 (omega arith)
    ∷ opens
    ∷ hears speech_started
    ∷ sends chunk_2 (omega arith)
    ∷ hears (results said)
    ∷ hears (results said)
    ∷ []

-- The pre-roll belongs to the utterance, and its text is collapsed.
one_turn :
    (run (hears (results said) ∷ []) (run (sends chunk_1 (omega arith) ∷ []) new_session).0).1
    ≡ interim 1 "hello  all" ∷ interim 1 "" ∷ final 1 "hello all" chunk_1 ∷ []
unfolding streaming
one_turn = refl

two_finals : finals (run turn new_session).1 ≡ 1 ∷ 2 ∷ []
unfolding streaming
two_finals = refl

run-IsBounded_example : IsValid (run turn new_session).0 × All IsBounded (run turn new_session).1
run-IsBounded_example = run-IsBounded turn

abbrev ready : Session
ready = record new_session { connection = true }
