-- ===== src/Deepgram/Utterances.antt =====
-- The numbers of the utterances that a session ends.
use a_meet.Prelude.{
  ℕ, suc, ◌≡◌, refl, subst, sym, Bool, not, ◌&&◌, List, [], ◌∷◌, ◌++◌, map, arith, if◌then◌else◌,
  length, nat_beq, Bool-cases, inl, inr, String,
}
use a_meet.Prelude.Text.{is_empty}
use a_meet.Deepgram.{
  Chunk, Session, Output, Results, speech_started, results, other, start, on_open, on_error,
  on_close, begin_speech, hear, text_of, finish_utterance, handle_transcript, on_message,
  record_chunk, pass_on, send, begin_stop, finish_stop, live_text, final, send_media,
}
use a_meet.Deepgram.Buffers.{
  Step, starts, opens, errs, closes, hears, sends, begins_stop, finishes_stop, apply, run,
}

abbrev pub finals : List Output → List ℕ
finals [] = []
finals ((final number text audio) ∷ outs) = number ∷ finals outs
finals (o ∷ outs) = finals outs

-- The numbers from the first to the last but one, in their order.
abbrev pub IsRange : ℕ → List ℕ → ℕ → Type 0
IsRange n [] m = n ≡ m
IsRange n (x ∷ xs) m = (x ≡ n) × IsRange (suc n) xs m

IsRange-append :
    (n k m : ℕ) (xs ys : List ℕ) → IsRange n xs k → IsRange k ys m → IsRange n (xs ++ ys) m
IsRange-append n k m [] ys h g = subst (λ i. IsRange i ys m) (sym h) g
IsRange-append n k m (x ∷ xs) ys h g = (h.0, IsRange-append (suc n) k m xs ys h.1 g)

finals-append : (xs ys : List Output) → finals (xs ++ ys) ≡ finals xs ++ finals ys
finals-append [] ys = refl
finals-append (x ∷ xs) ys = ground (arith, finals-append xs ys)

finals-send_media : (chunks : List Chunk) → finals (map send_media chunks) ≡ []
finals-send_media [] = refl
finals-send_media (c ∷ chunks) = finals-send_media chunks

begin_speech-number : (s : Session) → (begin_speech s).utterance_number ≡ s.utterance_number
unfolding begin_speech
begin_speech-number s = ground arith

hear-number :
    (text : String) (is_final : Bool) (s : Session)
    → (hear text is_final s).utterance_number ≡ s.utterance_number
unfolding hear
hear-number text is_final s = ground (arith, begin_speech-number s)

-- An utterance that is over is the next one of its session.
handle_transcript-IsRange :
    (r : Results) (s : Session)
    → IsRange s.utterance_number
        (finals (handle_transcript r s).1)
        (handle_transcript r s).0.utterance_number
unfolding handle_transcript finish_utterance
handle_transcript-IsRange r s =
    let heard = hear (text_of r) r.is_final s in
    let live = live_text heard.final_parts (if r.is_final then "" else text_of r) in
    let same = hear-number (text_of r) r.is_final s in
    elim (Bool-cases (r.speech_final && not (nat_beq (length heard.final_parts) 0))) [
      | inl over ↦ rw over (elim (Bool-cases (is_empty live)) [
        | inl hidden ↦ rw hidden (same, sym (ground (arith, same)))
        | inr shown ↦ rw shown (same, sym (ground (arith, same)))
      ])
      | inr more ↦ rw more (elim (Bool-cases (is_empty live)) [
        | inl hidden ↦ rw hidden (sym same)
        | inr shown ↦ rw shown (sym same)
      ])
    ]

apply-IsRange :
    (step : Step) (s : Session)
    → IsRange s.utterance_number (finals (apply step s).1) (apply step s).0.utterance_number
unfolding start on_open on_error on_close on_message begin_stop finish_stop send pass_on
    record_chunk
apply-IsRange starts s = ground arith
apply-IsRange opens s = ground (arith, finals-send_media s.connect_buffer)
apply-IsRange errs s = refl
apply-IsRange closes s = ground arith
apply-IsRange (hears speech_started) s = sym (begin_speech-number s)
apply-IsRange (hears (results r)) s = handle_transcript-IsRange r s
apply-IsRange (hears other) s = refl
apply-IsRange (sends c small) s = ground arith
apply-IsRange begins_stop s = ground arith
apply-IsRange finishes_stop s = refl

-- Whatever happens to a session, the utterances that end in it carry the numbers from the session's
-- on, each once and in their order: so do their ids, which the transcript takes for the segments'.
pub run-IsRange :
    (steps : List Step) (s : Session)
    → IsRange s.utterance_number (finals (run steps s).1) (run steps s).0.utterance_number
run-IsRange [] s = refl
run-IsRange (step ∷ steps) s =
    let t = (apply step s).0 in
    subst (λ l. IsRange s.utterance_number l (run steps t).0.utterance_number)
      (sym (finals-append (apply step s).1 (run steps t).1))
      (IsRange-append s.utterance_number t.utterance_number (run steps t).0.utterance_number
        (finals (apply step s).1) (finals (run steps t).1) (apply-IsRange step s)
        (run-IsRange steps t))
