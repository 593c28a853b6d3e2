-- ===== src/Refiner/Tests.antt =====
-- Tests of the refiner, and the theorems at concrete inputs.
use a_meet.Prelude.{◌≤◌, ◌≡◌, refl, true, false, some, [], ◌∷◌, ◌++◌, arith}
use a_meet.Prelude.Text.{is_empty, is_space, trim, trim_start, trim_end, units, utf16_length}
use a_meet.Transcript.{collapse, slice, normalize}
use a_meet.Refiner.{
  Setting, fails, answers, build_pcm16_wav, wav_header, next_cells, first_row, rows, levenshtein,
  strip, lexical_form, clean_transcript, words, should_merge, merge, refine,
}
use a_meet.Refiner.Wav.{read_wav, read_wav-build_pcm16_wav}
use a_meet.Refiner.Distance.{Edit, done, omit, change, cost, levenshtein-IsLeast}
use a_meet.Refiner.Refine.{Outcome, refine-Outcome}

refining : Unit {0}
unfolding wav_header build_pcm16_wav next_cells first_row rows levenshtein strip lexical_form
    clean_transcript words should_merge merge refine is_empty is_space trim trim_start trim_end
    units utf16_length collapse slice normalize
refining = tt

-- Two words that three edits part
kitten_sitting :
    levenshtein
      (107 ∷ 105 ∷ 116 ∷ 116 ∷ 101 ∷ 110 ∷ [])
      (115 ∷ 105 ∷ 116 ∷ 116 ∷ 105 ∷ 110 ∷ 103 ∷ [])
    ≡ 3
unfolding refining
kitten_sitting = refl

abbrev setting : Setting
setting = record {
  lower = λ t. t;
  remove_marks = λ t. t;
  has_client = true;
  has_merge_model = true;
}

punctuation_alone : should_merge setting "hello, all" "hello all" ≡ false
unfolding refining
punctuation_alone = refl

merged_text :
    refine setting 20000 "hallo al" (answers (some "hello all")) (answers (some "Hello, all."))
    ≡ record { text = "Hello, all."; provider = "deepgram+groq+merge" }
unfolding refining
merged_text = refl

groq_alone :
    refine setting 20000 "hallo al" (answers (some "hello all")) fails
    ≡ record { text = "hello all"; provider = "deepgram+groq" }
unfolding refining
groq_alone = refl

read_wav-build_pcm16_wav_example :
    read_wav (build_pcm16_wav (1 ∷ 2 ∷ []) ++ 9 ∷ [])
    ≡ some (
      record {
        riff_size = 38;
        encoding = 1;
        channels = 1;
        rate = 16000;
        byte_rate = 32000;
        block = 2;
        bits = 16;
        samples = 1 ∷ 2 ∷ [];
      },
      9 ∷ [],
    )
read_wav-build_pcm16_wav_example = read_wav-build_pcm16_wav (1 ∷ 2 ∷ []) (9 ∷ []) (omega arith)

abbrev shorten : Edit (1 ∷ 2 ∷ []) (2 ∷ [])
shorten = change 1 2 (omit 2 done)

levenshtein-IsLeast_example :
    ((e : Edit (1 ∷ 2 ∷ []) (2 ∷ [])) × (cost e ≡ levenshtein (1 ∷ 2 ∷ []) (2 ∷ [])))
    × (levenshtein (1 ∷ 2 ∷ []) (2 ∷ []) ≤ 2)
levenshtein-IsLeast_example = levenshtein-IsLeast (1 ∷ 2 ∷ []) (2 ∷ []) shorten

refine-Outcome_example :
    Outcome setting 20000 "hallo"
      (answers (some "hello"))
      fails
      (refine setting 20000 "hallo" (answers (some "hello")) fails)
refine-Outcome_example = refine-Outcome setting 20000 "hallo" (answers (some "hello")) fails

given : is_empty "hallo" ≡ false
unfolding refining
given = refl
