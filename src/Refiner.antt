-- ===== src/Refiner.antt =====
-- server/src/transcription/groq-refiner.ts: the second look at an utterance by Groq. The WAV file is
-- the list of its bytes. What the two services answer, English lower case, and what the two regular
-- expressions of `cleanTranscript` remove are arguments. The two quotients that the source compares,
-- with 0.12 and with 1.6, are compared as products. The context that Groq is given is left out.
pub mod Wav
pub mod Distance
pub mod Refine
mod Tests
use Prim.Native.Char.{code}
use a_meet.Prelude.{
  ℕ, zero, suc, ◌+◌, ◌-◌, ◌*◌, ◌/◌, ◌%◌, ◌^◌, min, max, String, ◌==◌, Bool, true, false, ◌&&◌, ◌||◌,
  not, Option, none, some, List, [], ◌∷◌, ◌++◌, if◌then◌else◌, length, ltb, leb, nat_beq, or_else,
  get_elem?,
}
use a_meet.Prelude.Text.{is_empty, is_space, trim, utf16_length}
use a_meet.Transcript.{collapse, normalize}

abbrev pub sample_rate : ℕ
sample_rate = 16000

-- Math.round(16000 * 2 * 0.45)
abbrev pub min_audio_bytes : ℕ
min_audio_bytes = 14400

-- `writeUInt16LE` and `writeUInt32LE`
abbrev pub u16_le : ℕ → List ℕ
u16_le n = n % 256 ∷ n / 256 % 256 ∷ []

abbrev pub u32_le : ℕ → List ℕ
u32_le n = n % 256 ∷ n / 256 % 256 ∷ n / 65536 % 256 ∷ n / 16777216 % 256 ∷ []

-- "RIFF", "WAVE", "fmt " and "data"
abbrev pub riff : List ℕ
riff = 82 ∷ 73 ∷ 70 ∷ 70 ∷ []

abbrev pub wave : List ℕ
wave = 87 ∷ 65 ∷ 86 ∷ 69 ∷ []

abbrev pub fmt_ : List ℕ
fmt_ = 102 ∷ 109 ∷ 116 ∷ 32 ∷ []

abbrev pub data_ : List ℕ
data_ = 100 ∷ 97 ∷ 116 ∷ 97 ∷ []

unfoldable pub wav_header : ℕ → List ℕ
wav_header size =
    riff
    ++ (u32_le (36 + size)
        ++ (wave
            ++ (fmt_
                ++ (u32_le 16
                    ++ (u16_le 1
                        ++ (u16_le 1
                            ++ (u32_le sample_rate
                                ++ (u32_le (sample_rate * 2)
                                    ++ (u16_le 2 ++ (u16_le 16 ++ (data_ ++ u32_le size)))))))))))

unfoldable pub build_pcm16_wav : List ℕ → List ℕ
unfolding wav_header
build_pcm16_wav pcm = wav_header (length pcm) ++ pcm

-- `current[j]` from `current[j - 1]`, `previous[j]` and `previous[j - 1]`.
abbrev pub cell : ℕ → ℕ → ℕ → Bool → ℕ
cell left above diagonal same =
    min (min (left + 1) (above + 1)) (diagonal + (if same then 0 else 1))

-- The cells of a row after the first, for the letter `x`: from the cell before them, and the row
-- above from there on.
unfoldable pub next_cells : ℕ → ℕ → List ℕ → List ℕ → List ℕ
next_cells x left (diagonal ∷ above ∷ previous) (y ∷ ys) =
    let here = cell left above diagonal (nat_beq x y) in
    here ∷ next_cells x here (above ∷ previous) ys
next_cells x left (diagonal ∷ []) ys = []
next_cells x left [] ys = []
next_cells x left (diagonal ∷ above ∷ previous) [] = []

-- The indices of `b` and its length, from this one on.
unfoldable pub first_row : ℕ → List ℕ → List ℕ
first_row n [] = n ∷ []
first_row n (y ∷ ys) = n ∷ first_row (suc n) ys

-- The outer loop: the letters that are left, after `i` of them.
unfoldable pub rows : ℕ → List ℕ → List ℕ → List ℕ → List ℕ
unfolding next_cells
rows i previous [] b = previous
rows i previous (x ∷ a) b = rows (suc i) (suc i ∷ next_cells x (suc i) previous b) a b

unfoldable pub levenshtein : List ℕ → List ℕ → ℕ
unfolding first_row rows
levenshtein [] b = length b
levenshtein (x ∷ a) [] = length (x ∷ a)
levenshtein (x ∷ a) (y ∷ b) =
    or_else (get_elem? (rows 0 (first_row 0 (y ∷ b)) (x ∷ a) (y ∷ b)) (length (y ∷ b))) 0

-- What `[^a-z0-9\s]` does not match.
abbrev is_lexical : ℕ → Bool
is_lexical c = (leb 97 c && leb c 122) || (leb 48 c && leb c 57) || is_space c

unfoldable pub strip : String → String
unfolding is_space
strip String.[] = String.[]
strip (String.◌∷◌ c s) =
    let rest = strip s in if is_lexical (code c) then String.◌∷◌ c rest else rest

abbrev pub codes : String → List ℕ
codes String.[] = []
codes (String.◌∷◌ c s) = code c ∷ codes s

-- What the refiner is given: English lower case, the two removals of `cleanTranscript`, whether
-- there is a client and a model for the merge.
pub record Setting : Type 0 where
  pub lower : String → String
  pub remove_marks : String → String
  pub has_client : Bool
  pub has_merge_model : Bool

unfoldable pub lexical_form : Setting → String → String
unfolding strip
lexical_form c text = trim (collapse false (strip (c.lower text)))

-- A text that is none is the empty one.
unfoldable pub clean_transcript : Setting → Option String → String
clean_transcript c none = ""
clean_transcript c (some text) = normalize (some (c.remove_marks text))

-- `split(' ').length`
unfoldable pub words : List ℕ → ℕ
words [] = 1
words (x ∷ xs) = (if nat_beq x 32 then 1 else 0) + words xs

-- The quotient is above 0.12.
abbrev is_far : ℕ → ℕ → Bool
is_far distance longest = ltb (3 * longest) (25 * distance)

unfoldable pub should_merge : Setting → String → String → Bool
unfolding lexical_form levenshtein words
should_merge c groq deepgram =
    let a = codes (lexical_form c groq) in
    let b = codes (lexical_form c deepgram) in
    if lexical_form c groq == lexical_form c deepgram
    then false
    else is_far (levenshtein a b) (max (max (length a) (length b)) 1)
      || not (nat_beq (words a) (words b))

-- A service fails, or answers with a text or something else.
pub data Answer : Type 0 where
  fails : Answer
  answers : Option String → Answer

pub record Refined : Type 0 where
  pub text : String
  pub provider : String

abbrev pub unrefined : String → Refined
unrefined deepgram = record { text = deepgram; provider = "deepgram" }

-- At most 1.6 times the longer text and 30 units.
abbrev pub is_plausible : String → String → String → Bool
is_plausible merged groq deepgram =
    leb (10 * utf16_length merged) (16 * max (utf16_length groq) (utf16_length deepgram) + 300)

abbrev pub merged_or : String → String → String → Refined
merged_or merged groq deepgram =
    if not (is_empty merged) && is_plausible merged groq deepgram
    then record { text = merged; provider = "deepgram+groq+merge" }
    else record { text = groq; provider = "deepgram+groq" }

unfoldable pub merge : Setting → Answer → String → String → Refined
unfolding should_merge clean_transcript
merge c answer groq deepgram =
    if should_merge c groq deepgram && c.has_merge_model
    then elim answer [
      | fails ↦ record { text = groq; provider = "deepgram+groq" }
      | answers text ↦ merged_or (clean_transcript c text) groq deepgram
    ]
    else record { text = groq; provider = "deepgram+groq" }

-- With what the transcription and the merge answer, if they are asked.
unfoldable pub refine : Setting → ℕ → String → Answer → Answer → Refined
unfolding merge clean_transcript
refine c bytes deepgram transcription merging =
    if not c.has_client || ltb bytes min_audio_bytes
    then unrefined deepgram
    else elim transcription [
      | fails ↦ unrefined deepgram
      | answers text ↦
          if is_empty (clean_transcript c text)
          then unrefined deepgram
          else merge c merging (clean_transcript c text) deepgram
    ]
