-- ===== src/Client/Log.antt =====
-- client/src/utils/transcript.ts: a participant's copy of the transcript and how it is merged with what
-- the server sends, and the text that is downloaded. An entry without an id has the empty text for
-- one. JavaScript's sort is stable, as this one is; the label of a time is a parameter.
pub mod Merge
mod Tests
use Prim.Native.String.{◌++◌ as str_append}
use a_meet.Prelude.{
  ℕ, String, Bool, true, false, Option, none, some, List, [], ◌∷◌, ◌++◌, map, leb, or_else,
  if◌then◌else◌,
}
use a_meet.Prelude.Maps.{set, values}
use a_meet.Prelude.Text.{is_empty}

pub record Entry : Type 0 where
  pub id : String
  pub sequence : ℕ
  pub ts : ℕ
  pub speaker : Option String
  pub text : String

-- `new Map(current.map(...))`
unfoldable pub by_id : List Entry → List (String × Entry) → List (String × Entry)
by_id [] m = m
by_id (e ∷ es) m = by_id es (set e.id e m)

-- What came in replaces the entry with its id; without an id it is passed over.
unfoldable pub put_all : List Entry → List (String × Entry) → List (String × Entry)
put_all [] m = m
put_all (e ∷ es) m = put_all es (if is_empty e.id then m else set e.id e m)

-- By sequence, equal ones in their order
unfoldable pub insert : Entry → List Entry → List Entry
insert e [] = e ∷ []
insert e (x ∷ xs) =
    let rest = insert e xs in if leb e.sequence x.sequence then e ∷ x ∷ xs else x ∷ rest

unfoldable pub sort : List Entry → List Entry
unfolding insert
sort [] = []
sort (e ∷ es) = insert e (sort es)

unfoldable pub merge_transcript_entries : List Entry → List Entry → List Entry
unfolding by_id put_all sort
merge_transcript_entries current incoming = sort (values (put_all incoming (by_id current [])))

abbrev join_lines : List String → String
join_lines [] = ""
join_lines (l ∷ []) = l
join_lines (l ∷ ls) = str_append l (str_append "\n" (join_lines ls))

abbrev or_named : Option String → String → String
or_named none d = d
or_named (some t) d = if is_empty t then d else t

-- `formatTranscript`
unfoldable pub format_transcript : (ℕ → String) → List Entry → String → Option String → String
format_transcript label entries room_id title =
    let line : Entry → String = λ e. str_append "[" (
      str_append (label e.ts) (
        str_append "] "
          (str_append (or_named e.speaker "Participant") (str_append ": " e.text)))) in
    str_append
      (join_lines (
        "A Meet transcript"
        ∷ or_named title (str_append "Meeting " room_id)
        ∷ str_append "Room: " room_id
        ∷ "Language: English (United States)"
        ∷ ""
        ∷ map line entries))
      "\n"
