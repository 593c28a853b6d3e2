-- ===== src/Client/Log/Tests.antt =====
-- A merge of a revised entry, and the theorem's instance for it.
use a_meet.Client.Log.{Entry, merge_transcript_entries, by_id, put_all, sort, insert}
use a_meet.Client.Log.Merge.{IsMerged, merge_transcript_entries-IsMerged}
use a_meet.Prelude.{ℕ, String, none, List, [], ◌∷◌, ◌≡◌, refl}
use a_meet.Prelude.Maps.{set}
use a_meet.Prelude.Text.{is_empty}

abbrev entry : String → ℕ → String → Entry
entry id n text = record { id = id; sequence = n; ts = 0; speaker = none; text = text }

abbrev own : List Entry
own = entry "a" 2 "helo" ∷ entry "b" 3 "bye" ∷ []

abbrev news : List Entry
news = entry "c" 1 "hi" ∷ entry "a" 2 "hello" ∷ []

revised :
    merge_transcript_entries own news
    ≡ entry "c" 1 "hi" ∷ entry "a" 2 "hello" ∷ entry "b" 3 "bye" ∷ []
unfolding merge_transcript_entries by_id put_all sort insert set is_empty
revised = refl

merge_transcript_entries-IsMerged_example : IsMerged own news (merge_transcript_entries own news)
merge_transcript_entries-IsMerged_example = merge_transcript_entries-IsMerged own news
