-- ===== src/Transcript/Tests.antt =====
-- Tests of the transcript, and the theorems at concrete inputs.
use a_meet.Prelude.{◌≡◌, refl, true, false, some, List, [], ◌∷◌, arith}
use a_meet.Prelude.Maps.{contains, add}
use a_meet.Prelude.Text.{is_empty, is_space, trim, trim_start, trim_end, units}
use a_meet.Sfu.Sample.{ann, bob}
use a_meet.Transcript.{
  Session, Segment, create_session, start_session, new_entry, append_session, cap_entries, cap_ids,
  collapse, slice, normalize, duplicate, appended,
}
use a_meet.Transcript.Entries.{Operation, start_by, append, revise_at, run, IsValid, run-IsValid}
use a_meet.Transcript.Retries.{Delivery, deliver, append_session-retried}

transcribing : Unit {0}
unfolding append_session new_entry cap_entries cap_ids collapse slice normalize contains add
    is_empty is_space trim trim_start trim_end units
transcribing = tt

abbrev hello : Segment
hello = record {
  text = some "  hello   world ";
  client_segment_id = some "c1";
  provider = "";
  provisional = true;
}

abbrev started : Session
started = start_session ann 5 create_session

normalized : normalize (some "  hello   world ") ≡ "hello world"
unfolding transcribing
normalized = refl

taken : (append_session "r" ann hello 7 started).1 ≡ appended (new_entry "r" ann hello 7 started)
unfolding transcribing
taken = refl

abbrev others_between : List Delivery
others_between =
    (
      bob,
      record {
        text = some "yes";
        client_segment_id = some "c2";
        provider = "";
        provisional = false;
      },
      8,
    )
    ∷ []

append_session-retried_example :
    append_session "r" ann hello 9
      (deliver "r" others_between (append_session "r" ann hello 7 started).0)
    ≡ (deliver "r" others_between (append_session "r" ann hello 7 started).0, duplicate)
append_session-retried_example =
    append_session-retried "r" ann hello 7 (new_entry "r" ann hello 7 started) started
      others_between ann 9 taken (ground arith)

abbrev meeting : List Operation
meeting = start_by ann 5 ∷ append ann hello 7 ∷ revise_at "r" 1 "Hello, world." "groq" 9 ∷ []

run-IsValid_example : IsValid "r" (run "r" meeting create_session)
run-IsValid_example = run-IsValid "r" meeting
