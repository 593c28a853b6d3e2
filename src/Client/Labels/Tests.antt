-- ===== src/Client/Labels/Tests.antt =====
-- A meeting in twenty minutes.
use a_meet.Client.Labels.{in_the_future, minutes, relative_time, phrase_of}
use a_meet.Client.Labels.Legible.{IsTrue, relative_time-IsTrue}
use a_meet.Prelude.{◌≡◌, refl}

twenty : relative_time 1200000 0 ≡ in_the_future (minutes 20)
unfolding relative_time phrase_of
twenty = refl

relative_time-IsTrue_example : IsTrue 1200000 0 (relative_time 1200000 0)
relative_time-IsTrue_example = relative_time-IsTrue 1200000 0
