-- ===== src/Contributors/Tests.antt =====
-- Tests of the contributors, and the theorem on their audio at a concrete input.
use a_meet.Prelude.{ℕ, ◌+◌, ◌-◌, ◌*◌, ◌≤◌, ◌≡◌, refl, false, List, [], ◌∷◌, arith}
use a_meet.Prelude.Maps.{get, set, delete}
use a_meet.Contributors.{
  Active, Sessions, send_at, send_contributor_audio, stop_contributor, contributors_of, stop_all,
  stop_room_contributors,
}
use a_meet.Contributors.Window.{sent_bytes, last_time, send_at-rate}

contributing : Unit {0}
unfolding send_at send_contributor_audio stop_contributor contributors_of stop_all
    stop_room_contributors get set delete
contributing = tt

abbrev fresh : Active
fresh = record { room_id = "r"; window_started_at = 0; window_bytes = 0 }

abbrev elsewhere : Active
elsewhere = record { room_id = "q"; window_started_at = 0; window_bytes = 0 }

abbrev three : Sessions
three = ("s1", fresh) ∷ ("s2", elsewhere) ∷ ("s3", fresh) ∷ []

room_stopped : stop_room_contributors "r" three ≡ (("s2", elsewhere) ∷ [], "s1" ∷ "s3" ∷ [])
unfolding contributing
room_stopped = refl

unknown : (send_contributor_audio "s9" 5 100 three).1 ≡ false
unfolding contributing
unknown = refl

abbrev burst : List (ℕ × ℕ)
burst = (10, 60000) ∷ (20, 60000) ∷ (30, 30000) ∷ (1000, 60000) ∷ []

limited : sent_bytes burst fresh ≡ 120000
unfolding contributing
limited = refl

send_at-rate_example :
    1000 * sent_bytes burst fresh ≤ 98304 * (1000 + (last_time 5 burst - fresh.window_started_at))
send_at-rate_example =
    send_at-rate 5 burst fresh (omega arith)
      (omega arith, (omega arith, (omega arith, (omega arith, tt))))
