-- ===== src/Client/Recovery/Tests.antt =====
-- Runs of the media connection, and instances of the theorems about it.
use a_meet.Client.Recovery.{
  ready, asks_capabilities, consumes, Hook, new_hook, ask_capabilities, run_setup, schedule_retry,
  Media, enter, unless_cancelled, set_up, go_on, fail, wake, on_connect, on_disconnect, time_out,
  retry_media, start, starts, connects, disconnects, succeeds, fails, times_out, proceed, give_up,
  step, run,
}
use a_meet.Client.Recovery.Alive.{IsAlive, run-IsAlive}
use a_meet.Client.Recovery.Renewal.{IsDone, IsStale, on_connect-IsRenewed, disconnect-IsStale}
use a_meet.Prelude.{true, false, none, some, List, [], ◌∷◌, ◌≡◌, refl, map, arith}

connecting_hook : Unit {0}
unfolding step start on_connect on_disconnect proceed give_up go_on fail schedule_retry run_setup
    ask_capabilities wake time_out retry_media enter unless_cancelled set_up
connecting_hook = tt

-- A camera and a microphone, the camera off
abbrev talks : Media
talks = record { audio = true; video = true; wants_audio = true; wants_video = false }

abbrev answers : List Media
answers = talks ∷ talks ∷ talks ∷ talks ∷ talks ∷ talks ∷ talks ∷ talks ∷ talks ∷ talks ∷ []

-- The first setup waits for the socket, fails at its first request, and its retry succeeds.
second_try :
    let h = run (starts ∷ connects ∷ fails ∷ times_out ∷ map succeeds answers) new_hook in
    (h.recovery ≡ record { status = ready; attempt = 0 }) × (h.recv_transport ≡ some 1)
unfolding connecting_hook
second_try = (refl, refl)

run-IsAlive_example : IsAlive true (run (starts ∷ connects ∷ map succeeds answers) new_hook)
unfolding connecting_hook
run-IsAlive_example = run-IsAlive (starts ∷ connects ∷ map succeeds answers)

abbrev asking : Hook
asking = record new_hook {
  has_stream = true;
  connected = true;
  connection = 1;
  setup = some asks_capabilities;
  attempt = 3;
}

abbrev waiting : Hook
waiting = record asking { setup = some consumes; send_transport = some 1; recv_transport = some 1 }

-- The first of these setups fails when it produces the audio, the others before.
abbrev rounds : List (List Media)
rounds = (talks ∷ talks ∷ talks ∷ talks ∷ []) ∷ [] ∷ (talks ∷ []) ∷ []

on_connect-IsRenewed_example :
    IsDone
      (run (connects ∷ map succeeds answers) (record asking { setup = none; connected = false }))
on_connect-IsRenewed_example =
    on_connect-IsRenewed answers (record asking { setup = none; connected = false }) (ground arith)
      refl refl refl

disconnect-IsStale_example :
    IsStale 1 (run (disconnects ∷ fails ∷ connects ∷ succeeds talks ∷ []) waiting)
disconnect-IsStale_example = disconnect-IsStale talks waiting refl refl refl refl refl
