-- ===== src/Client/Recovery/Ladder.antt =====
-- The retries of client/src/hooks/useMediasoup.ts, step by step: when a setup runs or a retry is set,
-- and how many there are. Whether the media that is reported is there is the module Alive's.
use a_meet.Client.Recovery.{
  media_retry_base_ms, media_retry_max_ms, media_max_retries, Status, connecting, ready,
  reconnecting, exhausted, Stage, awaits_socket, asks_capabilities, loads_device, asks_send,
  asks_recv, produces_audio, pauses_audio, produces_video, pauses_video, lists_producers, consumes,
  Hook, new_hook, ask_capabilities, run_setup, delay_of, schedule_retry, Media, video_stage,
  audio_stage, enter, unless_cancelled, go_on, fail, wake, on_connect, on_disconnect, time_out,
  retry_media, start, clean_up, Event, starts, connects, disconnects, succeeds, fails, times_out,
  retries, unmounts, proceed, give_up, step, run,
}
use a_meet.Prelude.{
  ℕ, zero, suc, Bool, true, false, Option, none, some, List, [], ◌∷◌, ◌^◌, ◌≤◌, ◌&&◌, ◌||◌, not,
  leb, is_some, if◌then◌else◌, ◌≡◌, refl, arith, inl, inr, Bool-cases,
}

-- Nothing that a setup could start from is missing.
abbrev pub is_up : Hook → Bool
is_up h = not h.cancelled && h.has_stream && h.connected

abbrev pub is_reported : Status → Bool
is_reported ready = true
is_reported exhausted = true
is_reported connecting = false
is_reported reconnecting = false

abbrev pub is_fitting : Option ℕ → Bool
is_fitting none = true
is_fitting (some d) = leb media_retry_base_ms d && leb d media_retry_max_ms

-- A setup runs, a retry is set, or the media is reported as ready or as exhausted; the budget and the
-- delay of the retries are kept, and no timer is set beside a running setup.
pub record IsPaced (h : Hook) : Type 0 where
  pub alive :
      is_up h ≡ true → is_some h.setup || is_some h.timer || is_reported h.recovery.status ≡ true
  pub budget : leb h.attempt media_max_retries ≡ true
  pub delay : is_fitting h.timer ≡ true
  pub single : is_some h.setup && is_some h.timer ≡ false

power_positive : (n : ℕ) → 1 ≤ 2 ^ n
power_positive zero = ground arith
power_positive (suc n) = let ih = power_positive n in ground arith

delay_of-is_fitting : (attempt : ℕ) → is_fitting (some (delay_of attempt)) ≡ true
delay_of-is_fitting a = let p = power_positive a in ground arith

run_setup-IsPaced : (h : Hook) → IsPaced h → IsPaced (run_setup h)
unfolding run_setup
run_setup-IsPaced h v = ground arith

schedule_retry-IsPaced :
    (h : Hook)
    → h.setup ≡ none
    → h.timer ≡ none
    → leb h.attempt media_max_retries ≡ true
    → IsPaced (schedule_retry h)
unfolding schedule_retry
schedule_retry-IsPaced h e t b = let d = delay_of-is_fitting h.attempt in ground arith

enter-IsPaced :
    (stage : Stage) (h : Hook)
    → h.timer ≡ none
    → leb h.attempt media_max_retries ≡ true
    → IsPaced (enter stage h)
unfolding enter
enter-IsPaced lists_producers h t b = ground arith
enter-IsPaced stage h t b = ground arith

no_timer : (stage : Stage) (h : Hook) → h.setup ≡ some stage → IsPaced h → h.timer ≡ none
no_timer stage h e v = ground arith

unless_cancelled-IsPaced :
    (h next : Hook)
    → h.timer ≡ none
    → leb h.attempt media_max_retries ≡ true
    → IsPaced next
    → IsPaced (unless_cancelled h next)
unfolding unless_cancelled
unless_cancelled-IsPaced h next t b v = elim (Bool-cases h.cancelled) [
  | inl c ↦ ground arith
  | inr c ↦ ground arith
]

go_on-IsPaced :
    (m : Media) (stage : Stage) (h : Hook)
    → h.setup ≡ some stage
    → IsPaced h
    → IsPaced (go_on m stage h)
unfolding go_on
go_on-IsPaced m awaits_socket h e v = v
go_on-IsPaced m asks_capabilities h e v =
    let t = no_timer asks_capabilities h e v in
    unless_cancelled-IsPaced h (enter loads_device h) t v.budget
      (enter-IsPaced loads_device h t v.budget)
go_on-IsPaced m loads_device h e v =
    enter-IsPaced asks_send h (no_timer loads_device h e v) v.budget
go_on-IsPaced m asks_send h e v =
    let t = no_timer asks_send h e v in
    let sent = record h { send_transport = some h.connection } in
    unless_cancelled-IsPaced h (enter asks_recv sent) t v.budget
      (enter-IsPaced asks_recv sent t v.budget)
go_on-IsPaced m asks_recv h e v =
    let t = no_timer asks_recv h e v in
    let received = record h { recv_transport = some h.connection } in
    unless_cancelled-IsPaced h (enter (audio_stage m) received) t v.budget
      (enter-IsPaced (audio_stage m) received t v.budget)
go_on-IsPaced m produces_audio h e v =
    enter-IsPaced (if m.wants_audio then video_stage m else pauses_audio) h
      (no_timer produces_audio h e v) v.budget
go_on-IsPaced m pauses_audio h e v =
    enter-IsPaced (video_stage m) h (no_timer pauses_audio h e v) v.budget
go_on-IsPaced m produces_video h e v =
    enter-IsPaced (if m.wants_video then lists_producers else pauses_video) h
      (no_timer produces_video h e v) v.budget
go_on-IsPaced m pauses_video h e v =
    enter-IsPaced lists_producers h (no_timer pauses_video h e v) v.budget
go_on-IsPaced m lists_producers h e v =
    let t = no_timer lists_producers h e v in
    unless_cancelled-IsPaced h (enter consumes h) t v.budget (enter-IsPaced consumes h t v.budget)
go_on-IsPaced m consumes h e v = let t = no_timer consumes h e v in ground arith

fail-IsPaced :
    (stage : Stage) (h : Hook) → h.setup ≡ some stage → IsPaced h → IsPaced (fail stage h)
unfolding fail
fail-IsPaced awaits_socket h e v = v
fail-IsPaced consumes h e v = v
fail-IsPaced stage h e v =
    schedule_retry-IsPaced (record h { setup = none }) refl (no_timer stage h e v) v.budget

wake-IsPaced : (s : Option Stage) (h : Hook) → h.setup ≡ s → IsPaced h → IsPaced (wake s h)
unfolding wake ask_capabilities
wake-IsPaced none h e v = v
wake-IsPaced (some awaits_socket) h e v = ground arith
wake-IsPaced (some stage) h e v = v

connected-IsPaced :
    (h : Hook)
    → IsPaced h
    → let up = record h { connected = true; connection = suc h.connection } in
      IsPaced
        (if up.cancelled || not up.has_stream then up else run_setup (record up { attempt = 0 }))
unfolding run_setup
connected-IsPaced h v = ground arith

on_connect-IsPaced : (h : Hook) → IsPaced h → IsPaced (on_connect h)
unfolding on_connect
on_connect-IsPaced h v =
    let up = record h { connected = true; connection = suc h.connection } in
    let next =
      if up.cancelled || not up.has_stream then up else run_setup (record up { attempt = 0 }) in
    let c : IsPaced next = connected-IsPaced h v in wake-IsPaced next.setup next refl c

on_disconnect-IsPaced : (h : Hook) → IsPaced h → IsPaced (on_disconnect h)
unfolding on_disconnect
on_disconnect-IsPaced h v = ground arith

time_out-IsPaced : (h : Hook) → IsPaced h → IsPaced (time_out h)
unfolding time_out run_setup
time_out-IsPaced h v = ground arith

retry_media-IsPaced : (h : Hook) → IsPaced h → IsPaced (retry_media h)
unfolding retry_media run_setup
retry_media-IsPaced h v = ground arith

start-IsPaced : (h : Hook) → IsPaced h → IsPaced (start h)
unfolding start run_setup
start-IsPaced h v = ground arith

clean_up-IsPaced : (h : Hook) → IsPaced h → IsPaced (clean_up h)
unfolding clean_up
clean_up-IsPaced h v = ground arith

proceed-IsPaced :
    (m : Media) (s : Option Stage) (h : Hook) → h.setup ≡ s → IsPaced h → IsPaced (proceed m s h)
unfolding proceed
proceed-IsPaced m none h e v = v
proceed-IsPaced m (some s) h e v = go_on-IsPaced m s h e v

give_up-IsPaced : (s : Option Stage) (h : Hook) → h.setup ≡ s → IsPaced h → IsPaced (give_up s h)
unfolding give_up
give_up-IsPaced none h e v = v
give_up-IsPaced (some s) h e v = fail-IsPaced s h e v

step-IsPaced : (e : Event) (h : Hook) → IsPaced h → IsPaced (step e h)
unfolding step
step-IsPaced starts h v = start-IsPaced h v
step-IsPaced connects h v = on_connect-IsPaced h v
step-IsPaced disconnects h v = on_disconnect-IsPaced h v
step-IsPaced (succeeds m) h v = proceed-IsPaced m h.setup h refl v
step-IsPaced fails h v = give_up-IsPaced h.setup h refl v
step-IsPaced times_out h v = time_out-IsPaced h v
step-IsPaced retries h v = retry_media-IsPaced h v
step-IsPaced unmounts h v = clean_up-IsPaced h v

run_on-IsPaced : (es : List Event) (h : Hook) → IsPaced h → IsPaced (run es h)
run_on-IsPaced [] h v = v
run_on-IsPaced (e ∷ es) h v = run_on-IsPaced es (step e h) (step-IsPaced e h v)

pub run-IsPaced : (es : List Event) → IsPaced (run es new_hook)
run-IsPaced es = run_on-IsPaced es new_hook (ground arith)
