-- ===== src/Client/Recovery/Served.antt =====
-- On which connection the media of client/src/hooks/useMediasoup.ts is that is reported as ready, where
-- no connection comes up in the middle of a setup.
use a_meet.Client.Recovery.{
  ready, Stage, awaits_socket, asks_capabilities, loads_device, asks_send, asks_recv,
  produces_audio, pauses_audio, produces_video, pauses_video, lists_producers, consumes, Hook,
  ask_capabilities, run_setup, schedule_retry, Media, go_on, fail, wake, on_connect, on_disconnect,
  time_out, retry_media, start, clean_up, Event, starts, connects, disconnects, succeeds, fails,
  times_out, retries, unmounts, proceed, give_up, step, run,
}
use a_meet.Client.Recovery.Renewal.{rank, HasTransports, IsGoing, IsDone, go_on-IsGoing}
use a_meet.Client.Recovery.Kept.{go_on-has_stream, go_on-cancelled}
use a_meet.Prelude.{
  ℕ, suc, Bool, true, false, Option, none, some, List, [], ◌∷◌, ◌≤◌, ◌&&◌, is_some, ◌≡◌, ◌⊎◌, refl,
  sym, ap, subst, ◌∙◌, arith, inl, inr, Bool-cases,
}

abbrev pub is_waiting : Option Stage → Bool
is_waiting none = true
is_waiting (some awaits_socket) = true
is_waiting (some stage) = false

-- The socket does not come back while a setup runs that was under way when it dropped.
abbrev pub allows : Event → Hook → Bool
allows connects h = is_waiting h.setup
allows e h = true

abbrev pub is_prompt : List Event → Hook → Bool
is_prompt [] h = true
is_prompt (e ∷ es) h = allows e h && is_prompt es (step e h)

-- The transports, of a running setup and of media that is reported as ready, are the present
-- connection's.
pub record IsServed (h : Hook) : Type 0 where
  pub going : h.cancelled ≡ false → (stage : Stage) → h.setup ≡ some stage → HasTransports stage h
  pub served :
      h.cancelled ≡ false
      → h.setup ≡ none
      → h.recovery.status ≡ ready
      → (h.send_transport ≡ some h.connection) × (h.recv_transport ≡ some h.connection)
  pub streamed :
      h.cancelled ≡ false → h.setup ≡ none → h.recovery.status ≡ ready → h.has_stream ≡ true
  pub started : h.cancelled ≡ false → is_some h.setup ≡ true → h.has_stream ≡ true

unmounted-IsServed : (h : Hook) → h.cancelled ≡ true → IsServed h
unmounted-IsServed h c = record {
  going = λ n stage e. absurd (ground arith);
  served = λ n e r. absurd (ground arith);
  streamed = λ n e r. absurd (ground arith);
  started = λ n e. absurd (ground arith);
}

IsGoing-IsServed : (n : ℕ) (h : Hook) → h.has_stream ≡ true → IsGoing n h → IsServed h
IsGoing-IsServed n h s (c, stage, e, le, lt, t) = record {
  going =
      λ m other o. let same : stage ≡ other = ground arith in subst (λ x. HasTransports x h) same t;
  served = λ m o r. absurd (ground arith);
  streamed = λ m o r. s;
  started = λ m o. s;
}

IsDone-IsServed : (h : Hook) → h.has_stream ≡ true → IsDone h → IsServed h
IsDone-IsServed h s (e, d) = record {
  going = λ m stage o. absurd (ground arith);
  served = λ m o r. (d.1, d.2);
  streamed = λ m o r. s;
  started = λ m o. s;
}

run_setup-IsServed : (h : Hook) → IsServed h → IsServed (run_setup h)
unfolding run_setup ask_capabilities
run_setup-IsServed h v = ground arith

answer-IsServed :
    (m : Media) (stage : Stage) (h : Hook)
    → rank stage ≤ 10
    → h.setup ≡ some stage
    → IsServed h
    → h.cancelled ≡ false
    → IsServed (go_on m stage h)
answer-IsServed m stage h le e v c =
    let s = go_on-has_stream m stage h ∙ v.started c (ground arith) in
    elim (go_on-IsGoing m stage h 10 c (ground arith) le (v.going c stage e)) [
      | inl g ↦ IsGoing-IsServed 10 (go_on m stage h) s g
      | inr d ↦ IsDone-IsServed (go_on m stage h) s d
    ]

rank_of : (stage : Stage) → (stage ≡ awaits_socket) ⊎ (rank stage ≤ 10)
rank_of awaits_socket = inl refl
rank_of asks_capabilities = inr (ground arith)
rank_of loads_device = inr (ground arith)
rank_of asks_send = inr (ground arith)
rank_of asks_recv = inr (ground arith)
rank_of produces_audio = inr (ground arith)
rank_of pauses_audio = inr (ground arith)
rank_of produces_video = inr (ground arith)
rank_of pauses_video = inr (ground arith)
rank_of lists_producers = inr (ground arith)
rank_of consumes = inr (ground arith)

awaits_socket-eq : (m : Media) (h : Hook) → go_on m awaits_socket h ≡ h
unfolding go_on
awaits_socket-eq m h = refl

go_on-IsServed :
    (m : Media) (stage : Stage) (h : Hook)
    → h.setup ≡ some stage
    → IsServed h
    → IsServed (go_on m stage h)
go_on-IsServed m stage h e v = elim (Bool-cases h.cancelled) [
  | inl c ↦ unmounted-IsServed (go_on m stage h) (go_on-cancelled m stage h c)
  | inr c ↦ elim (rank_of stage) [
    | inl w ↦ subst IsServed (sym (ap (λ s. go_on m s h) w ∙ awaits_socket-eq m h)) v
    | inr le ↦ answer-IsServed m stage h le e v c
  ]
]

fail-IsServed : (stage : Stage) (h : Hook) → IsServed h → IsServed (fail stage h)
unfolding fail schedule_retry
fail-IsServed awaits_socket h v = v
fail-IsServed consumes h v = v
fail-IsServed stage h v = ground arith

proceed-IsServed :
    (m : Media) (s : Option Stage) (h : Hook) → h.setup ≡ s → IsServed h → IsServed (proceed m s h)
unfolding proceed
proceed-IsServed m none h e v = v
proceed-IsServed m (some stage) h e v = go_on-IsServed m stage h e v

give_up-IsServed : (s : Option Stage) (h : Hook) → IsServed h → IsServed (give_up s h)
unfolding give_up
give_up-IsServed none h v = v
give_up-IsServed (some stage) h v = fail-IsServed stage h v

-- A mounted hook with a stream whose setup waits or does not run asks for the capabilities.
woken :
    (s : Option Stage) (h : Hook)
    → is_waiting s ≡ true
    → h.cancelled ≡ false
    → h.has_stream ≡ true
    → h.setup ≡ s
    → IsServed (on_connect h)
unfolding on_connect run_setup wake ask_capabilities
woken none h w c t e =
    let k : record h { cancelled = false; has_stream = true; setup = none } ≡ h = ground arith in
    subst (λ x. IsServed (on_connect x)) k (ground arith)
woken (some awaits_socket) h w c t e =
    let k : record h { cancelled = false; has_stream = true; setup = some awaits_socket } ≡ h =
      ground arith in
    subst (λ x. IsServed (on_connect x)) k (ground arith)
woken (some stage) h w c t e = absurd (ground arith)

wake-cancelled : (s : Option Stage) (h : Hook) → h.cancelled ≡ true → (wake s h).cancelled ≡ true
unfolding wake
wake-cancelled none h c = c
wake-cancelled (some awaits_socket) h c = ground arith
wake-cancelled (some stage) h c = c

on_connect-cancelled : (h : Hook) → h.cancelled ≡ true → (on_connect h).cancelled ≡ true
unfolding on_connect
on_connect-cancelled h c =
    let k : record h { cancelled = true } ≡ h = ground arith in
    subst (λ x. (on_connect x).cancelled ≡ true) k
      (wake-cancelled h.setup
        (record h { cancelled = true; connected = true; connection = suc h.connection }) refl)

-- Without a stream no setup starts, and none was ready.
streamless :
    (h : Hook) → h.cancelled ≡ false → h.has_stream ≡ false → IsServed h → IsServed (on_connect h)
unfolding on_connect wake
streamless h c t v =
    let none_runs : h.setup ≡ none = ground arith in
    let v2 : IsServed (record h { cancelled = false; has_stream = false; setup = none }) =
      ground arith in
    let k : record h { cancelled = false; has_stream = false; setup = none } ≡ h = ground arith in
    subst (λ x. IsServed (on_connect x)) k (ground arith)

on_connect-IsServed : (h : Hook) → is_waiting h.setup ≡ true → IsServed h → IsServed (on_connect h)
on_connect-IsServed h w v = elim (Bool-cases h.cancelled) [
  | inl c ↦ unmounted-IsServed (on_connect h) (on_connect-cancelled h c)
  | inr c ↦ elim (Bool-cases h.has_stream) [
    | inl t ↦ woken h.setup h w c t refl
    | inr t ↦ streamless h c t v
  ]
]

on_disconnect-IsServed : (h : Hook) → IsServed h → IsServed (on_disconnect h)
unfolding on_disconnect
on_disconnect-IsServed h v = ground arith

time_out-IsServed : (h : Hook) → IsServed h → IsServed (time_out h)
unfolding time_out
time_out-IsServed h v =
    let w : IsServed (record h { timer = none }) = ground arith in
    let r = run_setup-IsServed (record h { timer = none }) w in ground arith

retry_media-IsServed : (h : Hook) → IsServed h → IsServed (retry_media h)
unfolding retry_media run_setup ask_capabilities
retry_media-IsServed h v = ground arith

start-IsServed : (h : Hook) → IsServed h → IsServed (start h)
unfolding start run_setup ask_capabilities
start-IsServed h v = ground arith

clean_up-IsServed : (h : Hook) → IsServed (clean_up h)
unfolding clean_up
clean_up-IsServed h = unmounted-IsServed (clean_up h) refl

step-IsServed : (e : Event) (h : Hook) → allows e h ≡ true → IsServed h → IsServed (step e h)
unfolding step
step-IsServed starts h a v = start-IsServed h v
step-IsServed connects h a v = on_connect-IsServed h a v
step-IsServed disconnects h a v = on_disconnect-IsServed h v
step-IsServed (succeeds m) h a v = proceed-IsServed m h.setup h refl v
step-IsServed fails h a v = give_up-IsServed h.setup h v
step-IsServed times_out h a v = time_out-IsServed h v
step-IsServed retries h a v = retry_media-IsServed h v
step-IsServed unmounts h a v = clean_up-IsServed h

pub run_on-IsServed :
    (es : List Event) (h : Hook) → is_prompt es h ≡ true → IsServed h → IsServed (run es h)
run_on-IsServed [] h p v = v
run_on-IsServed (e ∷ es) h p v =
    run_on-IsServed es (step e h) (ground arith) (step-IsServed e h (ground arith) v)
