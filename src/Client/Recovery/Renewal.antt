-- ===== src/Client/Recovery/Renewal.antt =====
-- The setups of client/src/hooks/useMediasoup.ts after a dropped connection: what a setup that
-- starts on the new connection reaches, and one that was under way when the connection dropped.
use a_meet.Client.Recovery.{
  ready, Stage, awaits_socket, asks_capabilities, loads_device, asks_send, asks_recv,
  produces_audio, pauses_audio, produces_video, pauses_video, lists_producers, consumes, Hook,
  ask_capabilities, run_setup, Media, video_stage, audio_stage, enter, unless_cancelled, set_up,
  go_on, fail, wake, on_connect, on_disconnect, connects, disconnects, succeeds, fails, proceed,
  give_up, step, run,
}
use a_meet.Prelude.{
  ℕ, suc, true, false, none, some, List, [], ◌∷◌, ◌≤◌, ◌<◌, if◌then◌else◌, ◌≡◌, ◌⊎◌, refl, sym, ap,
  subst, arith, inl, inr, map, length,
}

-- The answers that a setup at this stage still needs, at most.
abbrev pub rank : Stage → ℕ
rank awaits_socket = 11
rank asks_capabilities = 10
rank loads_device = 9
rank asks_send = 8
rank asks_recv = 7
rank produces_audio = 6
rank pauses_audio = 5
rank produces_video = 4
rank pauses_video = 3
rank lists_producers = 2
rank consumes = 1

-- The transports that a setup at this stage has created are those of the present connection.
abbrev pub HasTransports : Stage → Hook → Type 0
HasTransports stage h =
    (rank stage ≤ 7 → h.send_transport ≡ some h.connection)
    × (rank stage ≤ 6 → h.recv_transport ≡ some h.connection)

abbrev pub IsRenewed : Hook → Type 0
IsRenewed h =
    (h.recovery ≡ record { status = ready; attempt = 0 })
    × (h.send_transport ≡ some h.connection)
    × (h.recv_transport ≡ some h.connection)

abbrev pub IsGoing : ℕ → Hook → Type 0
IsGoing n h =
    (h.cancelled ≡ false)
    × (stage : Stage) × (h.setup ≡ some stage)
    × (rank stage ≤ n)
    × (rank stage ≤ 10)
    × HasTransports stage h

abbrev pub IsDone : Hook → Type 0
IsDone h = (h.setup ≡ none) × IsRenewed h

pub enter-eq :
    (stage : Stage) (h : Hook)
    → h.cancelled ≡ false
    → enter stage h ≡ record h { setup = some stage }
unfolding enter
enter-eq lists_producers h c = ground arith
enter-eq stage h c = refl

enter-IsGoing :
    (stage : Stage) (h : Hook) (n : ℕ)
    → h.cancelled ≡ false
    → rank stage ≤ n
    → rank stage ≤ 10
    → HasTransports stage h
    → IsGoing n (enter stage h)
enter-IsGoing stage h n c le s t =
    subst (IsGoing n) (sym (enter-eq stage h c)) (c, stage, refl, le, s, t)

pub unless_cancelled-eq : (h next : Hook) → h.cancelled ≡ false → unless_cancelled h next ≡ next
unfolding unless_cancelled
unless_cancelled-eq h next c = ground arith

rank-video_stage : (m : Media) → rank (video_stage m) ≤ 4
rank-video_stage m = ground arith

rank-audio_stage : (m : Media) → rank (audio_stage m) ≤ 6
rank-audio_stage m = ground arith

-- A later stage has the transports that an earlier one has.
later :
    (stage next : Stage) (h : Hook) → rank stage ≤ 6 → HasTransports stage h → HasTransports next h
later stage next h le t = ground arith

is_done :
    (h : Hook)
    → h.send_transport ≡ some h.connection
    → h.recv_transport ≡ some h.connection
    → IsDone (set_up h)
unfolding set_up
is_done h s r = (refl, (refl, s, r))

unless_cancelled-IsGoing :
    (h next : Hook) (n : ℕ)
    → h.cancelled ≡ false
    → IsGoing n next
    → IsGoing n (unless_cancelled h next)
unless_cancelled-IsGoing h next n c g = subst (IsGoing n) (sym (unless_cancelled-eq h next c)) g

pub go_on-IsGoing :
    (m : Media) (stage : Stage) (h : Hook) (n : ℕ)
    → h.cancelled ≡ false
    → rank stage ≤ suc n
    → rank stage ≤ 10
    → HasTransports stage h
    → IsGoing n (go_on m stage h) ⊎ IsDone (go_on m stage h)
unfolding go_on
go_on-IsGoing m awaits_socket h n c le s t = ground arith
go_on-IsGoing m asks_capabilities h n c le s t = inl (
    unless_cancelled-IsGoing h (enter loads_device h) n c
      (enter-IsGoing loads_device h n c (ground arith) (ground arith) (ground arith)))
go_on-IsGoing m loads_device h n c le s t =
    inl (enter-IsGoing asks_send h n c (ground arith) (ground arith) (ground arith))
go_on-IsGoing m asks_send h n c le s t =
    let sent = record h { send_transport = some h.connection } in
    inl (
      unless_cancelled-IsGoing h (enter asks_recv sent) n c
        (enter-IsGoing asks_recv sent n c (ground arith) (ground arith) (ground arith)))
go_on-IsGoing m asks_recv h n c le s t =
    let received = record h { recv_transport = some h.connection } in
    let r = rank-audio_stage m in
    inl (
      unless_cancelled-IsGoing h (enter (audio_stage m) received) n c
        (enter-IsGoing (audio_stage m) received n c (ground arith) (ground arith) (ground arith)))
go_on-IsGoing m produces_audio h n c le s t =
    let next = if m.wants_audio then video_stage m else pauses_audio in
    let r = rank-video_stage m in
    let l : rank next ≤ 5 = ground arith in
    inl (
      enter-IsGoing next h n c (ground arith) (ground arith)
        (later produces_audio next h (ground arith) t))
go_on-IsGoing m pauses_audio h n c le s t =
    let r = rank-video_stage m in
    inl (
      enter-IsGoing (video_stage m) h n c (ground arith) (ground arith)
        (later pauses_audio (video_stage m) h (ground arith) t))
go_on-IsGoing m produces_video h n c le s t =
    let next = if m.wants_video then lists_producers else pauses_video in
    let l : rank next ≤ 3 = ground arith in
    inl (
      enter-IsGoing next h n c (ground arith) (ground arith)
        (later produces_video next h (ground arith) t))
go_on-IsGoing m pauses_video h n c le s t = inl (
    enter-IsGoing lists_producers h n c (ground arith) (ground arith)
      (later pauses_video lists_producers h (ground arith) t))
go_on-IsGoing m lists_producers h n c le s t = inl (
    unless_cancelled-IsGoing h (enter consumes h) n c (
      enter-IsGoing consumes h n c (ground arith) (ground arith)
        (later lists_producers consumes h (ground arith) t)))
go_on-IsGoing m consumes h n c le s t = inr (
    subst IsDone (sym (unless_cancelled-eq h (set_up h) c))
      (is_done h (t.0 (ground arith)) (t.1 (ground arith))))

step-IsDone : (m : Media) (h : Hook) → IsDone h → IsDone (step (succeeds m) h)
unfolding step proceed
step-IsDone m h d = subst IsDone (ap (λ s. proceed m s h) (sym d.0)) d

step-IsGoing :
    (m : Media) (h : Hook) (n : ℕ)
    → IsGoing (suc n) h
    → IsGoing n (step (succeeds m) h) ⊎ IsDone (step (succeeds m) h)
unfolding step proceed
step-IsGoing m h n (c, stage, e, le, s, t) =
    subst (λ x. IsGoing n x ⊎ IsDone x) (ap (λ s. proceed m s h) (sym e))
      (go_on-IsGoing m stage h n c le s t)

run-IsDone : (ms : List Media) (h : Hook) → IsDone h → IsDone (run (map succeeds ms) h)
run-IsDone [] h d = d
run-IsDone (m ∷ ms) h d = run-IsDone ms (step (succeeds m) h) (step-IsDone m h d)

no_rank : (stage : Stage) → rank stage ≤ 0 → ⊥
no_rank stage le = ground arith

asked :
    (h : Hook) (n : ℕ)
    → 10 ≤ n
    → h.cancelled ≡ false
    → h.has_stream ≡ true
    → h.setup ≡ none
    → IsGoing n (step connects h)
unfolding step on_connect run_setup wake ask_capabilities
asked h n le c s e =
    let k : record h { cancelled = false; has_stream = true; setup = none } ≡ h = ground arith in
    subst (λ x. IsGoing n (step connects x)) k
      (refl, asks_capabilities, refl, le, (ground arith), (ground arith))

run_going : (ms : List Media) (h : Hook) → IsGoing (length ms) h → IsDone (run (map succeeds ms) h)
run_going [] h (c, stage, e, le, s, t) = elim (no_rank stage le) [ ]
run_going (m ∷ ms) h g = elim (step-IsGoing m h (length ms) g) [
  | inl going ↦ run_going ms (step (succeeds m) h) going
  | inr done ↦ run-IsDone ms (step (succeeds m) h) done
]

-- A hook that is mounted and has a stream, in which no setup runs and whose socket connects again:
-- once what its setup asks for is answered, in ten answers at most, the media is ready on transports
-- of the new connection, and no setup runs any more.
pub on_connect-IsRenewed :
    (ms : List Media) (h : Hook)
    → 10 ≤ length ms
    → h.cancelled ≡ false
    → h.has_stream ≡ true
    → h.setup ≡ none
    → IsDone (run (connects ∷ map succeeds ms) h)
on_connect-IsRenewed ms h le c s e = run_going ms (step connects h) (asked h (length ms) le c s e)

-- Reported as ready while connected, on the transports of an earlier connection, and with no setup
-- and no retry under way.
pub record IsStale (earlier : ℕ) (h : Hook) : Type 0 where
  pub reported : h.recovery.status ≡ ready
  pub online : h.connected ≡ true
  pub at_rest : h.setup ≡ none
  pub unset : h.timer ≡ none
  pub receives : h.recv_transport ≡ some earlier
  pub moved_on : earlier < h.connection

-- A setup is past its own producers and waits for the tracks of the others. Its connection drops and
-- is restored before they are there: the errors are caught, the new connection starts no setup, and
-- the media is reported as ready on the transports of a connection that is gone, with nothing set
-- that would repair it.
pub disconnect-IsStale :
    (m : Media) (h : Hook)
    → h.cancelled ≡ false
    → h.has_stream ≡ true
    → h.setup ≡ some consumes
    → h.timer ≡ none
    → h.recv_transport ≡ some h.connection
    → IsStale h.connection (run (disconnects ∷ fails ∷ connects ∷ succeeds m ∷ []) h)
unfolding step on_disconnect give_up fail on_connect run_setup wake proceed go_on unless_cancelled
    set_up
disconnect-IsStale m h c s e t r =
    let k : record h {
      cancelled = false;
      has_stream = true;
      setup = some consumes;
      timer = none;
      recv_transport = some h.connection;
    }
        ≡ h =
      ground arith in
    subst (λ x. IsStale x.connection (run (disconnects ∷ fails ∷ connects ∷ succeeds m ∷ []) x)) k
      (record {
        reported = refl;
        online = refl;
        at_rest = refl;
        unset = refl;
        receives = refl;
        moved_on = ground arith;
      })
