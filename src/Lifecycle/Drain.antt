-- ===== src/Lifecycle/Drain.antt =====
-- The order of a drain, and that it ends.
use a_meet.Prelude.{
  ℕ, zero, suc, ◌≤◌, String, ◌≡◌, refl, ap, ◌∙◌, sym, subst, Option, List, [], ◌∷◌, ◌++◌, arith,
  if◌then◌else◌, select, length, Bool-cases, inl, inr,
}
use mathlib.Core.List.{append-nil, append_assoc}
use a_meet.Lifecycle.{
  Name, Deps, is_given, Phase, serving, draining, exited, Life, drain_order, run_steps, shutdown,
  settle, time_out, handle_fatal, Event, signal, settles, times_out, fatal, handle,
  create_lifecycle,
}

-- The steps that are given, in the order of the drain.
abbrev pub given : Deps → List Name
given d = select (is_given d) drain_order

-- What a phase says of the steps begun: none while the server serves; while it drains, these and
-- the given ones that follow are the given ones; all of them once it has exited cleanly.
abbrev pub IsOrdered : Deps → Phase → List Name → Type 0
IsOrdered d serving begun = begun ≡ []
IsOrdered d (draining name names) begun = begun ++ select (is_given d) names ≡ given d
IsOrdered d (exited zero) begun = begun ≡ given d
IsOrdered d (exited (suc code)) begun = (rest : List Name) × (begun ++ rest ≡ given d)

run_steps-IsOrdered :
    (d : Deps) (begun names : List Name)
    → begun ++ select (is_given d) names ≡ given d
    → IsOrdered d (run_steps d begun names).phase (run_steps d begun names).begun
unfolding run_steps
run_steps-IsOrdered d begun [] h = sym (append-nil begun) ∙ h
run_steps-IsOrdered d begun (name ∷ names) h = elim (Bool-cases (is_given d name)) [
  | inl is_here ↦ rw is_here (
      append_assoc begun (name ∷ []) (select (is_given d) names)
      ∙ subst
          (λ b.
            begun ++ (if b then name ∷ select (is_given d) names else select (is_given d) names)
            ≡ given d)
          is_here h)
  | inr missing ↦ rw missing (
      run_steps-IsOrdered d begun names (
        subst
          (λ b.
            begun ++ (if b then name ∷ select (is_given d) names else select (is_given d) names)
            ≡ given d)
          missing h))
]

shutdown-IsOrdered :
    (d : Deps) (phase : Phase) (begun : List Name)
    → IsOrdered d phase begun
    → IsOrdered d (shutdown d phase begun).phase (shutdown d phase begun).begun
unfolding shutdown
shutdown-IsOrdered d serving begun h =
    run_steps-IsOrdered d begun drain_order (ap (λ b. b ++ given d) h)
shutdown-IsOrdered d (draining name names) begun h = h
shutdown-IsOrdered d (exited code) begun h = h

settle-IsOrdered :
    (d : Deps) (error : Option String) (phase : Phase) (begun : List Name)
    → IsOrdered d phase begun
    → IsOrdered d (settle d error phase begun).phase (settle d error phase begun).begun
unfolding settle
settle-IsOrdered d error serving begun h = h
settle-IsOrdered d error (draining name names) begun h = run_steps-IsOrdered d begun names h
settle-IsOrdered d error (exited code) begun h = h

time_out-IsOrdered :
    (d : Deps) (phase : Phase) (begun : List Name)
    → IsOrdered d phase begun
    → IsOrdered d (time_out phase begun).phase (time_out phase begun).begun
unfolding time_out
time_out-IsOrdered d serving begun h = h
time_out-IsOrdered d (draining name names) begun h = (select (is_given d) names, h)
time_out-IsOrdered d (exited code) begun h = h

handle_fatal-IsOrdered :
    (d : Deps) (phase : Phase) (begun : List Name)
    → IsOrdered d phase begun
    → IsOrdered d (handle_fatal phase begun).phase (handle_fatal phase begun).begun
unfolding handle_fatal
handle_fatal-IsOrdered d serving begun h = (given d, ap (λ b. b ++ given d) h)
handle_fatal-IsOrdered d (draining name names) begun h = (select (is_given d) names, h)
handle_fatal-IsOrdered d (exited code) begun h = h

handle-IsOrdered :
    (d : Deps) (event : Event) (l : Life)
    → IsOrdered d l.phase l.begun
    → IsOrdered d (handle d event l).phase (handle d event l).begun
unfolding handle
handle-IsOrdered d signal l h = shutdown-IsOrdered d l.phase l.begun h
handle-IsOrdered d (settles error) l h = settle-IsOrdered d error l.phase l.begun h
handle-IsOrdered d times_out l h = time_out-IsOrdered d l.phase l.begun h
handle-IsOrdered d fatal l h = handle_fatal-IsOrdered d l.phase l.begun h

abbrev pub run : Deps → List Event → Life → Life
run d [] l = l
run d (event ∷ events) l = run d events (handle d event l)

run-IsOrdered_from :
    (d : Deps) (events : List Event) (l : Life)
    → IsOrdered d l.phase l.begun
    → IsOrdered d (run d events l).phase (run d events l).begun
run-IsOrdered_from d [] l h = h
run-IsOrdered_from d (event ∷ events) l h =
    run-IsOrdered_from d events (handle d event l) (handle-IsOrdered d event l h)

-- Whatever happens: the steps that were begun are the first of the given ones in their order, each
-- once; none is begun while the server serves; and an exit with code 0 means that all were begun.
pub run-IsOrdered :
    (d : Deps) (events : List Event)
    → IsOrdered d (run d events create_lifecycle).phase (run d events create_lifecycle).begun
run-IsOrdered d events = run-IsOrdered_from d events create_lifecycle refl

-- Signals, and steps that end, with an error or without.
abbrev pub IsQuiet : List Event → Type 0
IsQuiet [] = Unit
IsQuiet (signal ∷ events) = IsQuiet events
IsQuiet ((settles error) ∷ events) = IsQuiet events
IsQuiet (times_out ∷ events) = ⊥
IsQuiet (fatal ∷ events) = ⊥

abbrev pub settled : List Event → ℕ
settled [] = 0
settled ((settles error) ∷ events) = suc (settled events)
settled (event ∷ events) = settled events

abbrev clean_exit : List Name → Life
clean_exit begun = record { phase = exited 0; begun = begun }

exited_stays :
    (d : Deps) (begun : List Name) (events : List Event)
    → IsQuiet events
    → run d events (clean_exit begun) ≡ clean_exit begun
unfolding handle
exited_stays d begun [] q = refl
exited_stays d begun (signal ∷ events) q = exited_stays d begun events q
exited_stays d begun ((settles error) ∷ events) q = exited_stays d begun events q
exited_stays d begun (times_out ∷ events) q = elim q [ ]
exited_stays d begun (fatal ∷ events) q = elim q [ ]

-- The steps from here on end cleanly, if they are all given the time.
abbrev Ends : Deps → List Name → List Name → Type 0
Ends d begun names =
    (events : List Event)
    → IsQuiet events
    → length names ≤ settled events
    → run d events (run_steps d begun names) ≡ clean_exit (begun ++ select (is_given d) names)

draining-Ends :
    (d : Deps) (name : Name) (names begun : List Name)
    → Ends d begun names
    → (events : List Event) → IsQuiet events
    → suc (length names) ≤ settled events
    → run d events (record { phase = draining name names; begun = begun })
      ≡ clean_exit (begun ++ select (is_given d) names)
unfolding handle
draining-Ends d name names begun next [] q enough = absurd (omega (arith, enough))
draining-Ends d name names begun next (signal ∷ events) q enough =
    draining-Ends d name names begun next events q enough
draining-Ends d name names begun next ((settles error) ∷ events) q enough =
    next events q (omega (arith, enough))
draining-Ends d name names begun next (times_out ∷ events) q enough = elim q [ ]
draining-Ends d name names begun next (fatal ∷ events) q enough = elim q [ ]

run_steps-Ends : (d : Deps) (names begun : List Name) → Ends d begun names
unfolding run_steps
run_steps-Ends d [] begun events q enough =
    exited_stays d begun events q ∙ ap clean_exit (sym (append-nil begun))
run_steps-Ends d (name ∷ names) begun events q enough = elim (Bool-cases (is_given d name)) [
  | inl is_here ↦ rw is_here (
      draining-Ends d name names (begun ++ name ∷ []) (run_steps-Ends d names (begun ++ name ∷ []))
        events q enough
      ∙ ap clean_exit (append_assoc begun (name ∷ []) (select (is_given d) names)))
  | inr missing ↦ rw missing (run_steps-Ends d names begun events q (omega (arith, enough)))
]

-- A drain ends: after a signal, more signals and the end of five steps, whether they throw or not
-- and whichever steps are given, the server has exited with code 0 and has begun every given step.
pub shutdown-exits :
    (d : Deps) (events : List Event)
    → IsQuiet events
    → 5 ≤ settled events
    → run d (signal ∷ events) create_lifecycle ≡ record { phase = exited 0; begun = given d }
unfolding handle shutdown
shutdown-exits d events q enough = run_steps-Ends d drain_order [] events q enough

-- The server has had a signal.
abbrev IsLeaving : Phase → Type 0
IsLeaving serving = ⊥
IsLeaving (draining name names) = Unit
IsLeaving (exited code) = Unit

run_steps-IsLeaving :
    (d : Deps) (names begun : List Name) → IsLeaving (run_steps d begun names).phase
unfolding run_steps
run_steps-IsLeaving d [] begun = tt
run_steps-IsLeaving d (name ∷ names) begun = elim (Bool-cases (is_given d name)) [
  | inl is_here ↦ rw is_here tt
  | inr missing ↦ rw missing (run_steps-IsLeaving d names begun)
]

handle-IsLeaving :
    (d : Deps) (event : Event) (phase : Phase) (begun : List Name)
    → IsLeaving phase
    → IsLeaving (handle d event (record { phase = phase; begun = begun })).phase
unfolding handle
handle-IsLeaving d event serving begun h = elim h [ ]
handle-IsLeaving d signal (draining name names) begun h = tt
handle-IsLeaving d (settles error) (draining name names) begun h = run_steps-IsLeaving d names begun
handle-IsLeaving d times_out (draining name names) begun h = tt
handle-IsLeaving d fatal (draining name names) begun h = tt
handle-IsLeaving d signal (exited code) begun h = tt
handle-IsLeaving d (settles error) (exited code) begun h = tt
handle-IsLeaving d times_out (exited code) begun h = tt
handle-IsLeaving d fatal (exited code) begun h = tt

run-IsLeaving :
    (d : Deps) (events : List Event) (l : Life)
    → IsLeaving l.phase
    → IsLeaving (run d events l).phase
run-IsLeaving d [] l h = h
run-IsLeaving d (event ∷ events) l h =
    run-IsLeaving d events (handle d event l) (handle-IsLeaving d event l.phase l.begun h)

time_out-exited :
    (phase : Phase) (begun : List Name)
    → IsLeaving phase
    → (code : ℕ) × ((time_out phase begun).phase ≡ exited code)
unfolding time_out
time_out-exited serving begun h = elim h [ ]
time_out-exited (draining name names) begun h = (1, refl)
time_out-exited (exited code) begun h = (code, refl)

-- A drain that hangs ends too: whatever happens after a signal, the process has exited once the
-- force timer has fired.
pub time_out-exits :
    (d : Deps) (events : List Event)
    → (code : ℕ) × ((handle d times_out (run d (signal ∷ events) create_lifecycle)).phase
        ≡ exited code)
unfolding handle shutdown
time_out-exits d events =
    let l = run d (signal ∷ events) create_lifecycle in
    time_out-exited l.phase l.begun
      (run-IsLeaving d events (run_steps d [] drain_order) (run_steps-IsLeaving d drain_order []))
