-- ===== src/Client/Recovery/Exhaustion.antt =====
-- The end of the retries of client/src/hooks/useMediasoup.ts: setups that fail, each at a stage of its
-- own, and the timers of their retries.
use a_meet.Client.Recovery.{
  exhausted, Stage, awaits_socket, consumes, Hook, Media, Event, succeeds, fails, times_out, step,
  run,
}
use a_meet.Prelude.{
  ℕ, Bool, true, false, Option, none, some, List, [], ◌∷◌, ◌&&◌, is_some, ◌≡◌, ◌++◌, map,
}

-- Setups that each get some answers and then fail, with the timers of their retries
abbrev pub failures : List (List Media) → List Event
failures [] = []
failures (ms ∷ rounds) = map succeeds ms ++ fails ∷ times_out ∷ failures rounds

-- The setup waits for something that may fail: neither for the socket nor for the tracks of the
-- others, whose errors are caught.
abbrev pub can_fail : Option Stage → Bool
can_fail none = false
can_fail (some awaits_socket) = false
can_fail (some consumes) = false
can_fail (some stage) = true

-- Each setup is still running, at a stage that may fail, when it fails.
abbrev pub all_fail : List (List Media) → Hook → Bool
all_fail [] h = true
all_fail (ms ∷ rounds) h =
    let g = run (map succeeds ms) h in
    can_fail g.setup && all_fail rounds (step times_out (step fails g))

-- The hook is mounted and connected, and as far into the retries as this.
pub record IsTrying (attempt : ℕ) (h : Hook) : Type 0 where
  pub mounted : h.cancelled ≡ false
  pub streams : h.has_stream ≡ true
  pub online : h.connected ≡ true
  pub idle : h.timer ≡ none
  pub counted : is_some h.setup ≡ true → h.attempt ≡ attempt

abbrev pub IsExhausted : Hook → Type 0
IsExhausted h =
    (h.setup ≡ none) × (h.timer ≡ none) × (h.recovery ≡ record { status = exhausted; attempt = 5 })
