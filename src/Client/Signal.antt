-- ===== src/Client/Signal.antt =====
-- client/src/services/mediasoup-signal.ts: one request to the server and how it ends. The socket's
-- drops and returns while the request is under way are a list; Socket.IO's callback ends it, at a
-- time that is given.
pub mod Outcome
mod Tests
use a_meet.Prelude.{
  ℕ, String, Bool, true, false, not, ◌||◌, Option, none, some, List, [], ◌∷◌, ◌-◌, if◌then◌else◌,
  ◌≡◌, ◌↔◌, In, arith, refl,
}

pub data Reason : Type 0 where
  timeout : Reason
  disconnect : Reason
  server : Reason

-- `SignalError`, less its name and its event
pub record SignalError : Type 0 where
  pub message : String
  pub reason : Reason
  pub socket_connected : Bool
  pub elapsed_ms : ℕ
  pub retry_after_ms : Option ℕ

-- What the callback gets: Socket.IO's error, the server's, or its answer.
pub data Callback {ℓ} (A : Type ℓ) : Type ℓ where
  raised : Callback A
  denied : String → Option ℕ → Callback A
  answered : A → Callback A

pub data Result {ℓ} (A : Type ℓ) : Type ℓ where
  rejected : SignalError → Result A
  resolved : A → Result A

pub data Change : Type 0 where
  drops : Change
  returns : Change

-- The socket, and the request's note of a drop
pub record Flight : Type 0 where
  pub connected : Bool
  pub disconnected_in_flight : Bool

abbrev pub after : List Change → Flight → Flight
after [] f = f
after (drops ∷ cs) f = after cs (record { connected = false; disconnected_in_flight = true })
after (returns ∷ cs) f = after cs (record f { connected = true })

-- The messages are texts of the event and the time.
unfoldable pub settle {ℓ} : {A : Type ℓ} → (String → String) → Callback A → ℕ → Flight → Result A
settle say raised elapsed f =
    if f.disconnected_in_flight || not f.connected
    then rejected (record {
      message = say "failed: socket disconnected";
      reason = disconnect;
      socket_connected = f.connected;
      elapsed_ms = elapsed;
      retry_after_ms = none;
    })
    else rejected (record {
      message = say "timed out";
      reason = timeout;
      socket_connected = true;
      elapsed_ms = elapsed;
      retry_after_ms = none;
    })
settle say (denied error retry) elapsed f = rejected (record {
  message = error;
  reason = server;
  socket_connected = f.connected;
  elapsed_ms = elapsed;
  retry_after_ms = retry;
})
settle say (answered a) elapsed f = resolved a

-- `request`: sent on a socket that is up or not, from one time to another
unfoldable pub request {ℓ} :
    {A : Type ℓ} → (String → String) → Bool → List Change → Callback A → ℕ → ℕ → Result A
unfolding settle
request say connected changes callback started ended =
    settle say callback (ended - started)
      (after changes (record { connected = connected; disconnected_in_flight = false }))

-- The reason, where the request is rejected
abbrev pub reason_of {ℓ} : {A : Type ℓ} → Result A → Option Reason
reason_of (rejected e) = some e.reason
reason_of (resolved a) = none
