-- ===== src/Client/Signal/Outcome.antt =====
-- What the reason of a failed request says, in client/src/services/mediasoup-signal.ts.
use a_meet.Client.Signal.{
  timeout, disconnect, Callback, raised, denied, answered, Result, rejected, resolved, Change,
  drops, returns, Flight, after, settle, request, reason_of,
}
use a_meet.Prelude.{
  ℕ, String, Bool, true, false, not, ◌||◌, ◌&&◌, Option, none, some, List, [], ◌∷◌, ◌-◌, ◌≡◌, ◌↔◌,
  arith, refl,
}

abbrev pub has_drop : List Change → Bool
has_drop [] = false
has_drop (drops ∷ cs) = true
has_drop (returns ∷ cs) = has_drop cs

abbrev pub has_return : List Change → Bool
has_return [] = false
has_return (drops ∷ cs) = has_return cs
has_return (returns ∷ cs) = true

-- The socket did not drop, and was up when the request was sent or came up later.
abbrev pub is_unbroken : Bool → List Change → Bool
is_unbroken connected cs = not (has_drop cs) && (connected || has_return cs)

noted :
    (cs : List Change) (connected : Bool)
    → (after cs
        (record { connected = connected; disconnected_in_flight = true })).disconnected_in_flight
      ≡ true
noted [] connected = refl
noted (drops ∷ cs) connected = noted cs false
noted (returns ∷ cs) connected = noted cs true

blames_drop :
    (cs : List Change) (connected : Bool)
    → let f = after cs (record { connected = connected; disconnected_in_flight = false }) in
      (f.disconnected_in_flight || not f.connected) ≡ not (is_unbroken connected cs)
blames_drop [] connected = ground arith
blames_drop (drops ∷ cs) connected = let n = noted cs false in ground arith
blames_drop (returns ∷ cs) connected = let ih = blames_drop cs true in ground arith

abbrev pub is_raised {ℓ} : {A : Type ℓ} → Callback A → Bool
is_raised raised = true
is_raised (denied error retry) = false
is_raised (answered a) = false

abbrev pub hint_of {ℓ} : {A : Type ℓ} → Callback A → Option ℕ
hint_of raised = none
hint_of (denied error retry) = retry
hint_of (answered a) = none

abbrev pub retry_of {ℓ} : {A : Type ℓ} → Result A → Option ℕ
retry_of (rejected e) = e.retry_after_ms
retry_of (resolved a) = none

-- A result, by what Socket.IO reports and whether the socket's connection was unbroken.
pub record IsTold {ℓ} {A : Type ℓ} (up : Bool) (callback : Callback A) (result : Result A)
    : Type ℓ where
  pub timed_out : (reason_of result ≡ some timeout) ↔ ((is_raised callback && up) ≡ true)
  pub dropped : (reason_of result ≡ some disconnect) ↔ ((is_raised callback && not up) ≡ true)
  pub hinted : retry_of result ≡ hint_of callback
  pub answers : (a : A) → callback ≡ answered a → result ≡ resolved a

settle-IsTold :
    {A : Type 0} (say : String → String) (callback : Callback A) (elapsed : ℕ) (f : Flight)
    (up : Bool)
    → (f.disconnected_in_flight || not f.connected) ≡ not up
    → IsTold up callback (settle say callback elapsed f)
unfolding settle
settle-IsTold say raised elapsed f true e = rw e (record {
  timed_out = ground arith;
  dropped = ground arith;
  hinted = refl;
  answers = λ a h. ground arith;
})
settle-IsTold say raised elapsed f false e = rw e (record {
  timed_out = ground arith;
  dropped = ground arith;
  hinted = refl;
  answers = λ a h. ground arith;
})
settle-IsTold say (denied error retry) elapsed f up e = record {
  timed_out = ground arith;
  dropped = ground arith;
  hinted = refl;
  answers = λ a h. ground arith;
}
settle-IsTold say (answered a) elapsed f up e = record {
  timed_out = ground arith;
  dropped = ground arith;
  hinted = refl;
  answers = λ b h. ground arith;
}

-- A request is reported as timed out just if Socket.IO gives it up, the socket did not drop in
-- between, and it was up when the request was sent or has come up since: a request that was sent
-- while the socket was down, and waited for it, times out too. Given up otherwise, it is reported as
-- a disconnection, also when the socket came back after a drop. The server's hint when to retry is
-- passed on, and an answer is resolved.
pub request-IsTold :
    {A : Type 0} (say : String → String) (connected : Bool) (changes : List Change)
    (callback : Callback A) (started ended : ℕ)
    → IsTold
        (is_unbroken connected changes)
        callback
        (request say connected changes callback started ended)
unfolding request
request-IsTold say connected changes callback started ended =
    settle-IsTold say callback (ended - started)
      (after changes (record { connected = connected; disconnected_in_flight = false }))
      (is_unbroken connected changes) (blames_drop changes connected)
