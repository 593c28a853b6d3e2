-- ===== src/RateLimit/Rate.antt =====
-- The token bucket of rate-limit.ts over any sequence of events, in exact arithmetic: what it admits.
use a_meet.Prelude.{ℕ, ◌+◌, ◌-◌, ◌*◌, ◌≤◌, ◌<◌, ◌≡◌, refl, List, [], ◌∷◌, arith, if◌then◌else◌, ap}
use a_meet.RateLimit.{
  BucketConfig, BucketState, ConsumeResult, refilled, consume_token, Cost, finite, other,
  clamp_cost,
}

-- What an event spent: its cost, if it was admitted.
abbrev pub spent_by : ConsumeResult → ℕ → ℕ
spent_by r cost = if r.allowed then cost else 0

-- One event: the tokens stay within the capacity, and what is spent or left was there or refilled.
consume_token-balance :
    (s : BucketState) (config : BucketConfig) (now cost : ℕ)
    → let out = consume_token s config now cost in
      (out.0.tokens ≤ config.capacity * 1000)
      × (out.0.tokens + spent_by out.1 cost * 1000
          ≤ s.tokens + (now - s.last) * config.refill_per_sec)
      × (out.0.last ≡ now)
unfolding consume_token refilled
consume_token-balance s config now cost = ground arith

-- The events of one bucket, each with its time and cost: the bucket and the sum of what was spent.
pub run_bucket : BucketConfig → BucketState → List (ℕ × ℕ) → BucketState × ℕ
run_bucket config s [] = (s, 0)
run_bucket config s ((now, cost) ∷ events) =
    let out = consume_token s config now cost in
    let later = run_bucket config out.0 events in (later.0, spent_by out.1 cost + later.1)

-- The clock does not go back, from the first time on.
abbrev pub IsOrdered : ℕ → List (ℕ × ℕ) → Type 0
IsOrdered t [] = Unit
IsOrdered t ((now, cost) ∷ events) = (t ≤ now) × IsOrdered now events

-- The time of the last event.
abbrev pub end_time : ℕ → List (ℕ × ℕ) → ℕ
end_time t [] = t
end_time t ((now, cost) ∷ events) = end_time now events

end_time-le : (t : ℕ) (events : List (ℕ × ℕ)) → IsOrdered t events → t ≤ end_time t events
end_time-le t [] h = omega arith
end_time-le t ((now, cost) ∷ events) h = omega (arith, end_time-le now events h.1)

elapsed_split : (a b c r : ℕ) → a ≤ b → b ≤ c → (b - a) * r + (c - b) * r ≡ (c - a) * r
elapsed_split a b c r h k =
    let e : (b - a) + (c - b) ≡ c - a = omega arith in omega (arith, ap (λ (t : ℕ). t * r) e)

run_bucket-balance :
    (config : BucketConfig) (s : BucketState) (t : ℕ) (events : List (ℕ × ℕ))
    → s.last ≡ t
    → IsOrdered t events
    → (run_bucket config s events).1 * 1000
      ≤ s.tokens + (end_time t events - t) * config.refill_per_sec
unfolding run_bucket
run_bucket-balance config s t [] e h = omega arith
run_bucket-balance config s t ((now, cost) ∷ events) e h =
    let (capped, bounded, at) = consume_token-balance s config now cost in
    let ih = run_bucket-balance config (consume_token s config now cost).0 now events at h.1 in
    omega (
      arith,
      bounded,
      ih,
      ap (λ (u : ℕ). (now - u) * config.refill_per_sec) e,
      elapsed_split t now (end_time now events) config.refill_per_sec h.0
          (end_time-le now events h.1),
    )

-- In exact arithmetic: over any run of events at times that do not go back, a bucket within its capacity admits a total
-- cost of at most the capacity and the refill of the time from its last event to the end.
pub run_bucket-rate :
    (config : BucketConfig) (s : BucketState) (events : List (ℕ × ℕ))
    → s.tokens ≤ config.capacity * 1000
    → IsOrdered s.last events
    → (run_bucket config s events).1 * 1000
      ≤ config.capacity * 1000 + (end_time s.last events - s.last) * config.refill_per_sec
run_bucket-rate config s events h o =
    omega (arith, run_bucket-balance config s s.last events refl o)

-- The clamped cost of any event is at least one token and within the capacity.
pub clamp_cost-bounds :
    (config : BucketConfig) (cost : Cost)
    → 0 < config.capacity
    → (0 < clamp_cost config cost) × (clamp_cost config cost ≤ config.capacity)
unfolding clamp_cost
clamp_cost-bounds config (finite m) h = ground arith
clamp_cost-bounds config other h = ground arith
