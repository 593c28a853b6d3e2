-- ===== src/RateLimit/Flood.antt =====
-- The violations that rate-limit.ts counts, and the disconnection that they lead to.
use a_meet.Prelude.{
  ℕ, ◌+◌, ◌-◌, ◌*◌, ◌≤◌, ◌<◌, ◌≡◌, ◌≢◌, refl, Bool, ◌⊎◌, List, [], ◌∷◌, arith, inl, inr, subst,
}
use a_meet.RateLimit.Rate.{clamp_cost-bounds}
use a_meet.RateLimit.{
  BucketConfig, BucketState, refilled, consume_token, Cost, Options, Outcome, handled, disconnected,
  spend,
}

-- An event of a bucket: its time, its cost, and whether it carries a callback.
pub record Event : Type 0 where
  pub time : ℕ
  pub cost : Cost
  pub has_callback : Bool

module _ (opts : Options) (config : BucketConfig) where
  unfoldable pub run_events : BucketState → List Event → BucketState × List Outcome
  run_events s [] = (s, [])
  run_events s (e ∷ es) =
      let out = spend opts config e.time e.cost e.has_callback s in
      let later = run_events out.0 es in (later.0, out.1 ∷ later.1)

  -- The outcomes read as a count of refusals since the last admitted event, from `v` to `w`: an event
  -- cuts the socket exactly when it is refused and brings the count to the threshold.
  abbrev pub Counts : ℕ → List Outcome → ℕ → Type 0
  Counts v [] w = w ≡ v
  Counts v (o ∷ os) w =
      ((o ≡ handled) × Counts 0 os w)
      ⊎ ((o ≢ handled)
          × ((o ≡ disconnected → opts.flood_disconnect_threshold ≤ v + 1)
              × (opts.flood_disconnect_threshold ≤ v + 1 → o ≡ disconnected))
          × Counts (v + 1) os w)

  -- One event, with the count that it leaves.
  abbrev Counted : ℕ → Outcome → ℕ → Type 0
  Counted v o w =
      ((o ≡ handled) × (w ≡ 0))
      ⊎ ((o ≢ handled)
          × ((o ≡ disconnected → opts.flood_disconnect_threshold ≤ v + 1)
              × (opts.flood_disconnect_threshold ≤ v + 1 → o ≡ disconnected))
          × (w ≡ v + 1))

  spend-Counted :
      (now : ℕ) (cost : Cost) (has_callback : Bool) (s : BucketState)
      → Counted s.violations
          (spend opts config now cost has_callback s).1
          (spend opts config now cost has_callback s).0.violations
  unfolding spend consume_token
  spend-Counted now cost has_callback s = ground arith

  Counted-cons :
      (v u w : ℕ) (o : Outcome) (os : List Outcome)
      → Counted v o u
      → Counts u os w
      → Counts v (o ∷ os) w
  Counted-cons v u w o os (inl (h, e)) later = inl (h, subst (λ (t : ℕ). Counts t os w) e later)
  Counted-cons v u w o os (inr (h, cut, e)) later =
      inr (h, cut, subst (λ (t : ℕ). Counts t os w) e later)

  -- In any run of events the violations of the bucket are the refusals since the last admitted event,
  -- and the socket is cut exactly at the refusals that bring them to the threshold or past it.
  pub run_events-violations :
      (s : BucketState) (es : List Event)
      → Counts s.violations (run_events s es).1 (run_events s es).0.violations
  unfolding run_events
  run_events-violations s [] = refl
  run_events-violations s (e ∷ es) =
      let t = (spend opts config e.time e.cost e.has_callback s).0 in
      Counted-cons s.violations t.violations _ _ _ (spend-Counted e.time e.cost e.has_callback s)
        (run_events-violations t es)

  -- Any event, whatever its cost, is handled by a bucket that has had the time to fill up.
  pub spend-handled :
      (now : ℕ) (cost : Cost) (has_callback : Bool) (s : BucketState)
      → 0 < config.capacity
      → config.capacity * 1000 ≤ s.tokens + (now - s.last) * config.refill_per_sec
      → (spend opts config now cost has_callback s).1 ≡ handled
  unfolding spend consume_token refilled
  spend-handled now cost has_callback s pos full = ground (arith, clamp_cost-bounds config cost pos)
