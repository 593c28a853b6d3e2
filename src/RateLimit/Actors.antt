-- ===== src/RateLimit/Actors.antt =====
-- The actors of rate-limit.ts: whose bucket an event drains, how long a bucket lives, and what an
-- eviction can change.
use Prim.Native.String.{◌++◌ as str_append}
use a_meet.Prelude.{
  ℕ, ◌+◌, ◌-◌, ◌*◌, ◌≤◌, ◌<◌, String, eq_iff, ◌≡◌, ◌≢◌, refl, ap, Bool, false, List, [], ◌∷◌, arith,
  if◌then◌else◌, none, some, Option-cases, inl, inr, ◌∙◌,
}
use a_meet.Prelude.Maps.{get, get-set_self, get-set_ne, Unique, set-Unique}
use a_meet.Prelude.Text.{join_comma, last_part-append}
use a_meet.RateLimit.{
  BucketConfig, BucketState, refilled, consume_token, Cost, full_bucket, Socket, actor_key_for,
  ActorEntry, Options, Limiter, is_evictable, sweep, entry_for, attach, track, detach, disconnect,
  invoke,
}

refilled_idle :
    (s : BucketState) (config : BucketConfig) (grace now : ℕ)
    → s.last + grace ≤ now
    → config.capacity * 1000 ≤ grace * config.refill_per_sec
    → refilled s config now ≡ refilled (full_bucket config now) config now
unfolding refilled
refilled_idle s config grace now idle refills =
    let longer : grace ≤ now - s.last = omega arith in
    let more : grace * config.refill_per_sec ≤ (now - s.last) * config.refill_per_sec =
      grind arith in
    omega arith

-- A bucket that nobody touched for the grace period, where that is long enough to refill it, spends
-- and answers just as a new full one does: the eviction of an actor that is gone loses no tokens.
pub consume_token-evicted :
    (s : BucketState) (config : BucketConfig) (grace now cost : ℕ)
    → s.last + grace ≤ now
    → config.capacity * 1000 ≤ grace * config.refill_per_sec
    → ((consume_token s config now cost).1
        ≡ (consume_token (full_bucket config now) config now cost).1)
      × ((consume_token s config now cost).0.tokens
          ≡ (consume_token (full_bucket config now) config now cost).0.tokens)
unfolding consume_token
consume_token-evicted s config grace now cost idle refills =
    let same = refilled_idle s config grace now idle refills in
    (ground (arith, same), ground (arith, same))

-- The part of a forwarding header that the client wrote itself, before the last comma, has no
-- influence on the actor.
pub actor_key_for-forged :
    (s : Socket) (forged h : String)
    → actor_key_for (record s { forwarded_for = str_append forged (str_append "," h) ∷ [] })
      ≡ actor_key_for (record s { forwarded_for = h ∷ [] })
unfolding actor_key_for join_comma
actor_key_for-forged s forged h = rw (last_part-append forged h)

get-sweep-none :
    (opts : Options) (now : ℕ) (key : String) (actors : List (String × ActorEntry))
    → get key actors ≡ none
    → get key (sweep opts now actors) ≡ none
unfolding sweep get
get-sweep-none opts now key [] e = refl
get-sweep-none opts now key ((k, en) ∷ actors) e =
    ground (arith, get-sweep-none opts now key actors)

get-sweep :
    (opts : Options) (now : ℕ) (key : String) (entry : ActorEntry)
    (actors : List (String × ActorEntry))
    → Unique actors
    → get key actors ≡ some entry
    → get key (sweep opts now actors) ≡ (if is_evictable opts now entry then none else some entry)
unfolding sweep get
get-sweep opts now key entry [] u e = cc
get-sweep opts now key entry ((k, en) ∷ actors) u e = ground (
  arith,
  eq_iff k key,
  get-sweep opts now key entry actors u.1,
  get-sweep-none opts now key actors,
)

sweep-Unique :
    (opts : Options) (now : ℕ) (actors : List (String × ActorEntry))
    → Unique actors
    → Unique (sweep opts now actors)
unfolding sweep
sweep-Unique opts now [] u = tt
sweep-Unique opts now ((k, en) ∷ actors) u =
    ground (arith, get-sweep-none opts now k actors, sweep-Unique opts now actors u.1)

-- The actors of a limiter are a map, whose keys are unique.
abbrev pub IsMap : Limiter → Type 0
IsMap l = Unique l.actors

track-IsMap :
    (opts : Options) (now : ℕ) (s : Socket) (l : Limiter) → IsMap l → IsMap (track opts now s l)
unfolding track
track-IsMap opts now s l u = set-Unique _ _ _ (sweep-Unique opts now l.actors u)

track_other :
    (opts : Options) (now : ℕ) (s : Socket) (key : String) (l : Limiter)
    → actor_key_for s ≢ key
    → get key (track opts now s l).actors ≡ get key (sweep opts now l.actors)
unfolding track
track_other opts now s key l other = get-set_ne _ key _ _ other

invoke_other :
    (opts : Options) (now : ℕ) (s : Socket) (bucket : String) (cost : Cost) (has_callback : Bool)
    (key : String) (l : Limiter)
    → actor_key_for s ≢ key
    → get key (invoke opts now s bucket cost has_callback l).0.actors
      ≡ get key (track opts now s l).actors
unfolding invoke
invoke_other opts now s bucket cost has_callback key l other =
    elim (Option-cases (get bucket opts.buckets)) [
      | inl e ↦ rw (e, invoke)
      | inr (config, e) ↦ rw (e, invoke) (get-set_ne _ key _ _ other)
    ]

-- An event leaves the entry of every other actor as it is, but for the eviction of one that has had
-- no socket for the grace period.
pub invoke-isolation :
    (opts : Options) (now : ℕ) (s : Socket) (bucket : String) (cost : Cost) (has_callback : Bool)
    (key : String) (entry : ActorEntry) (l : Limiter)
    → IsMap l
    → actor_key_for s ≢ key
    → get key l.actors ≡ some entry
    → get key (invoke opts now s bucket cost has_callback l).0.actors
      ≡ (if is_evictable opts now entry then none else some entry)
invoke-isolation opts now s bucket cost has_callback key entry l u other e =
    invoke_other opts now s bucket cost has_callback key l other
    ∙ track_other opts now s key l other
    ∙ get-sweep opts now key entry l.actors u e

-- The entry that an actor's own event finds: the one that it had, unless it was evicted.
get-track :
    (opts : Options) (now : ℕ) (s : Socket) (l : Limiter)
    → get (actor_key_for s) (track opts now s l).actors
      ≡ some (attach s l.tracked (entry_for opts now (actor_key_for s) l.actors))
unfolding track
get-track opts now s l = get-set_self _ _ _

disconnect-entry :
    (now : ℕ) (s : Socket) (entry : ActorEntry) (l : Limiter)
    → get (actor_key_for s) l.actors ≡ some entry
    → get (actor_key_for s) (disconnect now s l).actors ≡ some (detach now s.id entry)
unfolding disconnect
disconnect-entry now s entry l e = rw (e, disconnect) (get-set_self _ _ _)

disconnect-IsMap : (now : ℕ) (s : Socket) (l : Limiter) → IsMap l → IsMap (disconnect now s l)
unfolding disconnect
disconnect-IsMap now s l u = elim (Option-cases (get (actor_key_for s) l.actors)) [
  | inl e ↦ rw (e, disconnect) u
  | inr (entry, e) ↦ rw (e, disconnect) (set-Unique _ _ _ u)
]

kept_in_grace :
    (opts : Options) (gone back : ℕ) (id : String) (entry : ActorEntry)
    → entry.empty_since ≡ none
    → back < gone + opts.eviction_grace_ms
    → is_evictable opts back (detach gone id entry) ≡ false
unfolding is_evictable detach
kept_in_grace opts gone back id entry live soon = ground arith

entry_for_kept :
    (opts : Options) (now : ℕ) (key : String) (entry : ActorEntry)
    (actors : List (String × ActorEntry))
    → Unique actors
    → get key actors ≡ some entry
    → is_evictable opts now entry ≡ false
    → entry_for opts now key actors ≡ entry
unfolding entry_for
entry_for_kept opts now key entry actors u e kept =
    ground (arith, get-sweep opts now key entry actors u e)

attach-buckets :
    (s : Socket) (tracked : List String) (entry : ActorEntry)
    → (attach s tracked entry).buckets ≡ entry.buckets
unfolding attach
attach-buckets s tracked entry = ground arith

detach-buckets :
    (now : ℕ) (id : String) (entry : ActorEntry) → (detach now id entry).buckets ≡ entry.buckets
unfolding detach
detach-buckets now id entry = refl

-- Whoever disconnects and is back before the grace period has passed, on a new socket, finds the
-- buckets that it left.
pub reconnect-keeps_buckets :
    (opts : Options) (gone back : ℕ) (old new : Socket) (entry : ActorEntry) (l : Limiter)
    → IsMap l
    → actor_key_for old ≡ actor_key_for new
    → get (actor_key_for old) l.actors ≡ some entry
    → entry.empty_since ≡ none
    → back < gone + opts.eviction_grace_ms
    → (after : ActorEntry) × (get
          (actor_key_for new)
          (track opts back new (disconnect gone old l)).actors
        ≡ some after)
      × (after.buckets ≡ entry.buckets)
reconnect-keeps_buckets opts gone back old new entry l u same e live soon = (
  attach new mid.tracked (entry_for opts back (actor_key_for new) mid.actors),
  get-track opts back new mid,
  attach-buckets new mid.tracked _
      ∙ ap (λ (a : ActorEntry). a.buckets) found
      ∙ detach-buckets gone old.id entry,
)
  where
    mid : Limiter
    mid = disconnect gone old l

    found : entry_for opts back (actor_key_for new) mid.actors ≡ detach gone old.id entry
    found =
        entry_for_kept opts back (actor_key_for new) (detach gone old.id entry) mid.actors
          (disconnect-IsMap gone old l u) (rw (← same) (disconnect-entry gone old entry l e))
          (kept_in_grace opts gone back old.id entry live soon)
