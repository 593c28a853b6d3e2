-- ===== src/RateLimit.antt =====
-- server/src/socket/rate-limit.ts: token buckets per actor, and the limiter that guards the
-- handlers of the socket events. A bucket's tokens are counted in thousandths, so that a refill of
-- `elapsed / 1000 * refillPerSec` tokens is the whole number `elapsed * refill_per_sec`; the
-- rounding of floating-point numbers is not modelled: where a bucket is filled to just what an event
-- costs, the program may refuse it, or give a delay that is a millisecond short. Rates are whole
-- numbers. The clock is an
-- argument, read once in a call.
pub mod Rate
pub mod Actors
pub mod Flood
mod Tests
use Prim.Native.String.{◌++◌ as str_append}
use a_meet.Prelude.{
  ℕ, suc, ◌+◌, ◌-◌, ◌*◌, ◌/◌, min, max, String, ◌≡◌, Bool, true, false, ◌&&◌, Option, none, some,
  List, [], ltb, leb, if◌then◌else◌, ceil_div, or_else, select, List, ◌∷◌,
}
use a_meet.Prelude.Maps.{get, set, delete, contains, add, remove}
use a_meet.Prelude.Text.{is_empty, trim, last_part, join_comma}

pub record BucketConfig : Type 0 where
  pub capacity : ℕ
  pub refill_per_sec : ℕ

pub record BucketState : Type 0 where
  -- in thousandths of a token
  pub tokens : ℕ
  pub last : ℕ
  pub violations : ℕ

pub record ConsumeResult : Type 0 where
  pub allowed : Bool
  pub retry_after_ms : ℕ

-- The bucket's tokens after the refill.
pub refilled : BucketState → BucketConfig → ℕ → ℕ
refilled s config now =
    min (config.capacity * 1000) (s.tokens + (now - s.last) * config.refill_per_sec)

pub consume_token : BucketState → BucketConfig → ℕ → ℕ → BucketState × ConsumeResult
consume_token s config now cost =
    let tokens = refilled s config now in
    if leb (cost * 1000) tokens
    then (
      record s { tokens = tokens - cost * 1000; last = now },
      record { allowed = true; retry_after_ms = 0 },
    )
    else (
      record s { tokens = tokens; last = now },
      record {
        allowed = false;
        retry_after_ms = ceil_div (cost * 1000 - tokens) config.refill_per_sec;
      },
    )

-- The cost of a chat payload, from the size of its JSON in bytes (`none`: it has none).
pub chat_message_token_cost : BucketConfig → Option ℕ → ℕ
chat_message_token_cost chat none = chat.capacity
chat_message_token_cost chat (some bytes) = max 1 (ceil_div bytes 1000)

-- What `options.cost` may return: a finite number that is not negative, in thousandths, or another.
pub data Cost : Type 0 where
  finite : ℕ → Cost
  other : Cost

pub clamp_cost : BucketConfig → Cost → ℕ
clamp_cost config (finite m) = if ltb 0 m then min (ceil_div m 1000) config.capacity else 1
clamp_cost config other = 1

-- The parts of a socket that name its actor. A missing user id or address is the empty text, which
-- is as falsy; the header's values are those of one header or of several.
pub record Socket : Type 0 where
  pub id : String
  pub user_id : String
  pub forwarded_for : List String
  pub address : String

pub actor_key_for : Socket → String
actor_key_for s = if is_empty s.user_id then str_append "ip:" ip else str_append "user:" s.user_id
  where
    last_hop : String
    last_hop = trim (last_part (join_comma s.forwarded_for))

    ip : String
    ip =
        if is_empty last_hop
        then (if is_empty s.address then "unknown" else s.address)
        else last_hop

pub record ActorEntry : Type 0 where
  pub sockets : List String
  pub buckets : List (String × BucketState)
  pub empty_since : Option ℕ

pub record Options : Type 0 where
  pub buckets : List (String × BucketConfig)
  pub flood_disconnect_threshold : ℕ
  pub eviction_grace_ms : ℕ

pub record Limiter : Type 0 where
  pub actors : List (String × ActorEntry)
  -- the ids of the sockets with the TRACKED flag
  pub tracked : List String

abbrev pub new_entry : ActorEntry
new_entry = record { sockets = []; buckets = []; empty_since = none }

abbrev no_sockets : List String → Bool
no_sockets [] = true
no_sockets (x ∷ xs) = false

abbrev elapsed_since : Options → ℕ → Option ℕ → Bool
elapsed_since opts now none = false
elapsed_since opts now (some t) = leb (t + opts.eviction_grace_ms) now

pub is_evictable : Options → ℕ → ActorEntry → Bool
is_evictable opts now entry = no_sockets entry.sockets && elapsed_since opts now entry.empty_since

pub sweep : Options → ℕ → List (String × ActorEntry) → List (String × ActorEntry)
sweep opts now [] = []
sweep opts now ((key, entry) ∷ actors) =
    let rest = sweep opts now actors in
    if is_evictable opts now entry then rest else (key, entry) ∷ rest

-- The sweep, then the actor's entry, a new one if it has none.
pub entry_for : Options → ℕ → String → List (String × ActorEntry) → ActorEntry
entry_for opts now key actors = or_else (get key (sweep opts now actors)) new_entry

-- The entry once the socket is attached to it, which the socket's flag says it is already.
pub attach : Socket → List String → ActorEntry → ActorEntry
attach socket tracked entry =
    if contains socket.id tracked
    then entry
    else record entry { sockets = add socket.id entry.sockets; empty_since = none }

-- The flag is set once, and `add` changes nothing from then on.
pub track : Options → ℕ → Socket → Limiter → Limiter
track opts now socket l = record {
  actors =
      set key (attach socket l.tracked (entry_for opts now key l.actors)) (sweep opts now l.actors);
  tracked = add socket.id l.tracked;
}
  where
    key : String
    key = actor_key_for socket

-- The entry once a socket has left it.
pub detach : ℕ → String → ActorEntry → ActorEntry
detach now id entry =
    let left = remove id entry.sockets in
    record entry {
      sockets = left;
      empty_since = if no_sockets left then some now else entry.empty_since;
    }

-- The listener that `track` registers once for a socket.
pub disconnect : ℕ → Socket → Limiter → Limiter
disconnect now socket l = elim (get (actor_key_for socket) l.actors) [
  | none ↦ l
  | some entry ↦ record l {
    actors = set (actor_key_for socket) (detach now socket.id entry) l.actors;
  }
]

abbrev pub full_bucket : BucketConfig → ℕ → BucketState
full_bucket config now = record { tokens = config.capacity * 1000; last = now; violations = 0 }

-- The actor's bucket, a full one if it has none.
pub bucket_state : BucketConfig → ℕ → String → ActorEntry → BucketState
bucket_state config now bucket entry = or_else (get bucket entry.buckets) (full_bucket config now)

-- What a guarded event comes to. `acked` carries the delay that the answer names.
pub data Outcome : Type 0 where
  handled disconnected dropped : Outcome
  acked : ℕ → Outcome
  unknown_bucket : Outcome

-- What one event does to the bucket, and what it comes to.
pub spend : Options → BucketConfig → ℕ → Cost → Bool → BucketState → BucketState × Outcome
spend opts config now cost has_callback s =
    settle (consume_token s config now (clamp_cost config cost))
  where
    settle : BucketState × ConsumeResult → BucketState × Outcome
    settle (t, r) = if r.allowed then (record t { violations = 0 }, handled) else (
      record t { violations = t.violations + 1 },
      if leb opts.flood_disconnect_threshold (t.violations + 1)
          then disconnected
          else if has_callback
          then acked r.retry_after_ms
          else dropped,
    )

-- The registration of a handler: `none` is the error on an unknown bucket.
pub guard : Options → ℕ → Socket → String → Limiter → Option Limiter
guard opts now socket bucket l = elim (get bucket opts.buckets) [
  | none ↦ none
  | some config ↦ some (track opts now socket l)
]

-- The function that `guard` returns, called with an event.
pub invoke : Options → ℕ → Socket → String → Cost → Bool → Limiter → Limiter × Outcome
invoke opts now socket bucket cost has_callback l = elim (get bucket opts.buckets) [
  | none ↦ (track opts now socket l, unknown_bucket)
  | some config ↦ (
    record tracked {
      actors =
          set key (record entry { buckets = set bucket (spent config).0 entry.buckets })
            tracked.actors;
    },
    (spent config).1,
  )
]
  where
    key : String
    key = actor_key_for socket

    tracked : Limiter
    tracked = track opts now socket l

    entry : ActorEntry
    entry = or_else (get key tracked.actors) new_entry

    spent : BucketConfig → BucketState × Outcome
    spent config = spend opts config now cost has_callback (bucket_state config now bucket entry)
