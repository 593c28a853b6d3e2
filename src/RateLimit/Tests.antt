-- ===== src/RateLimit/Tests.antt =====
-- Tests of the limiter of server/src/socket/rate-limit.ts, at the chat bucket's default
-- configuration, and its theorems at concrete inputs.
use a_meet.Prelude.{
  ◌*◌, ◌+◌, ◌≤◌, ◌≡◌, ◌≢◌, refl, true, false, ◌≢◌, List, [], ◌∷◌, arith, none, some, eq_iff,
}
use a_meet.Prelude.Maps.{get, set, contains, add, remove, delete}
use a_meet.Prelude.Text.{is_empty, trim, last_part, join_comma}
use a_meet.RateLimit.{
  BucketConfig, BucketState, refilled, consume_token, finite, other, clamp_cost, Socket,
  actor_key_for, ActorEntry, Options, Limiter, is_evictable, sweep, entry_for, attach, track,
  detach, disconnect, bucket_state, handled, disconnected, dropped, acked, spend, guard, invoke,
  chat_message_token_cost,
}
use a_meet.RateLimit.Rate.{run_bucket, run_bucket-rate}
use a_meet.RateLimit.Flood.{Event, run_events, Counts, run_events-violations}

limiter : Unit {0}
unfolding invoke guard spend bucket_state disconnect detach track attach entry_for sweep
    is_evictable actor_key_for clamp_cost consume_token refilled get set delete contains add remove
    trim last_part join_comma is_empty run_events chat_message_token_cost
limiter = tt

abbrev chat : BucketConfig
chat = record { capacity = 20; refill_per_sec = 5 }

abbrev opts : Options
opts = record {
  buckets = ("chat", chat) ∷ [];
  flood_disconnect_threshold = 3;
  eviction_grace_ms = 600_000;
}

abbrev ann : Socket
ann = record { id = "s1"; user_id = "u1"; forwarded_for = []; address = "10.0.0.1" }

abbrev ann_again : Socket
ann_again = record { id = "s2"; user_id = "u1"; forwarded_for = []; address = "10.0.0.1" }

abbrev guest : Socket
guest = record {
  id = "s3";
  user_id = "";
  forwarded_for = "1.1.1.1, 9.9.9.9 " ∷ [];
  address = "10.0.0.1";
}

abbrev drained : BucketState
drained = record { tokens = 500; last = 1000; violations = 0 }

abbrev ann_entry : ActorEntry
ann_entry = record { sockets = "s1" ∷ []; buckets = ("chat", drained) ∷ []; empty_since = none }

abbrev crowd : Limiter
crowd = record {
  actors =
      ("user:u1", ann_entry)
      ∷ ("ip:9.9.9.9", record { sockets = []; buckets = []; empty_since = some 1000 })
      ∷ [];
  tracked = "s1" ∷ "s3" ∷ [];
}

keys :
    (actor_key_for ann ≡ "user:u1")
    × (actor_key_for guest ≡ "ip:9.9.9.9")
    × (actor_key_for (record guest { forwarded_for = [] }) ≡ "ip:10.0.0.1")
unfolding limiter
keys = (refl, refl, refl)

costs :
    (chat_message_token_cost chat none ≡ 20)
    × (chat_message_token_cost chat (some 1001) ≡ 2)
    × (clamp_cost chat (finite 48_000_000) ≡ 20)
    × (clamp_cost chat other ≡ 1)
unfolding limiter
costs = (refl, refl, refl, refl)

-- A chat message on a drained bucket is refused and answered; with no callback it is dropped.
refused :
    ((invoke opts 1000 ann "chat" (finite 1000) true crowd).1 ≡ acked 100)
    × ((invoke opts 1000 ann "chat" (finite 1000) false crowd).1 ≡ dropped)
    × ((invoke opts 1100 ann "chat" (finite 1000) true crowd).1 ≡ handled)
unfolding limiter
refused = (refl, refl, refl)

-- The sweep evicts the guest, whose grace has passed.
swept : get "ip:9.9.9.9" (track opts 601_000 ann crowd).actors ≡ none
unfolding limiter
swept = refl

unknown : guard opts 0 ann "video" crowd ≡ none
unfolding limiter
unknown = refl

run_bucket-rate_example :
    (run_bucket chat drained ((1000, 1) ∷ (3000, 2) ∷ (9000, 8) ∷ [])).1 * 1000
    ≤ 20 * 1000 + 8000 * 5
run_bucket-rate_example =
    run_bucket-rate chat drained ((1000, 1) ∷ (3000, 2) ∷ (9000, 8) ∷ []) (omega arith)
      (omega arith)

other_keys : actor_key_for guest ≢ "user:u1"
unfolding limiter
other_keys = ground (arith, eq_iff "ip:9.9.9.9" "user:u1")

abbrev burst : List Event
burst =
    record { time = 1000; cost = finite 1000; has_callback = true }
    ∷ record { time = 1001; cost = finite 1000; has_callback = true }
    ∷ record { time = 1002; cost = finite 1000; has_callback = true }
    ∷ []

burst_outcomes : (run_events opts chat drained burst).1 ≡ acked 100 ∷ acked 99 ∷ disconnected ∷ []
unfolding limiter
burst_outcomes = refl

run_events-violations_example :
    Counts opts chat 0
      (run_events opts chat drained burst).1
      (run_events opts chat drained burst).0.violations
run_events-violations_example = run_events-violations opts chat drained burst
