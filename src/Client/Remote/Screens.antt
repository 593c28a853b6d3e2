-- ===== src/Client/Remote/Screens.antt =====
-- The screens of the others in client/src/hooks/useMediasoup.ts: the streams that are kept of them, and
-- what is published.
use a_meet.Client.Remote.{
  Map, ConsumerEntry, Connection, Remote, new_remote, drop_peer, is_screen, begin_consume,
  tracks_of, add_consumer, finish_consume, fail_consume, close_screen, close_camera, close_entry,
  close_consumer_by_id, remove_peer, set_peer_kind, on_hand_raise_update, on_connection_state,
  clear_remote_state, leave_screen, leave_camera, begin_consume_on, Event, consumes, arrives,
  resumes, fails, closes, leaves, switches, raises, clears, changes, step, run,
}
use a_meet.Prelude.{
  is_some, String, eq_iff, ◌≡◌, refl, subst, Bool, true, false, Option, none, some, List, [], ◌∷◌,
  All, arith, inl, inr, Bool-cases, Option-cases,
}
use a_meet.Prelude.Maps.{
  get, set, delete, add, remove, get-set, get-delete, contains-add, All-set, All-delete,
}
use a_meet.Sfu.{Descriptor, Kind}
use a_meet.Client.Remote.Streams.{
  IsShownIn, tracks_of-set, shown_added, shown_removed, shown_emptied, shown_without,
}

-- The track of each open consumer of a screen is in its stream, and what is published is kept.
pub record IsScreened (r : Remote) : Type 0 where
  pub kept : All (IsShownIn true r.screen_streams) r.consumers
  pub published :
      (s : String) (ts : List String)
      → get s r.remote_screens ≡ some ts
      → get s r.screen_streams ≡ some ts

-- What is published stays within what is kept, where both get or lose a stream,
set_both :
    (s : String) (new : List String) (m n : Map (List String))
    → ((j : String) (ts : List String) → get j m ≡ some ts → get j n ≡ some ts)
    → (j : String) (ts : List String) → get j (set s new m) ≡ some ts
    → get j (set s new n) ≡ some ts
set_both s new m n v j ts h = let w = v j ts in ground (arith, get-set s j new m, get-set s j new n)

delete_both :
    (s : String) (m n : Map (List String))
    → ((j : String) (ts : List String) → get j m ≡ some ts → get j n ≡ some ts)
    → (j : String) (ts : List String) → get j (delete s m) ≡ some ts
    → get j (delete s n) ≡ some ts
delete_both s m n v j ts h = let w = v j ts in ground (arith, get-delete s j m, get-delete s j n)

-- and where one is no longer published.
delete_one :
    (s : String) (m n : Map (List String))
    → ((j : String) (ts : List String) → get j m ≡ some ts → get j n ≡ some ts)
    → (j : String) (ts : List String) → get j (delete s m) ≡ some ts
    → get j n ≡ some ts
delete_one s m n v j ts h = let w = v j ts in ground (arith, get-delete s j m)

arrived_screen :
    (d : Descriptor) (id : String) (kind : Kind) (r : Remote)
    → is_screen d.source ≡ true
    → IsScreened r
    → IsScreened (add_consumer d id kind r)
unfolding add_consumer
arrived_screen d id kind r e v =
    let ts = add id (tracks_of d.socket_id r.screen_streams) in
    rw e (record {
      kept =
          All-set (IsShownIn true (set d.socket_id ts r.screen_streams)) id
            (record {
              producer_id = d.producer_id;
              info = record { socket_id = d.socket_id; kind = kind; is_screen = true };
            })
            r.consumers
            (λ c. ground (
              arith,
              eq_iff d.socket_id d.socket_id,
              eq_iff id id,
              contains-add id id (tracks_of d.socket_id r.screen_streams),
              tracks_of-set d.socket_id d.socket_id ts r.screen_streams,
            ))
            (shown_added true id d.socket_id r.screen_streams r.consumers v.kept);
      published = set_both d.socket_id ts r.remote_screens r.screen_streams v.published;
    })

arrived_camera :
    (d : Descriptor) (id : String) (kind : Kind) (r : Remote)
    → is_screen d.source ≡ false
    → IsScreened r
    → IsScreened (add_consumer d id kind r)
unfolding add_consumer
arrived_camera d id kind r e v = rw e (record {
  kept =
      All-set (IsShownIn true r.screen_streams) id
        (record {
          producer_id = d.producer_id;
          info = record { socket_id = d.socket_id; kind = kind; is_screen = false };
        })
        r.consumers (λ c. ground arith) v.kept;
  published = v.published;
})

add_consumer-IsScreened :
    (d : Descriptor) (id : String) (kind : Kind) (r : Remote)
    → IsScreened r
    → IsScreened (add_consumer d id kind r)
add_consumer-IsScreened d id kind r v = elim (Bool-cases (is_screen d.source)) [
  | inl e ↦ arrived_screen d id kind r e v
  | inr e ↦ arrived_camera d id kind r e v
]

leave_screen-IsScreened :
    (id s : String) (ts left : List String) (m : Map ConsumerEntry) (r : Remote)
    → get s r.screen_streams ≡ some ts
    → remove id ts ≡ left
    → r.consumers ≡ delete id m
    → All (IsShownIn true r.screen_streams) m
    → ((j : String) (us : List String)
        → get j r.remote_screens ≡ some us
        → get j r.screen_streams ≡ some us)
    → IsScreened (leave_screen s left r)
unfolding leave_screen
leave_screen-IsScreened id s ts [] m r g n e v w = record {
  kept = rw e (shown_emptied true id s r.screen_streams ts m g n v);
  published = delete_both s r.remote_screens r.screen_streams w;
}
leave_screen-IsScreened id s ts (x ∷ left) m r g n e v w = record {
  kept = rw e (
      subst (λ l. All (IsShownIn true (set s l r.screen_streams)) (delete id m)) n
        (shown_removed true id s r.screen_streams ts m g v));
  published = set_both s (x ∷ left) r.remote_screens r.screen_streams w;
}

close_screen-IsScreened :
    (id s : String) (m : Map ConsumerEntry) (r : Remote)
    → r.consumers ≡ delete id m
    → All (IsShownIn true r.screen_streams) m
    → ((j : String) (us : List String)
        → get j r.remote_screens ≡ some us
        → get j r.screen_streams ≡ some us)
    → IsScreened (close_screen id s r)
unfolding close_screen
close_screen-IsScreened id s m r e v w = elim (Option-cases (get s r.screen_streams)) [
  | inl n ↦
      rw (close_screen, n)
        (record {
          kept = rw e (All-delete (IsShownIn true r.screen_streams) id m v);
          published = w;
        })
  | inr (ts, g) ↦
      rw (close_screen, g) (leave_screen-IsScreened id s ts (remove id ts) m r g refl e v w)
]

leave_camera-IsScreened :
    (s : String) (kind : Kind) (left : List String) (r : Remote)
    → IsScreened r
    → IsScreened (leave_camera s kind left r)
unfolding leave_camera drop_peer
leave_camera-IsScreened s kind [] r v = record {
  kept = v.kept;
  published = delete_one s r.remote_screens r.screen_streams v.published;
}
leave_camera-IsScreened s kind (x ∷ left) r v = record { kept = v.kept; published = v.published }

close_camera-IsScreened :
    (id s : String) (kind : Kind) (r : Remote)
    → IsScreened r
    → IsScreened (close_camera id s kind r)
unfolding close_camera
close_camera-IsScreened id s kind r v = elim (Option-cases (get s r.peer_streams)) [
  | inl n ↦ rw (close_camera, n) v
  | inr (ts, g) ↦ rw (close_camera, g) (leave_camera-IsScreened s kind (remove id ts) r v)
]

close_entry-IsScreened :
    (id : String) (e : Option ConsumerEntry) (r : Remote)
    → IsScreened r
    → IsScreened (close_entry id e r)
unfolding close_entry
close_entry-IsScreened id none r v = v
close_entry-IsScreened id (some e) r v =
    let closed = record r {
      consumers = delete id r.consumers;
      producer_info = delete e.producer_id r.producer_info;
    } in
    let left : IsScreened closed = record {
      kept = All-delete (IsShownIn true r.screen_streams) id r.consumers v.kept;
      published = v.published;
    } in
    elim (Bool-cases e.info.is_screen) [
      | inl s ↦
          rw s
            (close_screen-IsScreened id e.info.socket_id r.consumers closed refl v.kept v.published)
      | inr c ↦ rw c (close_camera-IsScreened id e.info.socket_id e.info.kind closed left)
    ]

remove_peer-IsScreened : (s : String) (r : Remote) → IsScreened r → IsScreened (remove_peer s r)
unfolding remove_peer drop_peer
remove_peer-IsScreened s r v = record {
  kept = shown_without true s r.screen_streams r.consumers v.kept;
  published = delete_both s r.remote_screens r.screen_streams v.published;
}

set_peer_kind-IsScreened :
    (id : String) (on : Bool) (r : Remote) → IsScreened r → IsScreened (set_peer_kind id on r)
unfolding set_peer_kind
set_peer_kind-IsScreened id on r v = elim (Option-cases (get id r.producer_info)) [
  | inl n ↦ rw (set_peer_kind, n) v
  | inr (info, g) ↦
      rw (set_peer_kind, g)
        (elim (Bool-cases info.is_screen) [
          | inl s ↦ rw s v
          | inr c ↦ rw c (record { kept = v.kept; published = v.published })
        ])
]

begin_consume_on-IsScreened :
    (t : Option (String × Connection)) (d : Descriptor) (r : Remote)
    → IsScreened r
    → IsScreened (begin_consume_on t d r).0
unfolding begin_consume_on
begin_consume_on-IsScreened none d r v = record { kept = v.kept; published = v.published }
begin_consume_on-IsScreened (some t) d r v = elim (Bool-cases r.has_device) [
  | inr n ↦ rw n (record { kept = v.kept; published = v.published })
  | inl n ↦ elim (Bool-cases (is_some (get d.producer_id r.producer_info))) [
    | inl k ↦ rw n (rw k (record { kept = v.kept; published = v.published }))
    | inr k ↦ rw n (rw k (record { kept = v.kept; published = v.published }))
  ]
]

step-IsScreened : (e : Event) (r : Remote) → IsScreened r → IsScreened (step e r)
unfolding step begin_consume finish_consume fail_consume close_consumer_by_id on_hand_raise_update
    clear_remote_state on_connection_state get
step-IsScreened (consumes d) r v = begin_consume_on-IsScreened r.recv_transport d r v
step-IsScreened (arrives d id kind) r v = add_consumer-IsScreened d id kind r v
step-IsScreened (resumes d kind paused) r v = record { kept = v.kept; published = v.published }
step-IsScreened (fails d) r v = record { kept = v.kept; published = v.published }
step-IsScreened (closes id) r v = close_entry-IsScreened id (get id r.consumers) r v
step-IsScreened (leaves s) r v = remove_peer-IsScreened s r v
step-IsScreened (switches id on) r v = set_peer_kind-IsScreened id on r v
step-IsScreened (raises s raised) r v = record { kept = v.kept; published = v.published }
step-IsScreened clears r v = record { kept = tt; published = λ s ts h. absurd (ground arith) }
step-IsScreened (changes state) r v = record { kept = v.kept; published = v.published }

run_on-IsScreened : (es : List Event) (r : Remote) → IsScreened r → IsScreened (run es r)
run_on-IsScreened [] r v = v
run_on-IsScreened (e ∷ es) r v = run_on-IsScreened es (step e r) (step-IsScreened e r v)

pub run-IsScreened : (es : List Event) → IsScreened (run es new_remote)
unfolding get
run-IsScreened es =
    run_on-IsScreened es new_remote
      (record { kept = tt; published = λ s ts h. absurd (ground arith) })
