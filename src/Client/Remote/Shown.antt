-- ===== src/Client/Remote/Shown.antt =====
-- What client/src/hooks/useMediasoup.ts consumes of the others, and the streams of their cameras and
-- microphones; the screens are the module Screens'.
use a_meet.Client.Remote.{
  Map, ConsumerEntry, Connection, Remote, new_remote, drop_peer, is_screen, begin_consume,
  tracks_of, add_consumer, finish_consume, fail_consume, close_screen, close_camera, close_entry,
  close_consumer_by_id, remove_peer, set_peer_kind, on_hand_raise_update, on_connection_state,
  clear_remote_state, leave_screen, leave_camera, begin_consume_on, Event, consumes, arrives,
  resumes, fails, closes, leaves, switches, raises, clears, changes, step, run,
}
use a_meet.Prelude.{
  String, eq_iff, ◌≡◌, ◌∙◌, refl, sym, ap, subst, Bool, true, false, Option, none, some, List, [],
  ◌∷◌, All, arith, inl, inr, Bool-cases, Option-cases,
}
use a_meet.Prelude.Maps.{
  get, set, delete, add, remove, get-set, get-delete, contains-add, All-set, All-delete,
}
use a_meet.Sfu.{Descriptor, Kind}
use a_meet.Client.Remote.Screens.{IsScreened, run-IsScreened}
use a_meet.Client.Remote.Streams.{
  IsShownIn, tracks_of-set, shown_added, shown_removed, shown_emptied, shown_without,
}

pub record IsShown (r : Remote) : Type 0 where
  pub mirrored : (s : String) → get s r.remote_streams ≡ get s r.peer_streams
  pub shown : All (IsShownIn false r.peer_streams) r.consumers

-- A camera's or a microphone's track: the stream and what is published of it
added_camera :
    (d : Descriptor) (id : String) (kind : Kind) (r : Remote)
    → is_screen d.source ≡ false
    → IsShown r
    → IsShown (add_consumer d id kind r)
unfolding add_consumer
added_camera d id kind r e v =
    let ts = add id (tracks_of d.socket_id r.peer_streams) in
    rw e (record {
      mirrored = λ j. ground (
        arith,
        get-set d.socket_id j ts r.remote_streams,
        get-set d.socket_id j ts r.peer_streams,
        v.mirrored j,
      );
      shown =
          All-set (IsShownIn false (set d.socket_id ts r.peer_streams)) id
            (record {
              producer_id = d.producer_id;
              info = record { socket_id = d.socket_id; kind = kind; is_screen = false };
            })
            r.consumers
            (λ c. ground (
              arith,
              eq_iff d.socket_id d.socket_id,
              eq_iff id id,
              contains-add id id (tracks_of d.socket_id r.peer_streams),
              tracks_of-set d.socket_id d.socket_id ts r.peer_streams,
            ))
            (shown_added false id d.socket_id r.peer_streams r.consumers v.shown);
    })

added_screen :
    (d : Descriptor) (id : String) (kind : Kind) (r : Remote)
    → is_screen d.source ≡ true
    → IsShown r
    → IsShown (add_consumer d id kind r)
unfolding add_consumer
added_screen d id kind r e v = rw e (record {
  mirrored = v.mirrored;
  shown =
      All-set (IsShownIn false r.peer_streams) id
        (record {
          producer_id = d.producer_id;
          info = record { socket_id = d.socket_id; kind = kind; is_screen = true };
        })
        r.consumers (λ c. ground arith) v.shown;
})

add_consumer-IsShown :
    (d : Descriptor) (id : String) (kind : Kind) (r : Remote)
    → IsShown r
    → IsShown (add_consumer d id kind r)
add_consumer-IsShown d id kind r v = elim (Bool-cases (is_screen d.source)) [
  | inl e ↦ added_screen d id kind r e v
  | inr e ↦ added_camera d id kind r e v
]

leave_camera-IsShown :
    (id s : String) (kind : Kind) (ts left : List String) (m : Map ConsumerEntry) (r : Remote)
    → get s r.peer_streams ≡ some ts
    → remove id ts ≡ left
    → r.consumers ≡ delete id m
    → All (IsShownIn false r.peer_streams) m
    → ((j : String) → get j r.remote_streams ≡ get j r.peer_streams)
    → IsShown (leave_camera s kind left r)
unfolding leave_camera drop_peer
leave_camera-IsShown id s kind ts [] m r g n e v w = record {
  mirrored =
      λ j. ground (arith, get-delete s j r.remote_streams, get-delete s j r.peer_streams, w j);
  shown = rw e (shown_emptied false id s r.peer_streams ts m g n v);
}
leave_camera-IsShown id s kind ts (x ∷ left) m r g n e v w = record {
  mirrored = λ j.
      ground (
        arith,
        get-set s j (x ∷ left) r.remote_streams,
        get-set s j (x ∷ left) r.peer_streams,
        w j,
      );
  shown = rw e (
      subst (λ l. All (IsShownIn false (set s l r.peer_streams)) (delete id m)) n
        (shown_removed false id s r.peer_streams ts m g v));
}

-- Only what is consumed and the streams of cameras matter.
same-IsShown :
    (r next : Remote)
    → next.consumers ≡ r.consumers
    → next.peer_streams ≡ r.peer_streams
    → next.remote_streams ≡ r.remote_streams
    → IsShown r
    → IsShown next
same-IsShown r next c p q v = record {
  mirrored = λ s. ap (get s) q ∙ v.mirrored s ∙ ap (get s) (sym p);
  shown = rw c (rw p v.shown);
}

close_camera-IsShown :
    (id s : String) (kind : Kind) (m : Map ConsumerEntry) (r : Remote)
    → r.consumers ≡ delete id m
    → All (IsShownIn false r.peer_streams) m
    → ((j : String) → get j r.remote_streams ≡ get j r.peer_streams)
    → IsShown (close_camera id s kind r)
unfolding close_camera
close_camera-IsShown id s kind m r e v w = elim (Option-cases (get s r.peer_streams)) [
  | inl n ↦
      rw (close_camera, n)
        (record { mirrored = w; shown = rw e (All-delete (IsShownIn false r.peer_streams) id m v) })
  | inr (ts, g) ↦
      rw (close_camera, g) (leave_camera-IsShown id s kind ts (remove id ts) m r g refl e v w)
]

leave_screen-IsShown :
    (s : String) (ts : List String) (r : Remote) → IsShown r → IsShown (leave_screen s ts r)
unfolding leave_screen
leave_screen-IsShown s [] r v = same-IsShown r (leave_screen s [] r) refl refl refl v
leave_screen-IsShown s (x ∷ ts) r v = same-IsShown r (leave_screen s (x ∷ ts) r) refl refl refl v

close_screen-IsShown : (id s : String) (r : Remote) → IsShown r → IsShown (close_screen id s r)
unfolding close_screen
close_screen-IsShown id s r v = elim (Option-cases (get s r.screen_streams)) [
  | inl n ↦ rw (close_screen, n) v
  | inr (ts, g) ↦ rw (close_screen, g) (leave_screen-IsShown s (remove id ts) r v)
]

close_entry-IsShown :
    (id : String) (e : Option ConsumerEntry) (r : Remote) → IsShown r → IsShown (close_entry id e r)
unfolding close_entry
close_entry-IsShown id none r v = v
close_entry-IsShown id (some e) r v =
    let closed = record r {
      consumers = delete id r.consumers;
      producer_info = delete e.producer_id r.producer_info;
    } in
    let kept : IsShown closed = record {
      mirrored = v.mirrored;
      shown = All-delete (IsShownIn false r.peer_streams) id r.consumers v.shown;
    } in
    elim (Bool-cases e.info.is_screen) [
      | inl s ↦ rw s (close_screen-IsShown id e.info.socket_id closed kept)
      | inr c ↦ rw c (
          close_camera-IsShown id e.info.socket_id e.info.kind r.consumers closed refl v.shown
            v.mirrored)
    ]

remove_peer-IsShown : (s : String) (r : Remote) → IsShown r → IsShown (remove_peer s r)
unfolding remove_peer drop_peer
remove_peer-IsShown s r v = record {
  mirrored = λ j.
      ground (arith, get-delete s j r.remote_streams, get-delete s j r.peer_streams, v.mirrored j);
  shown = shown_without false s r.peer_streams r.consumers v.shown;
}

set_peer_kind-IsShown :
    (id : String) (on : Bool) (r : Remote) → IsShown r → IsShown (set_peer_kind id on r)
unfolding set_peer_kind
set_peer_kind-IsShown id on r v = elim (Option-cases (get id r.producer_info)) [
  | inl n ↦ rw (set_peer_kind, n) v
  | inr (info, g) ↦
      rw (set_peer_kind, g)
        (elim (Bool-cases info.is_screen) [
          | inl s ↦ rw s v
          | inr c ↦ rw c (record { mirrored = v.mirrored; shown = v.shown })
        ])
]

begin_consume_on-IsShown :
    (t : Option (String × Connection)) (d : Descriptor) (r : Remote)
    → IsShown r
    → IsShown (begin_consume_on t d r).0
unfolding begin_consume_on
begin_consume_on-IsShown none d r v = record { mirrored = v.mirrored; shown = v.shown }
begin_consume_on-IsShown (some t) d r v = ground arith

step-IsShown : (e : Event) (r : Remote) → IsShown r → IsShown (step e r)
unfolding step begin_consume finish_consume fail_consume close_consumer_by_id on_hand_raise_update
    clear_remote_state on_connection_state
step-IsShown (consumes d) r v = begin_consume_on-IsShown r.recv_transport d r v
step-IsShown (arrives d id kind) r v = add_consumer-IsShown d id kind r v
step-IsShown (resumes d kind paused) r v = record { mirrored = v.mirrored; shown = v.shown }
step-IsShown (fails d) r v = record { mirrored = v.mirrored; shown = v.shown }
step-IsShown (closes id) r v = close_entry-IsShown id (get id r.consumers) r v
step-IsShown (leaves s) r v = remove_peer-IsShown s r v
step-IsShown (switches id on) r v = set_peer_kind-IsShown id on r v
step-IsShown (raises s raised) r v = record { mirrored = v.mirrored; shown = v.shown }
step-IsShown clears r v = record { mirrored = λ s. refl; shown = tt }
step-IsShown (changes state) r v = record { mirrored = v.mirrored; shown = v.shown }

run_on-IsShown : (es : List Event) (r : Remote) → IsShown r → IsShown (run es r)
run_on-IsShown [] r v = v
run_on-IsShown (e ∷ es) r v = run_on-IsShown es (step e r) (step-IsShown e r v)

-- Whatever is announced, answered, closed, left or cleared, in any order: the streams that are
-- published of the peers' cameras and microphones are those that the hook keeps, and each open consumer
-- of one has its track in its peer's stream. Each open consumer of a screen has its track in the
-- screen's stream that the hook keeps, and what is published for a peer's screen is that stream; a
-- screen that is kept may not be published.
pub run-IsShown : (es : List Event) → IsShown (run es new_remote) × IsScreened (run es new_remote)
run-IsShown es =
    (run_on-IsShown es new_remote (record { mirrored = λ s. refl; shown = tt }), run-IsScreened es)
