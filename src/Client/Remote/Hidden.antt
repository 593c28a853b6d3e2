-- ===== src/Client/Remote/Hidden.antt =====
-- A shared screen and the camera or microphone beside it, when the latter's consumer is closed, in
-- client/src/hooks/useMediasoup.ts.
use a_meet.Client.Remote.{
  ConsumerEntry, Remote, drop_peer, close_camera, close_entry, close_consumer_by_id, leave_camera,
  closes, step,
}
use a_meet.Prelude.{
  String, eq_refl, eq_iff, ◌≡◌, ◌≢◌, ◌∙◌, sym, ap, subst, false, none, some, List, [], ◌∷◌, arith,
}
use a_meet.Prelude.Maps.{get, delete, remove, get-delete}
use a_meet.Sfu.{Kind}

-- A screen's stream is kept and a consumer of it is open, and yet it is not published.
pub record IsHidden (s screen : String) (e : ConsumerEntry) (ts : List String) (r : Remote)
    : Type 0 where
  pub kept : get s r.screen_streams ≡ some ts
  pub open_still : get screen r.consumers ≡ some e
  pub unpublished : get s r.remote_screens ≡ none

remove_only : (id : String) → remove id (id ∷ []) ≡ []
unfolding remove
remove_only id = simp eq_refl

closed_camera :
    (id s : String) (kind : Kind) (r : Remote)
    → get s r.peer_streams ≡ some (id ∷ [])
    → close_camera id s kind r ≡ drop_peer s (record r { peer_streams = delete s r.peer_streams })
unfolding close_camera leave_camera
closed_camera id s kind r g =
    rw (close_camera, g) (ap (λ ts. leave_camera s kind ts r) (remove_only id))

-- A participant's last consumer of a peer's camera or microphone is closed while a consumer of the
-- peer's screen is open: the screen is no longer published, although its consumer stays open and its
-- stream is kept.
pub closes-IsHidden :
    (id s screen producer_id : String) (kind : Kind) (e : ConsumerEntry) (ts : List String)
    (r : Remote)
    → get id r.consumers
      ≡ some (record {
        producer_id = producer_id;
        info = record { socket_id = s; kind = kind; is_screen = false };
      })
    → get s r.peer_streams ≡ some (id ∷ [])
    → id ≢ screen
    → get screen r.consumers ≡ some e
    → get s r.screen_streams ≡ some ts
    → IsHidden s screen e ts (step (closes id) r)
unfolding step close_consumer_by_id close_entry drop_peer
closes-IsHidden id s screen producer_id kind e ts r c g ne o k =
    let closed = record r {
      consumers = delete id r.consumers;
      producer_info = delete producer_id r.producer_info;
    } in
    rw (c, close_entry)
      (subst (IsHidden s screen e ts) (sym (closed_camera id s kind closed g)) (record {
        kept = k;
        open_still = get-delete id screen r.consumers ∙ ground (arith, eq_iff id screen);
        unpublished = get-delete s s r.remote_screens ∙ simp eq_refl;
      }))
