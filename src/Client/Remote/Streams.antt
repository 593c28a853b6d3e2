-- ===== src/Client/Remote/Streams.antt =====
-- Streams and the consumers whose tracks stand in them, as a track is added, removed, or a whole
-- stream goes: lemmas about the maps of client/src/hooks/useMediasoup.ts.
use a_meet.Client.Remote.{Map, ConsumerEntry, tracks_of, without_peer}
use a_meet.Prelude.{
  Bool, String, ◌==◌, eq_iff, ◌≡◌, ap, true, false, some, List, [], ◌∷◌, if◌then◌else◌, All, arith,
  inl, inr, Bool-cases,
}
use a_meet.Prelude.Maps.{
  get, set, delete, add, remove, contains, get-set, get-delete, contains-add, contains-remove,
}

-- The track of this consumer, if it is of a screen or if it is not, stands in its peer's stream.
abbrev pub IsShownIn : Bool → Map (List String) → String × ConsumerEntry → Type 0
IsShownIn screen streams (id, e) =
    e.info.is_screen ≡ screen → contains id (tracks_of e.info.socket_id streams) ≡ true

pub tracks_of-set :
    (s j : String) (ts : List String) (m : Map (List String))
    → tracks_of j (set s ts m) ≡ (if s == j then ts else tracks_of j m)
tracks_of-set s j ts m = ground (arith, get-set s j ts m)

tracks_of-delete :
    (s j : String) (m : Map (List String))
    → tracks_of j (delete s m) ≡ (if s == j then [] else tracks_of j m)
tracks_of-delete s j m = ground (arith, get-delete s j m)

module _ (screen : Bool) (id s : String) where
  added_in :
      (streams : Map (List String)) (x : String × ConsumerEntry)
      → IsShownIn screen streams x
      → IsShownIn screen (set s (add id (tracks_of s streams)) streams) x
  added_in streams (k, e) v c =
      let old = v c in
      ground (
        arith,
        eq_iff s e.info.socket_id,
        contains-add id k (tracks_of s streams),
        tracks_of-set s e.info.socket_id (add id (tracks_of s streams)) streams,
      )

  -- A track more in one stream
  pub shown_added :
      (streams : Map (List String)) (m : Map ConsumerEntry)
      → All (IsShownIn screen streams) m
      → All (IsShownIn screen (set s (add id (tracks_of s streams)) streams)) m
  shown_added streams [] v = tt
  shown_added streams (x ∷ m) v = (added_in streams x v.0, shown_added streams m v.1)

  removed_in :
      (streams : Map (List String)) (ts : List String) (k : String) (e : ConsumerEntry)
      → get s streams ≡ some ts
      → k == id ≡ false
      → IsShownIn screen streams (k, e)
      → IsShownIn screen (set s (remove id ts) streams) (k, e)
  removed_in streams ts k e g ne v c =
      let old = v c in
      ground (
        arith,
        eq_iff s e.info.socket_id,
        eq_iff k id,
        eq_iff id k,
        contains-remove id k ts,
        tracks_of-set s e.info.socket_id (remove id ts) streams,
      )

  -- A track less in one stream, and its entry gone
  pub shown_removed :
      (streams : Map (List String)) (ts : List String) (m : Map ConsumerEntry)
      → get s streams ≡ some ts
      → All (IsShownIn screen streams) m
      → All (IsShownIn screen (set s (remove id ts) streams)) (delete id m)
  unfolding delete
  shown_removed streams ts [] g v = tt
  shown_removed streams ts ((k, e) ∷ m) g v = elim (Bool-cases (k == id)) [
    | inl eq ↦ rw eq (shown_removed streams ts m g v.1)
    | inr ne ↦ rw ne (removed_in streams ts k e g ne v.0, shown_removed streams ts m g v.1)
  ]

  emptied_in :
      (streams : Map (List String)) (ts : List String) (k : String) (e : ConsumerEntry)
      → get s streams ≡ some ts
      → remove id ts ≡ []
      → k == id ≡ false
      → IsShownIn screen streams (k, e)
      → IsShownIn screen (delete s streams) (k, e)
  unfolding contains
  emptied_in streams ts k e g none_left ne v c =
      let old = v c in
      let left : contains k (remove id ts) ≡ false = ap (contains k) none_left in
      ground (
        arith,
        eq_iff s e.info.socket_id,
        eq_iff k id,
        eq_iff id k,
        contains-remove id k ts,
        tracks_of-delete s e.info.socket_id streams,
      )

  -- The last track of a stream, and its entry gone
  pub shown_emptied :
      (streams : Map (List String)) (ts : List String) (m : Map ConsumerEntry)
      → get s streams ≡ some ts
      → remove id ts ≡ []
      → All (IsShownIn screen streams) m
      → All (IsShownIn screen (delete s streams)) (delete id m)
  unfolding delete
  shown_emptied streams ts [] g n v = tt
  shown_emptied streams ts ((k, e) ∷ m) g n v = elim (Bool-cases (k == id)) [
    | inl eq ↦ rw eq (shown_emptied streams ts m g n v.1)
    | inr ne ↦ rw ne (emptied_in streams ts k e g n ne v.0, shown_emptied streams ts m g n v.1)
  ]

other_peer :
    (screen : Bool) (s : String) (streams : Map (List String)) (k : String) (e : ConsumerEntry)
    → e.info.socket_id == s ≡ false
    → IsShownIn screen streams (k, e)
    → IsShownIn screen (delete s streams) (k, e)
other_peer screen s streams k e ne v c =
    let old = v c in
    ground (
      arith,
      eq_iff s e.info.socket_id,
      eq_iff e.info.socket_id s,
      tracks_of-delete s e.info.socket_id streams,
    )

pub shown_without :
    (screen : Bool) (s : String) (streams : Map (List String)) (m : Map ConsumerEntry)
    → All (IsShownIn screen streams) m
    → All (IsShownIn screen (delete s streams)) (without_peer s m)
unfolding without_peer
shown_without screen s streams [] v = tt
shown_without screen s streams ((k, e) ∷ m) v = elim (Bool-cases (e.info.socket_id == s)) [
  | inl eq ↦ rw eq (shown_without screen s streams m v.1)
  | inr ne ↦ rw ne (other_peer screen s streams k e ne v.0, shown_without screen s streams m v.1)
]
