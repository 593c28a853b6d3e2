-- ===== src/Sfu/Moderation/Mutes.antt =====
-- What the host's mute commands do to the microphones of a room.
use a_meet.Prelude.{
  ◌≢◌, subst, String, ◌==◌, eq_iff, eq_refl, ◌≡◌, refl, Bool, true, false, not, ◌&&◌, Option, none,
  some, List, [], ◌∷◌, map, arith, if◌then◌else◌, Option-cases, Bool-cases, inl, inr, ◌∙◌, ap, In,
  In-map,
}
use a_meet.Prelude.Maps.{get, In-get}
use a_meet.Types.{Query}
use a_meet.Sfu.{Sfu, Room, Peer, get_room, get_peer, update_peer}
use a_meet.Sfu.Rooms.{changed, get_peer-update_peer}
use a_meet.Sfu.Join.{Socket}
use a_meet.Sfu.Moderation.{
  mic_producer, silence, pause_mic, muted, mute_one, mute_each, mute_room, moderate, command,
  mute_all, caller_is_host,
}
use a_meet.Sfu.Moderation.Microphones.{
  has_mics_off, is_mutable, mic_sends, silenced, silenced-has_mics_off, silenced_off,
}

module _ (pauses : String → Bool) (r target : String) (peer : Peer) (s : Sfu)
    (here : get_peer r target s ≡ some peer) where
  pause_mic-off :
      mic_sends pauses (mic_producer peer.producers) ≡ false
      → (muted s (pause_mic pauses r target s)).sfu ≡ s
  unfolding pause_mic mic_sends
  pause_mic-off h = rw (here, pause_mic) (ground arith)

  pause_mic-sends :
      mic_sends pauses (mic_producer peer.producers) ≡ true
      → (muted s (pause_mic pauses r target s)).sfu ≡ update_peer r target peer.ref silence s
  unfolding pause_mic mic_sends
  pause_mic-sends h = rw (here, pause_mic) (ground arith)

changed_self : (peer : Peer) → changed peer.ref silence (some peer) ≡ some (silence peer)
changed_self peer = ground arith

get_peer-pause_mic :
    (pauses : String → Bool) (r target q j : String) (s : Sfu)
    → get_peer q j (muted s (pause_mic pauses r target s)).sfu ≡ (
        if (r == q) && (target == j) then silenced pauses (get_peer r target s) else get_peer q j s)
get_peer-pause_mic pauses r target q j s = elim (Option-cases (get_peer r target s)) [
  | inl e ↦ (ap (λ t. get_peer q j t) (missing e)) ∙ ground (arith, eq_iff r q, eq_iff target j)
  | inr (peer, e) ↦ elim (Bool-cases (mic_sends pauses (mic_producer peer.producers))) [
    | inl on ↦
        ap (λ t. get_peer q j t) (pause_mic-sends pauses r target peer s e on)
        ∙ get_peer-update_peer r q target j peer.ref silence s
        ∙ ground (arith, changed_self peer)
    | inr off ↦
        ap (λ t. get_peer q j t) (pause_mic-off pauses r target peer s e off)
        ∙ ground (arith, eq_iff r q, eq_iff target j)
  ]
]
  where
    missing : get_peer r target s ≡ none → (muted s (pause_mic pauses r target s)).sfu ≡ s
    missing e = unfold pause_mic in rw (e, pause_mic)

-- One mute silences its target, unless that is the caller, and changes nobody else.
get_peer-mute_one :
    (pauses : String → Bool) (socket : Socket) (target r q j : String) (s : Sfu)
    → get_peer q j (mute_one pauses socket target (some r) s).sfu ≡ (
        if (r == q) && (target == j) && not (target == socket.id)
        then silenced pauses (get_peer r target s)
        else get_peer q j s)
get_peer-mute_one pauses socket target r q j s = elim (Bool-cases (target == socket.id)) [
  | inl own ↦ rw own (ground arith)
  | inr other ↦ rw other (get_peer-pause_mic pauses r target q j s ∙ ground arith)
]

-- A peer whose microphones are off keeps them off.
mute_one_keeps :
    (pauses : String → Bool) (socket : Socket) (target r q j : String) (s : Sfu)
    → has_mics_off (get_peer q j s) ≡ true
    → has_mics_off (get_peer q j (mute_one pauses socket target (some r) s).sfu) ≡ true
mute_one_keeps pauses socket target r q j s h =
    rw (get_peer-mute_one pauses socket target r q j s)
      (ground (arith, eq_iff r q, eq_iff target j, silenced_off pauses (get_peer q j s)))

mute_each_keeps :
    (pauses : String → Bool) (socket : Socket) (r q j : String) (targets : List String) (s : Sfu)
    → has_mics_off (get_peer q j s) ≡ true
    → has_mics_off (get_peer q j (mute_each pauses socket r targets s).sfu) ≡ true
unfolding mute_each
mute_each_keeps pauses socket r q j [] s h = h
mute_each_keeps pauses socket r q j (t ∷ ts) s h =
    mute_each_keeps pauses socket r q j ts _ (mute_one_keeps pauses socket t r q j s h)

mute_one_other :
    (pauses : String → Bool) (socket : Socket) (target r j : String) (s : Sfu)
    → target ≢ j
    → get_peer r j (mute_one pauses socket target (some r) s).sfu ≡ get_peer r j s
mute_one_other pauses socket target r j s ne =
    get_peer-mute_one pauses socket target r r j s ∙ ground (arith, eq_iff target j)

mute_one_target :
    (pauses : String → Bool) (socket : Socket) (r j : String) (s : Sfu)
    → (j == socket.id) ≡ false
    → is_mutable pauses (get_peer r j s) ≡ true
    → has_mics_off (get_peer r j (mute_one pauses socket j (some r) s).sfu) ≡ true
mute_one_target pauses socket r j s other h =
    rw (get_peer-mute_one pauses socket j r r j s)
      (rw (eq_refl r) (rw (eq_refl j) (rw other (silenced-has_mics_off pauses (get_peer r j s) h))))

mute_each-has_mics_off :
    (pauses : String → Bool) (socket : Socket) (r j : String) (targets : List String) (s : Sfu)
    → (j == socket.id) ≡ false
    → is_mutable pauses (get_peer r j s) ≡ true
    → In j targets
    → has_mics_off (get_peer r j (mute_each pauses socket r targets s).sfu) ≡ true
unfolding mute_each
mute_each-has_mics_off pauses socket r j [] s other m h = elim h [ ]
mute_each-has_mics_off pauses socket r j (t ∷ ts) s other m h = elim (Bool-cases (t == j)) [
  | inl e ↦
      let same : j ≡ t = ground (arith, eq_iff t j) in
      mute_each_keeps pauses socket r r j ts _ (
        subst (λ k. has_mics_off (get_peer r j (mute_one pauses socket k (some r) s).sfu) ≡ true)
          same (mute_one_target pauses socket r j s other m))
  | inr n ↦
      let ne : t ≢ j = λ p. ground (arith, eq_iff t j) in
      mute_each-has_mics_off pauses socket r j ts _ other
        (rw (mute_one_other pauses socket t r j s ne) m) (later ne h)
]
  where
    later : (t ≢ j) → In j (t ∷ ts) → In j ts
    later ne (inl p) = absurd (ne p)
    later ne (inr k) = k

mute_each_elsewhere :
    (pauses : String → Bool) (socket : Socket) (r q j : String) (targets : List String) (s : Sfu)
    → ((r == q) && not (j == socket.id)) ≡ false
    → get_peer q j (mute_each pauses socket r targets s).sfu ≡ get_peer q j s
unfolding mute_each
mute_each_elsewhere pauses socket r q j [] s h = refl
mute_each_elsewhere pauses socket r q j (t ∷ ts) s h =
    mute_each_elsewhere pauses socket r q j ts _ h
    ∙ get_peer-mute_one pauses socket t r q j s
    ∙ ground (arith, eq_iff t j)

no_peer : (r j : String) (s : Sfu) → get_room r s ≡ none → get_peer r j s ≡ none
unfolding get_room get_peer
no_peer r j s e = ground arith

peer_of_room :
    (r j : String) (room : Room) (peer : Peer) (s : Sfu)
    → get_room r s ≡ some room
    → get_peer r j s ≡ some peer
    → get j room.peers ≡ some peer
unfolding get_room get_peer
peer_of_room r j room peer s e at = ground arith

abbrev sockets_of : Room → List String
sockets_of room = map (λ e. e.0) room.peers

-- `sfu-mute-all`, once its caller is known as the room's administrator and where nothing interrupts
-- it: no microphone sends of any peer of the room but the caller's own that has one microphone at most
-- and whose microphone mediasoup pauses, whether or not it fails to pause those of others. The caller's
-- peer and the peers of all other rooms are as before.
pub mute_all-mutes :
    (pauses : String → Bool) (socket : Socket) (user_room : String → Option String) (query : Query)
    (asked : Option String) (r j : String) (s : Sfu)
    → caller_is_host socket query asked ≡ some r
    → let t = (moderate pauses socket user_room query mute_all asked s).sfu in
      ((j == socket.id) ≡ false
        → is_mutable pauses (get_peer r j s) ≡ true
        → has_mics_off (get_peer r j t) ≡ true)
      × ((q : String)
          → ((r == q) && not (j == socket.id)) ≡ false
          → get_peer q j t ≡ get_peer q j s)
unfolding moderate command
mute_all-mutes pauses socket user_room query asked r j s host =
    rw host (elim (Option-cases (get_room r s)) [
      | inl e ↦ rw (e, mute_room) ((λ other m. rw (no_peer r j s e)), λ q h. refl)
      | inr (room, e) ↦
          rw (e, mute_room)
            (
              (λ other m. elim (Option-cases (get_peer r j s)) [
                | inl gone ↦ mute_each_keeps pauses socket r r j (sockets_of room) s (rw gone refl)
                | inr (peer, at) ↦
                    mute_each-has_mics_off pauses socket r j (sockets_of room) s other m (
                      In-map (λ (x : String × Peer). x.0) (j, peer) room.peers
                        (In-get j peer room.peers (peer_of_room r j room peer s e at)))
              ]),
              λ q h. mute_each_elsewhere pauses socket r q j (sockets_of room) s h,
            )
    ])
