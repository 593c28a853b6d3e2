-- ===== src/Sfu/Moderation/Microphones.antt =====
-- The microphones among a peer's producers, and what a mute does to them: micProducer and pauseMic of
-- server/src/socket/sfu-handlers.ts.
use a_meet.Prelude.{
  ℕ, suc, leb, ◌||◌, String, ◌≡◌, refl, Bool, true, false, not, ◌&&◌, Option, none, some, List, [],
  ◌∷◌, arith, if◌then◌else◌, Bool-cases, inl, inr,
}
use a_meet.Sfu.{Peer, Producer}
use a_meet.Sfu.Producers.{is_mic}
use a_meet.Sfu.Moderation.{mic_producer, pause_first_mic, silence}

-- No microphone of these producers sends.
abbrev pub mics_off : List (String × Producer) → Bool
mics_off [] = true
mics_off ((key, p) ∷ ps) = (not (is_mic p) || p.paused) && mics_off ps

abbrev pub has_mics_off : Option Peer → Bool
has_mics_off none = true
has_mics_off (some peer) = mics_off peer.producers

abbrev pub count_mics : List (String × Producer) → ℕ
count_mics [] = 0
count_mics ((key, p) ∷ ps) = let n = count_mics ps in if is_mic p then suc n else n

-- mediasoup pauses each microphone of these that sends.
abbrev pub all_pausable : (String → Bool) → List (String × Producer) → Bool
all_pausable pauses [] = true
all_pausable pauses ((key, p) ∷ ps) =
    (not (is_mic p) || p.paused || pauses p.id) && all_pausable pauses ps

-- The peer has one microphone at most, and mediasoup pauses it.
abbrev pub is_mutable : (String → Bool) → Option Peer → Bool
is_mutable pauses none = true
is_mutable pauses (some peer) =
    leb (count_mics peer.producers) 1 && all_pausable pauses peer.producers

-- The microphone that is looked at sends and can be paused.
unfoldable pub mic_sends : (String → Bool) → Option (String × Producer) → Bool
mic_sends pauses none = false
mic_sends pauses (some (key, p)) = not p.paused && pauses p.id

abbrev pub silenced : (String → Bool) → Option Peer → Option Peer
silenced pauses none = none
silenced pauses (some peer) =
    some (if mic_sends pauses (mic_producer peer.producers) then silence peer else peer)

no_mics : (ps : List (String × Producer)) → count_mics ps ≡ 0 → mics_off ps ≡ true
no_mics [] h = refl
no_mics ((key, p) ∷ ps) h = ground (arith, no_mics ps)

mics_off-pause_first_mic :
    (ps : List (String × Producer))
    → leb (count_mics ps) 1 ≡ true
    → mics_off (pause_first_mic ps) ≡ true
unfolding pause_first_mic
mics_off-pause_first_mic [] h = refl
mics_off-pause_first_mic ((key, p) ∷ ps) h = ground (arith, mics_off-pause_first_mic ps, no_mics ps)

-- Where the one microphone is not paused now, none sends.
nothing_sends :
    (pauses : String → Bool) (ps : List (String × Producer))
    → leb (count_mics ps) 1 ≡ true
    → all_pausable pauses ps ≡ true
    → mic_sends pauses (mic_producer ps) ≡ false
    → mics_off ps ≡ true
unfolding mic_producer mic_sends
nothing_sends pauses [] c a h = refl
nothing_sends pauses ((key, p) ∷ ps) c a h = ground (arith, nothing_sends pauses ps, no_mics ps)

pub silenced-has_mics_off :
    (pauses : String → Bool) (o : Option Peer)
    → is_mutable pauses o ≡ true
    → has_mics_off (silenced pauses o) ≡ true
silenced-has_mics_off pauses none h = refl
silenced-has_mics_off pauses (some peer) h =
    elim (Bool-cases (mic_sends pauses (mic_producer peer.producers))) [
      | inl sends ↦ rw sends (mics_off-pause_first_mic peer.producers (ground arith))
      | inr not_now ↦
          rw not_now (nothing_sends pauses peer.producers (ground arith) (ground arith) not_now)
    ]

first_is_off :
    (pauses : String → Bool) (ps : List (String × Producer))
    → mics_off ps ≡ true
    → mic_sends pauses (mic_producer ps) ≡ false
unfolding mic_producer mic_sends
first_is_off pauses [] h = refl
first_is_off pauses ((key, p) ∷ ps) h = ground (arith, first_is_off pauses ps)

pub silenced_off :
    (pauses : String → Bool) (o : Option Peer)
    → has_mics_off o ≡ true
    → has_mics_off (silenced pauses o) ≡ true
silenced_off pauses none h = refl
silenced_off pauses (some peer) h = rw (first_is_off pauses peer.producers h) h
