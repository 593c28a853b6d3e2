-- ===== src/Client/Reactions.antt =====
-- client/src/hooks/useReactions.ts: the emoji on a tile, the floating stream, and their timers. A
-- timer that is set again is another one, with a number of its own.
pub mod Timers
mod Tests
use a_meet.Prelude.{
  ℕ, suc, String, ◌==◌, Bool, true, false, Option, none, some, List, [], ◌∷◌, ◌++◌, or_else,
  if◌then◌else◌, nat_beq,
}
use a_meet.Prelude.Maps.{get, set, delete}

-- `ReactionUser`: a name and an avatar, which may be missing
abbrev pub User : Type 0
User = Option String × Option String

pub record Floating : Type 0 where
  pub id : ℕ
  pub emoji : String
  pub user : User

pub record Reactions : Type 0 where
  pub active : List (String × String)
  -- the pending timer of each tile
  pub reaction_timers : List (String × ℕ)
  pub floating : List Floating
  -- the floating reactions whose timers are pending
  pub float_timers : List ℕ
  pub float_id : ℕ
  pub timers_set : ℕ

abbrev pub new_reactions : Reactions
new_reactions = record {
  active = [];
  reaction_timers = [];
  floating = [];
  float_timers = [];
  float_id = 0;
  timers_set = 0;
}

-- Who reacted: the user, or a peer by the states of now
abbrev pub meta : Option String → User → List (String × User) → String → User
meta self user peers socket_id =
    let peer = or_else (get socket_id peers) (none, none) in
    if elim self [ none ↦ false | some s ↦ socket_id == s ] then user else peer

-- `onReaction`
unfoldable pub on_reaction : String → String → User → Reactions → Reactions
on_reaction emoji socket_id user r = record {
  active = set socket_id emoji r.active;
  reaction_timers = set socket_id r.timers_set r.reaction_timers;
  floating = r.floating ++ record { id = suc r.float_id; emoji = emoji; user = user } ∷ [];
  float_timers = r.float_timers ++ suc r.float_id ∷ [];
  float_id = suc r.float_id;
  timers_set = suc r.timers_set;
}

abbrev pub is_pending : Option ℕ → ℕ → Bool
is_pending none n = false
is_pending (some m) n = nat_beq m n

-- The tile's timer of this number fires, if it was not cleared by a later one.
unfoldable pub clear_tile : String → ℕ → Reactions → Reactions
clear_tile socket_id n r =
    if is_pending (get socket_id r.reaction_timers) n
    then record r {
      active = delete socket_id r.active;
      reaction_timers = delete socket_id r.reaction_timers;
    }
    else r

unfoldable pub without_float : ℕ → List Floating → List Floating
without_float id [] = []
without_float id (f ∷ fs) =
    let rest = without_float id fs in if nat_beq f.id id then rest else f ∷ rest

unfoldable pub without_timer : ℕ → List ℕ → List ℕ
without_timer id [] = []
without_timer id (n ∷ ns) =
    let rest = without_timer id ns in if nat_beq n id then rest else n ∷ rest

-- The timer of a floating reaction fires.
unfoldable pub clear_float : ℕ → Reactions → Reactions
unfolding without_float without_timer
clear_float id r = record r {
  floating = without_float id r.floating;
  float_timers = without_timer id r.float_timers;
}

pub data Event : Type 0 where
  reacts : String → String → User → Event
  tile_over : String → ℕ → Event
  float_over : ℕ → Event

unfoldable pub step : Event → Reactions → Reactions
unfolding on_reaction clear_tile clear_float
step (reacts emoji socket_id user) r = on_reaction emoji socket_id user r
step (tile_over socket_id n) r = clear_tile socket_id n r
step (float_over id) r = clear_float id r

abbrev pub run : List Event → Reactions → Reactions
run [] r = r
run (e ∷ es) r = run es (step e r)
