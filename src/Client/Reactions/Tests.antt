-- ===== src/Client/Reactions/Tests.antt =====
-- Two reactions of one peer.
use a_meet.Client.Reactions.{
  new_reactions, on_reaction, clear_tile, reacts, tile_over, Event, step, run,
}
use a_meet.Prelude.{none, some, List, [], ◌∷◌, ◌≡◌, refl}
use a_meet.Prelude.Maps.{get, set, delete}

abbrev twice : List Event
twice = reacts "+1" "ann" (none, none) ∷ reacts "ok" "ann" (none, none) ∷ tile_over "ann" 0 ∷ []

-- The timer of the first does not clear the second.
second_stays : get "ann" (run twice new_reactions).active ≡ some "ok"
unfolding step on_reaction clear_tile get set delete
second_stays = refl
