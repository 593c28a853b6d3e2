-- ===== src/Client/Stage/Tests.antt =====
-- Stages of small meetings, and instances of the theorems about them.
use a_meet.Client.Stage.{auto, spotlight, focus, Options, stage_of, Share, shares_of}
use a_meet.Client.Stage.Focus.{IsFitting, stage_of-IsFitting}
use a_meet.Prelude.Maps.{contains}
use a_meet.Prelude.Text.{is_empty}
use a_meet.Prelude.{true, false, none, some, List, [], ◌∷◌, ◌≡◌, refl}

abbrev two_others : Options
two_others = record {
  self_key = "me";
  remote_keys = "ann" ∷ "bob" ∷ [];
  active_speaker = some "bob";
  spotlight_key = some "gone";
  has_screen = false;
  is_alone = false;
  is_solo_call = false;
}

-- The spotlight of somebody who has left is passed over.
speaker_in_focus : stage_of two_others none spotlight ≡ focus "bob" false
unfolding stage_of contains is_empty
speaker_in_focus = refl

stage_of-IsFitting_example :
    IsFitting two_others (some "ann") auto (stage_of two_others (some "ann") auto)
stage_of-IsFitting_example = stage_of-IsFitting two_others (some "ann") auto

abbrev shares : List Share
shares = shares_of (("ann", "s") ∷ []) [] true (some "t") none "You"
