-- ===== src/Client/Stage/Focus.antt =====
-- Who is in focus, in client/src/hooks/useRoomLayout.ts, and which shared screen is shown, in
-- client/src/hooks/useScreenShare.ts.
use a_meet.Client.Stage.{
  LayoutMode, LayoutStage, presentation, focus, grid, alone, solo, Options, key_present, first_of,
  fallback_focus, is_forced, stage_of, Share, find, first_share, or_next, has_key, pinned_share,
  has_screen_of,
}
use a_meet.Prelude.{
  String, ◌==◌, eq_refl, Bool, true, false, not, ◌||◌, Option, none, some, List, [], ◌∷◌, or_else,
  is_some, ◌≡◌, refl, In, arith, inl, inr, Bool-cases,
}
use a_meet.Prelude.Maps.{contains}

abbrev pub is_presentation : LayoutStage → Bool
is_presentation presentation = true
is_presentation (focus k r) = false
is_presentation grid = false
is_presentation alone = false
is_presentation solo = false

-- Whom a stage focuses
abbrev pub focused : LayoutStage → Option String
focused presentation = none
focused (focus k r) = some k
focused grid = none
focused alone = none
focused solo = none

abbrev pub is_here : Options → String → Bool
is_here o k = k == o.self_key || contains k o.remote_keys

-- A stage, for these participants, a pin and a layout.
pub record IsFitting (o : Options) (pinned : Option String) (mode : LayoutMode) (s : LayoutStage)
    : Type 0 where
  pub screen : is_presentation s ≡ o.has_screen
  pub here : (k : String) → focused s ≡ some k → is_here o k ≡ true
  pub host :
      o.has_screen ≡ false → key_present o o.spotlight_key ≡ true → focused s ≡ o.spotlight_key
  pub pin :
      o.has_screen ≡ false
      → key_present o o.spotlight_key ≡ false
      → key_present o pinned ≡ true
      → focused s ≡ pinned
  pub unforced :
      key_present o o.spotlight_key ≡ false
      → key_present o pinned ≡ false
      → is_forced mode ≡ false
      → focused s ≡ none

here_first :
    (self : String) (ks : List String)
    → let k = or_else (first_of ks) self in (k == self || contains k ks) ≡ true
unfolding contains
here_first self [] = ground (arith, eq_refl self)
here_first self (k ∷ ks) = ground (arith, eq_refl k)

first_here : (o : Options) → is_here o (or_else (first_of o.remote_keys) o.self_key) ≡ true
first_here o = here_first o.self_key o.remote_keys

fallback_here : (o : Options) → is_here o (fallback_focus o) ≡ true
fallback_here o = let h = first_here o in ground arith

-- A screen that is shared is always the stage. Otherwise the host's spotlight is in focus if its
-- participant is present, else the viewer's pin if that one is, and else nobody unless the layout
-- forces it; whoever is in focus is present.
pub stage_of-IsFitting :
    (o : Options) (pinned : Option String) (mode : LayoutMode)
    → IsFitting o pinned mode (stage_of o pinned mode)
unfolding stage_of
stage_of-IsFitting o pinned mode = let h = fallback_here o in ground arith

-- The share that is shown, of these.
pub record IsStaged (key : Option String) (shares : List Share) (shown : Option Share)
    : Type 0 where
  pub there : is_some shown ≡ has_screen_of shares
  pub listed : (s : Share) → shown ≡ some s → In s shares
  pub wanted : (s : Share) → find (has_key key) shares ≡ some s → shown ≡ some s

In-find : (f : Share → Bool) (ss : List Share) (s : Share) → find f ss ≡ some s → In s ss
In-find f [] s e = absurd (ground arith)
In-find f (x ∷ ss) s e = elim (Bool-cases (f x)) [
  | inl t ↦ inl (ground arith)
  | inr n ↦ inr (In-find f ss s (ground arith))
]

In-or_next :
    (a b : Option Share) (ss : List Share)
    → ((s : Share) → a ≡ some s → In s ss)
    → ((s : Share) → b ≡ some s → In s ss)
    → (s : Share) → or_next a b ≡ some s
    → In s ss
In-or_next none b ss f g s e = g s e
In-or_next (some x) b ss f g s e = f s e

In-first_share : (ss : List Share) (s : Share) → first_share ss ≡ some s → In s ss
In-first_share [] s e = absurd (ground arith)
In-first_share (x ∷ ss) s e = inl (ground arith)

is_some-or_next : (a b : Option Share) → is_some b ≡ true → is_some (or_next a b) ≡ true
is_some-or_next none b e = e
is_some-or_next (some x) b e = refl

pinned_there :
    (key : Option String) (shares : List Share)
    → is_some (pinned_share key shares) ≡ has_screen_of shares
unfolding pinned_share
pinned_there key [] = refl
pinned_there key (s ∷ ss) =
    is_some-or_next (find (has_key key) (s ∷ ss))
      (or_next (find (λ t. not t.is_local) (s ∷ ss)) (some s))
      (is_some-or_next (find (λ t. not t.is_local) (s ∷ ss)) (some s) refl)

-- A share is shown just if there is one, and it is one of them: the one that the user pinned as long
-- as it is there.
pub pinned_share-IsStaged :
    (key : Option String) (shares : List Share) → IsStaged key shares (pinned_share key shares)
unfolding pinned_share
pinned_share-IsStaged key shares = record {
  there = pinned_there key shares;
  listed =
      In-or_next (find (has_key key) shares)
        (or_next (find (λ s. not s.is_local) shares) (first_share shares)) shares
        (In-find (has_key key) shares)
        (In-or_next (find (λ s. not s.is_local) shares) (first_share shares) shares
          (In-find (λ s. not s.is_local) shares) (In-first_share shares));
  wanted = λ s e. rw e refl;
}
