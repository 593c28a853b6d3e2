-- ===== src/Client/Reactions/Timers.antt =====
-- Every reaction that is rendered is going to be cleared: client/src/hooks/useReactions.ts.
use a_meet.Client.Reactions.{
  Floating, Reactions, new_reactions, on_reaction, is_pending, clear_tile, without_float,
  without_timer, clear_float, Event, reacts, tile_over, float_over, step, run,
}
use a_meet.Prelude.{
  ℕ, suc, String, List, [], ◌∷◌, ◌++◌, map, is_some, nat_beq, ◌≡◌, ◌≤◌, ◌<◌, ◌∙◌, refl, ap, All,
  All-append, arith, Bool-cases, inl, inr,
}
use a_meet.Prelude.Maps.{get, get-set, get-delete}

abbrev pub float_ids : List Floating → List ℕ
float_ids = map (λ f. f.id)

-- The numbers of the floating reactions, in their order, are growing and below this one.
abbrev pub IsGrowing : List ℕ → ℕ → Type 0
IsGrowing [] n = Unit
IsGrowing (i ∷ is) n = All (λ j. i < j) is × (i ≤ n) × IsGrowing is n

pub record IsTimed (r : Reactions) : Type 0 where
  pub tiles : (s : String) → is_some (get s r.active) ≡ is_some (get s r.reaction_timers)
  pub floats : float_ids r.floating ≡ r.float_timers
  pub growing : IsGrowing r.float_timers r.float_id

float_ids-append : (fs gs : List Floating) → float_ids (fs ++ gs) ≡ float_ids fs ++ float_ids gs
float_ids-append [] gs = refl
float_ids-append (f ∷ fs) gs = ap (λ l. f.id ∷ l) (float_ids-append fs gs)

float_ids-without_float :
    (id : ℕ) (fs : List Floating)
    → float_ids (without_float id fs) ≡ without_timer id (float_ids fs)
unfolding without_float without_timer
float_ids-without_float id [] = refl
float_ids-without_float id (f ∷ fs) = let ih = float_ids-without_float id fs in ground arith

below : (n : ℕ) (is : List ℕ) → IsGrowing is n → All (λ j. j ≤ n) is
below n [] v = tt
below n (i ∷ is) v = (v.1, below n is v.2)

grown : (n : ℕ) (is : List ℕ) → IsGrowing is n → IsGrowing (is ++ suc n ∷ []) (suc n)
grown n [] v = (tt, ground arith, tt)
grown n (i ∷ is) (a, le, v) =
    (All-append (λ j. i < j) is (suc n ∷ []) a (ground arith, tt), ground arith, grown n is v)

All-without_timer :
    (i id : ℕ) (is : List ℕ) → All (λ j. i < j) is → All (λ j. i < j) (without_timer id is)
unfolding without_timer
All-without_timer i id [] v = tt
All-without_timer i id (j ∷ js) v = ground (arith, All-without_timer i id js v.1)

shrunk : (id n : ℕ) (is : List ℕ) → IsGrowing is n → IsGrowing (without_timer id is) n
unfolding without_timer
shrunk id n [] v = tt
shrunk id n (i ∷ is) (a, le, v) = elim (Bool-cases (nat_beq i id)) [
  | inl e ↦ rw e (shrunk id n is v)
  | inr e ↦ rw e (All-without_timer i id is a, le, shrunk id n is v)
]

clear_tile-IsTimed : (s : String) (n : ℕ) (r : Reactions) → IsTimed r → IsTimed (clear_tile s n r)
unfolding clear_tile
clear_tile-IsTimed s n r v = elim (Bool-cases (is_pending (get s r.reaction_timers) n)) [
  | inl e ↦ rw e (record {
    tiles =
        λ j. ground (arith, get-delete s j r.active, get-delete s j r.reaction_timers, v.tiles j);
    floats = v.floats;
    growing = v.growing;
  })
  | inr e ↦ rw e v
]

step-IsTimed : (e : Event) (r : Reactions) → IsTimed r → IsTimed (step e r)
unfolding step on_reaction clear_float
step-IsTimed (reacts emoji s user) r v = record {
  tiles = λ j.
      ground
        (arith, get-set s j emoji r.active, get-set s j r.timers_set r.reaction_timers, v.tiles j);
  floats =
      float_ids-append r.floating (record { id = suc r.float_id; emoji = emoji; user = user } ∷ [])
      ∙ ap (λ l. l ++ suc r.float_id ∷ []) v.floats;
  growing = grown r.float_id r.float_timers v.growing;
}
step-IsTimed (tile_over s n) r v = clear_tile-IsTimed s n r v
step-IsTimed (float_over id) r v = record {
  tiles = v.tiles;
  floats = float_ids-without_float id r.floating ∙ ap (without_timer id) v.floats;
  growing = shrunk id r.float_id r.float_timers v.growing;
}

run_on-IsTimed : (es : List Event) (r : Reactions) → IsTimed r → IsTimed (run es r)
run_on-IsTimed [] r v = v
run_on-IsTimed (e ∷ es) r v = run_on-IsTimed es (step e r) (step-IsTimed e r v)

-- After any reactions and timers: a tile shows a reaction just if the timer that clears it is
-- pending, each floating reaction has its timer pending, and their numbers, by which they are cleared,
-- are all different.
pub run-IsTimed : (es : List Event) → IsTimed (run es new_reactions)
unfolding get
run-IsTimed es =
    run_on-IsTimed es new_reactions (record { tiles = λ s. refl; floats = refl; growing = tt })
