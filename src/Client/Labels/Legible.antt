-- ===== src/Client/Labels/Legible.antt =====
-- The numbers that client/src/utils/format-time.ts writes.
use a_meet.Client.Labels.{
  Phrase, minutes, hours, days, Relative, starting_now, in_the_future, ago, phrase_of,
  relative_time,
}
use a_meet.Prelude.{
  ℕ, ◌+◌, ◌-◌, ◌*◌, ◌≤◌, ◌<◌, ltb, leb, ◌≡◌, sym, subst, arith, Bool-cases, inl, inr,
}

-- A phrase has a number from one up, in the largest unit of which there is less than the next, and
-- says the time to within half a unit.
abbrev pub IsLegible : ℕ → Phrase → Type 0
IsLegible abs (minutes n) =
    (1 ≤ n) × (n < 60) × (n * 60000 ≤ abs + 30000) × (abs < n * 60000 + 30000)
IsLegible abs (hours n) =
    (1 ≤ n) × (n < 24) × (n * 3600000 ≤ abs + 1800000) × (abs < n * 3600000 + 1800000)
IsLegible abs (days n) = (1 ≤ n) × (n * 86400000 ≤ abs + 43200000) × (abs < n * 86400000 + 43200000)

abbrev pub IsTrue : ℕ → ℕ → Relative → Type 0
IsTrue date now starting_now = (date < now + 60000) × (now < date + 60000)
IsTrue date now (in_the_future p) = (now < date) × IsLegible (date - now) p
IsTrue date now (ago p) = (date < now) × IsLegible (now - date) p

phrase_of-IsLegible : (abs : ℕ) → 60000 ≤ abs → IsLegible abs (phrase_of abs)
unfolding phrase_of
phrase_of-IsLegible abs le = ground arith

ahead :
    (date now : ℕ)
    → now ≤ date
    → 60000 ≤ (date - now) + (now - date)
    → IsLegible (date - now) (phrase_of ((date - now) + (now - date)))
ahead date now le far =
    let e : (date - now) + (now - date) ≡ date - now = omega arith in
    subst (λ a. IsLegible (date - now) (phrase_of a)) (sym e)
      (phrase_of-IsLegible (date - now) (omega arith))

behind :
    (date now : ℕ)
    → date ≤ now
    → 60000 ≤ (date - now) + (now - date)
    → IsLegible (now - date) (phrase_of ((date - now) + (now - date)))
behind date now le far =
    let e : (date - now) + (now - date) ≡ now - date = omega arith in
    subst (λ a. IsLegible (now - date) (phrase_of a)) (sym e)
      (phrase_of-IsLegible (now - date) (omega arith))

-- A time that is written is on the side of now that the text says, is less than a minute away where
-- it says so, and otherwise is within half of the unit that is written, of which there are at least
-- one and fewer than make the next unit.
pub relative_time-IsTrue : (date now : ℕ) → IsTrue date now (relative_time date now)
unfolding relative_time
relative_time-IsTrue date now = elim (Bool-cases (ltb ((date - now) + (now - date)) 60000)) [
  | inl near ↦ rw near (ground arith)
  | inr far ↦ rw far (elim (Bool-cases (leb now date)) [
    | inl later ↦ rw later (ground arith, ahead date now (ground arith) (ground arith))
    | inr earlier ↦ rw earlier (ground arith, behind date now (ground arith) (ground arith))
  ])
]
